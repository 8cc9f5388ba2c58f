-- ===== src/Simulation/Progress.antt =====
-- cli/r-multicast/main.go: that the simulation goes on until all nodes received the message.
use cs425_mps.Base.{
  ℕ, zero, suc, ◌≤◌, ◌<◌, true, some, List, [], ◌∷◌, ◌≡◌, ◌⊎◌, refl, sym, ap, length, arith, inl,
  inr, Bool-cases, Option-cases, List-cases,
}
use mathlib.Core.Path.{subst}
use native.Mathlib.Decide.{ℕ_discrete}
use cs425_mps.Base.Int.{pos}
use cs425_mps.Base.Run.{ok}
use cs425_mps.Simulation.{
  G, N, Msg, Action, sends, delivers, start, step, send, next_send, receive, take_out, Outgoing,
  capacity,
}
use cs425_mps.Simulation.Counts.{count_to}
use cs425_mps.Simulation.Nodes.{seen}
use cs425_mps.Simulation.Sends.{next_send-out}
use cs425_mps.Simulation.Invariant.{Runs}
use cs425_mps.Simulation.Bounds.{message, start-inv, main-Valid, queue_bound}

abbrev pub Possible : G → Type 0
Possible g = (e : Action) × (h : G) × (step e g ≡ some h)

-- A loop of sends that has one left has a next one.
take_first :
    (x : Outgoing) (xs : List Outgoing)
    → (y : Outgoing × List Outgoing) × (take_out x.0 (x ∷ xs) ≡ some y)
unfolding take_out
take_first x xs = ((x, xs), ground arith)

next_start :
    (node : N) (x : Outgoing) (xs : List Outgoing)
    → node.sending ≡ x ∷ xs
    → (y : N × Msg) × (next_send node x.0 ≡ some y)
unfolding next_send
next_start node x xs e =
    let (y, f) = take_first x xs in ((record node { sending = y.1 }, y.0.1), ground arith)

next_relay :
    (node : N) (x : Outgoing) (xs : List Outgoing)
    → node.sending ≡ []
    → node.relaying ≡ x ∷ xs
    → (y : N × Msg) × (next_send node x.0 ≡ some y)
unfolding next_send
next_relay node x xs d e =
    let (y, f) = take_first x xs in ((record node { relaying = y.1 }, y.0.1), ground arith)

-- A send goes through if its channel has room.
send-some :
    (g : G) (node : N) (to : ℕ) (m : Msg)
    → length (node.out to) < capacity
    → (h : G) × (send g node to m ≡ some h)
unfolding send
send-some g node to m l = elim (Option-cases (send g node to m)) [
  | inl blocked ↦ absurd (ground arith)
  | inr (h, e) ↦ (h, e)
]

all_below :
    {P : Type 0} {Q : ℕ → Type 0} (n : ℕ)
    → ((j : ℕ) → j < n → P ⊎ Q j)
    → P ⊎ ((j : ℕ) → j < n → Q j)
all_below zero f = inr (λ j l. absurd (omega arith))
all_below {P} {Q} (suc n) f = elim (all_below n (λ j l. f j (omega arith))) [
  | inl p ↦ inl p
  | inr qs ↦ elim (f n (omega arith)) [
    | inl p ↦ inl p
    | inr q ↦ inr (λ j l. elim (ℕ_discrete j n) [
      | yes same ↦ subst Q (sym same) q
      | no ne ↦ qs j (omega arith)
    ])
  ]
]

module _ (n src : ℕ) (g h : G) (es : List Action) (e : start (pos n) (pos src) ≡ ok (some g))
    (r : Runs g es h) where
  next-Possible :
      (i j : ℕ) (node : N) (m : Msg) → i < n → next_send (h.nodes i) j ≡ some (node, m) → Possible h
  unfolding step
  next-Possible i j node m l next =
      let v = main-Valid n src g h es e r in
      let out = next_send-out n src message i (h.nodes i) node j m next in
      let (k, sent) =
        send-some h node j m
          (omega (arith, ap (λ f. length (f j)) out, queue_bound n src g h es e r i j)) in
      (sends i j, k, ground (arith, v.sized))

  starts-Possible : (i j : ℕ) → i < n → 1 ≤ count_to j (h.nodes i).sending → Possible h
  unfolding count_to
  starts-Possible i j l c = elim (List-cases (h.nodes i).sending) [
    | inl empty ↦ absurd (ground arith)
    | inr (x, xs, some_left) ↦
        let ((node, m), next) = next_start (h.nodes i) x xs some_left in
        next-Possible i x.0 node m l next
  ]

  -- A node that sends goes on sending.
  busy-Possible :
      (i : ℕ) (x : Outgoing) (xs : List Outgoing)
      → i < n
      → (h.nodes i).relaying ≡ x ∷ xs
      → Possible h
  unfolding count_to
  busy-Possible i x xs l busy = elim (List-cases (h.nodes i).sending) [
    | inl empty ↦
        let ((node, m), next) = next_relay (h.nodes i) x xs empty busy in
        next-Possible i x.0 node m l next
    | inr (y, ys, some_left) ↦
        let ((node, m), next) = next_start (h.nodes i) y ys some_left in
        next-Possible i y.0 node m l next
  ]

  queue-Possible :
      (i j : ℕ) (m : Msg) (ms : List Msg) → i < n → j < n → (h.nodes j).out i ≡ m ∷ ms → Possible h
  unfolding step receive
  queue-Possible i j m ms l k queue = elim (List-cases (h.nodes i).relaying) [
    | inl free ↦
        let v = main-Valid n src g h es e r in
        elim (Option-cases (step (delivers i j) h)) [
          | inl blocked ↦ absurd (ground (arith, v.sized))
          | inr (k, f) ↦ (delivers i j, k, f)
        ]
    | inr (x, xs, busy) ↦ busy-Possible i x xs l busy
  ]

  node_progresses : (j : ℕ) → src < n → j < n → Possible h ⊎ (seen message (h.nodes j) ≡ true)
  node_progresses j k l =
      let v = main-Valid n src g h es e r in
      elim (Bool-cases (seen message (h.nodes j))) [
        | inl got ↦ inr got
        | inr not_yet ↦ elim (List-cases ((h.nodes src).out j)) [
          | inl empty ↦ inl (
              starts-Possible src j k
                (ground (arith, v.heard src j, (v.node src).flow j, (v.node src).asked j refl l)))
          | inr (m, ms, queue) ↦ inl (queue-Possible j src m ms l k queue)
        ]
      ]

  -- In each state of the simulation, some action is possible, or every node has received the
  -- message.
  pub main_progresses : Possible h ⊎ ((j : ℕ) → j < n → seen message (h.nodes j) ≡ true)
  main_progresses = all_below n (λ j. node_progresses j (start-inv n src g e).0)
