-- ===== src/Simulation/Sends.antt =====
-- cli/r-multicast/main.go: what a send leaves of a node, whichever loop it is of.
use cs425_mps.Base.{
  ℕ, ◌+◌, ◌≤◌, ◌<◌, some, List, [], ◌∷◌, ◌++◌, ◌≡◌, refl, ap, ◌∙◌, All, length-append, ◌==◌, arith,
  Option-cases, List-cases, ◌⊎◌, inl, inr,
}
use cs425_mps.Base.Text.{Str}
use cs425_mps.Simulation.{Msg, Outgoing, N, put, next_send, take_out}
use cs425_mps.Simulation.Counts.{flag, count_to, take_out-some}
use cs425_mps.Simulation.Nodes.{IsFrom, IsSend, left, NodeValid, All-snoc, put-All}

module _ (n src : ℕ) (b : Str) (i : ℕ) where
  -- The node after its loop moved on, with what it sends next.
  record Moved (node node' : N) (to : ℕ) (m : Msg) : Type 0 where
    same_id : node'.id ≡ node.id
    same_received : node'.received ≡ node.received
    same_out : (k : ℕ) → node'.out k ≡ node.out k
    legal : IsSend n b i (to, m)
    starts' : All (IsSend n b i) node'.sending
    relays' : All (IsSend n b i) node'.relaying
    fewer : (k : ℕ) → left node k ≡ flag (to == k) + left node' k
    fewer_starts : (k : ℕ) → count_to k node.sending ≤ flag (to == k) + count_to k node'.sending

  abbrev Starts : N → N → ℕ → Msg → Type 0
  Starts node node' to m =
      (x : Outgoing) × (rest : List Outgoing) × (take_out to node.sending ≡ some (x, rest))
      × (node' ≡ record node { sending = rest })
      × (m ≡ x.1)

  abbrev Relays : N → N → ℕ → Msg → Type 0
  Relays node node' to m =
      (x : Outgoing) × (rest : List Outgoing) × (take_out to node.relaying ≡ some (x, rest))
      × (node' ≡ record node { relaying = rest })
      × (m ≡ x.1)

  next_send-inv :
      (node node' : N) (to : ℕ) (m : Msg)
      → next_send node to ≡ some (node', m)
      → Starts node node' to m ⊎ Relays node node' to m
  unfolding next_send
  next_send-inv node node' to m e = elim (List-cases node.sending) [
    | inl f ↦ elim (Option-cases (take_out to node.relaying)) [
      | inl g ↦ absurd (ground arith)
      | inr ((x, rest), g) ↦ inr (x, rest, g, cc, cc)
    ]
    | inr (y, ys, f) ↦ elim (Option-cases (take_out to (y ∷ ys))) [
      | inl g ↦ absurd (ground arith)
      | inr ((x, rest), g) ↦ inl (x, rest, cc, cc, cc)
    ]
  ]

  start-Moved :
      (node : N) (to : ℕ) (x : Outgoing) (rest : List Outgoing)
      → All (IsSend n b i) node.sending
      → All (IsSend n b i) node.relaying
      → take_out to node.sending ≡ some (x, rest)
      → Moved node (record node { sending = rest }) to x.1
  start-Moved node to x rest p q e =
      let (at, legal, others, counts) = take_out-some (IsSend n b i) to node.sending x rest e p in
      record {
        same_id = refl;
        same_received = refl;
        same_out = λ k. refl;
        legal = (omega (arith, at, legal.0), legal.1);
        starts' = others;
        relays' = q;
        fewer = λ k. omega (arith, counts k);
        fewer_starts = λ k. omega (arith, counts k);
      }

  relay-Moved :
      (node : N) (to : ℕ) (x : Outgoing) (rest : List Outgoing)
      → All (IsSend n b i) node.sending
      → All (IsSend n b i) node.relaying
      → take_out to node.relaying ≡ some (x, rest)
      → Moved node (record node { relaying = rest }) to x.1
  relay-Moved node to x rest p q e =
      let (at, legal, others, counts) = take_out-some (IsSend n b i) to node.relaying x rest e q in
      record {
        same_id = refl;
        same_received = refl;
        same_out = λ k. refl;
        legal = (omega (arith, at, legal.0), legal.1);
        starts' = p;
        relays' = others;
        fewer = λ k. omega (arith, counts k);
        fewer_starts = λ k. omega arith;
      }

  next_send-Moved :
      (node node' : N) (to : ℕ) (m : Msg)
      → All (IsSend n b i) node.sending
      → All (IsSend n b i) node.relaying
      → next_send node to ≡ some (node', m)
      → Moved node node' to m
  next_send-Moved node node' to m p q e = elim (next_send-inv node node' to m e) [
    | inl (x, rest, g, same, body) ↦ rw (same, body) (start-Moved node to x rest p q g)
    | inr (x, rest, g, same, body) ↦ rw (same, body) (relay-Moved node to x rest p q g)
  ]

  pub next_send-received :
      (node node' : N) (to : ℕ) (m : Msg)
      → next_send node to ≡ some (node', m)
      → node'.received ≡ node.received
  next_send-received node node' to m e = elim (next_send-inv node node' to m e) [
    | inl (x, rest, g, same, body) ↦ ap (λ x. x.received) same
    | inr (x, rest, g, same, body) ↦ ap (λ x. x.received) same
  ]

  pub next_send-out :
      (node node' : N) (to : ℕ) (m : Msg)
      → next_send node to ≡ some (node', m)
      → node'.out ≡ node.out
  next_send-out node node' to m e = elim (next_send-inv node node' to m e) [
    | inl (x, rest, g, same, body) ↦ ap (λ x. x.out) same
    | inr (x, rest, g, same, body) ↦ ap (λ x. x.out) same
  ]

  pub send-NodeValid :
      (node node' : N) (to : ℕ) (m : Msg) (sent got : ℕ → ℕ)
      → NodeValid n src b i node sent got
      → next_send node to ≡ some (node', m)
      → to < n
        × NodeValid n src b i
            (record node' { out = put to (node'.out to ++ m ∷ []) node'.out })
            (λ k. flag (to == k) + sent k)
            got
  send-NodeValid node node' to m sent got v e =
      let moved = next_send-Moved node node' to m v.starts v.relays e in
      (
        moved.legal.0,
        record {
          own = moved.same_id ∙ v.own;
          starts = moved.starts';
          relays = moved.relays';
          carries = λ j.
              put-All (IsFrom b i) to j node'.out _ (λ k. rw (moved.same_out k) (v.carries k))
                (All-snoc (IsFrom b i) (node'.out to) m (rw (moved.same_out to) (v.carries to))
                  moved.legal.1);
          within = λ j. ground (arith, v.within j, moved.fewer j, moved.same_received);
          flow =
              λ j. ground (arith, v.flow j, moved.same_out j, length-append (node'.out j) (m ∷ []));
          asked = λ j s l. omega (arith, v.asked j s l, moved.fewer_starts j);
        },
      )
