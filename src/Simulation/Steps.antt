-- ===== src/Simulation/Steps.antt =====
-- cli/r-multicast/main.go: what an action that happens does to the state.
use cs425_mps.Base.{
  ℕ, ◌+◌, ◌%◌, ◌^◌, ◌<◌, some, List, [], ◌∷◌, ◌++◌, ◌≡◌, refl, ap, length, length-append, ltb,
  arith, Option-cases, List-cases, inl, inr, Bool-cases,
}
use cs425_mps.Base.Int.{ℤ}
use cs425_mps.Simulation.{
  Msg, N, G, sends, delivers, put, add, send, next_send, receive, step, bd, arrow, total, as_int32,
  capacity, Line,
}
use cs425_mps.Simulation.Counts.{arrows}

abbrev pub with_sent : N → ℕ → Msg → N
with_sent node to m = record node { out = put to (node.out to ++ m ∷ []) node.out }

-- The state after a send that does not block.
abbrev pub sent_state : G → N → ℕ → Msg → G
sent_state g node to m = record {
  size = g.size;
  counter = (g.counter + 1) % 2 ^ 32;
  lines = (g.lines ++ arrow node.id to ∷ []) ++ total (as_int32 ((g.counter + 1) % 2 ^ 32)) ∷ [];
  nodes = put node.id (with_sent node to m) g.nodes;
}

pub send-inv :
    (g h : G) (node : N) (to : ℕ) (m : Msg) → send g node to m ≡ some h → h ≡ sent_state g node to m
unfolding send add
send-inv g h node to m e = elim (Bool-cases (ltb (length (node.out to)) capacity)) [
  | inl room ↦ ground arith
  | inr full ↦ absurd (ground arith)
]

arrows-line :
    (ls : List Line) (i j : ℕ) (c : ℤ)
    → arrows ((ls ++ arrow i j ∷ []) ++ total c ∷ []) ≡ arrows ls ++ (i, j) ∷ []
unfolding arrows
arrows-line [] i j c = refl
arrows-line (arrow a b ∷ ls) i j c = ap (λ ps. (a, b) ∷ ps) (arrows-line ls i j c)
arrows-line (total d ∷ ls) i j c = arrows-line ls i j c

pub arrows-sent :
    (g : G) (node : N) (to : ℕ) (m : Msg)
    → arrows (sent_state g node to m).lines ≡ arrows g.lines ++ (node.id, to) ∷ []
arrows-sent g node to m = arrows-line g.lines _ _ _

pub word-sent :
    (g : G) (node : N) (to : ℕ) (m : Msg)
    → g.counter ≡ length (arrows g.lines) % 2 ^ 32
    → (sent_state g node to m).counter ≡ length (arrows (sent_state g node to m).lines) % 2 ^ 32
word-sent g node to m e = omega (
  arith,
  e,
  ap length (arrows-sent g node to m),
  length-append (arrows g.lines) ((node.id, to) ∷ []),
)

pub sends-inv :
    (g h : G) (i j : ℕ)
    → step (sends i j) g ≡ some h
    → (i < g.size)
      × (node : N) × (m : Msg) × (next_send (g.nodes i) j ≡ some (node, m))
      × (h ≡ sent_state g node j m)
unfolding step
sends-inv g h i j e = elim (Option-cases (next_send (g.nodes i) j)) [
  | inl none_left ↦ absurd (ground arith)
  | inr ((node, m), next) ↦ (ground arith, node, m, next, send-inv g h node j m (ground arith))
]

-- The state after a node received the first message of a channel to it.
abbrev pub taken : G → ℕ → ℕ → List Msg → ℕ → N
taken g i j ms = put j (record (g.nodes j) { out = put i ms (g.nodes j).out }) g.nodes

pub delivers-inv :
    (g h : G) (i j : ℕ)
    → step (delivers i j) g ≡ some h
    → (i < g.size)
      × (j < g.size)
      × (m : Msg) × (ms : List Msg) × ((g.nodes j).out i ≡ m ∷ ms)
      × ((taken g i j ms i).relaying ≡ [])
      × (h ≡ record g { nodes = put i (bd g.size (taken g i j ms i) m) (taken g i j ms) })
unfolding step receive
delivers-inv g h i j e = elim (List-cases ((g.nodes j).out i)) [
  | inl empty ↦ absurd (ground arith)
  | inr (m, ms, f) ↦ elim (List-cases (taken g i j ms i).relaying) [
    | inl free ↦ (ground arith, ground arith, m, ms, f, free, ground arith)
    | inr (x, xs, busy) ↦ absurd (ground arith)
  ]
]
