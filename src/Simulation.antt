-- ===== src/Simulation.antt =====
-- cli/r-multicast/main.go: the simulation of the reliable multicast on channels. A state of the process
-- is one between two actions of its goroutines: a send, or a receive with what its handler does before
-- it sends. A message that a goroutine took and holds while it waits for the lock of its node counts as
-- in the channel still.
pub mod Counts
pub mod Sums
pub mod Nodes
pub mod Sends
pub mod Receives
pub mod Steps
pub mod Invariant
pub mod Initial
pub mod Bounds
pub mod Progress
mod Tests
use cs425_mps.Base.{
  ℕ, zero, suc, ◌+◌, ◌-◌, ◌%◌, ◌^◌, Bool, not, ◌&&◌, Option, none, some, List, [], ◌∷◌, ◌++◌, ltb,
  ◌==◌, if◌then◌else◌, length,
}
use mathlib.Core.Option.{map}
use cs425_mps.Base.Int.{ℤ, pos, negsuc}
use cs425_mps.Base.Text.{Str, codes}
use cs425_mps.Base.Dict.{Dict, lookup, insert}
use cs425_mps.Base.Run.{Run, ok, panic}

pub record Msg : Type 0 where
  pub body : Str
  pub from : ℕ

-- What a loop of sends has left: where to, and what.
abbrev pub Outgoing : Type 0
Outgoing = ℕ × Msg

-- `out to` is the channel to the node `to`, which is also what that node receives from. `sending` is
-- what BM has left to send and `relaying` what BMA has left. Each keeps OLock while it sends, and BMA
-- keeps RLock too.
pub record N : Type 0 where
  pub id : ℕ
  pub received : Dict (Unit {0})
  pub out : ℕ → List Msg
  pub sending : List Outgoing
  pub relaying : List Outgoing

-- A line of the output: `from -> to`, or the counter.
pub data Line : Type 0 where
  arrow : ℕ → ℕ → Line
  total : ℤ → Line

-- The nodes are those below `size`. `counter` is the word of the int32.
pub record G : Type 0 where
  pub size : ℕ
  pub counter : ℕ
  pub lines : List Line
  pub nodes : ℕ → N

abbrev pub put {ℓ} : {A : Type ℓ} → ℕ → A → (ℕ → A) → ℕ → A
put i a f k = if i == k then a else f k

abbrev pub as_int32 : ℕ → ℤ
as_int32 w = if ltb w (2 ^ 31) then pos w else negsuc (2 ^ 32 - 1 - w)

unfoldable pub add : ℕ → G → G
add x g =
    let sum = (g.counter + x) % 2 ^ 32 in
    record g { counter = sum; lines = g.lines ++ total (as_int32 sum) ∷ [] }

abbrev pub capacity : ℕ
capacity = 100000

-- One turn of a loop of sends: `node` is the sender with its loop moved on. The send blocks on a
-- channel that is full.
unfoldable pub send : G → N → ℕ → Msg → Option G
send g node to m =
    let counted = add 1 (record g { lines = g.lines ++ arrow node.id to ∷ [] }) in
    let sent = record node { out = put to (node.out to ++ m ∷ []) node.out } in
    if ltb (length (node.out to)) capacity
    then some (record counted { nodes = put node.id sent g.nodes })
    else none

-- The sends of a message to those nodes below `n` that are tested for. Go ranges over the map of the
-- channels in any order, so any of them may come next.
unfoldable pub batch : (ℕ → Bool) → Msg → ℕ → List Outgoing
batch test m zero = []
batch test m (suc n) = let rest = batch test m n in if test n then (n, m) ∷ rest else rest

-- The start of BM: the sender sends to itself, and then has all others left.
unfoldable pub bm : G → ℕ → Str → Option G
bm g self msg =
    let node = g.nodes self in
    let m : Msg = record { body = msg; from = node.id } in
    send g (record node { sending = batch (λ to. not (to == node.id)) m g.size }) node.id m

unfoldable pub bma : ℕ → N → Str → N
bma size node msg =
    let m : Msg = record { body = msg; from = node.id } in
    record node { relaying = batch (λ member_id. ltb node.id member_id) m size }

-- The body of the loop of BD.
unfoldable pub bd : ℕ → N → Msg → N
bd size node msg =
    let marked = record node { received = insert msg.body tt node.received } in
    elim (lookup msg.body node.received) [
      | some _ ↦ node
      | none ↦ if msg.from == node.id then marked else bma size marked msg.body
    ]

unfoldable pub new_g : ℕ → G
new_g n = record {
  size = n;
  counter = 0;
  lines = [];
  nodes = λ i. record { id = i; received = []; out = λ j. []; sending = []; relaying = [] };
}

-- The start of main, from the numbers on the command line. A source that is no node is a nil pointer.
-- With no node there is none.
unfoldable pub start : ℤ → ℤ → Run (Option G)
start (pos n) (pos src) = if ltb src n then ok (bm (new_g n) src (codes "msg")) else panic
start _ _ = panic

-- The first of the sends left that goes to the node, with the others.
unfoldable pub take_out : ℕ → List Outgoing → Option (Outgoing × List Outgoing)
take_out to [] = none
take_out to (x ∷ xs) =
    let later = take_out to xs in
    if x.0 == to then some (x, xs) else map (λ (y, ys). (y, x ∷ ys)) later

-- `sends i j`: a loop of node i sends to node j. `delivers i j`: node i receives from node j.
pub data Action : Type 0 where
  sends : ℕ → ℕ → Action
  delivers : ℕ → ℕ → Action

-- The next send of a node is one of BM while that is under way, and then one of BMA.
unfoldable pub next_send : N → ℕ → Option (N × Msg)
next_send node to = elim node.sending [
  | [] ↦ elim (take_out to node.relaying) [
    | none ↦ none
    | some (x, rest) ↦ some (record node { relaying = rest }, x.1)
  ]
  | y ∷ ys ↦ elim (take_out to (y ∷ ys)) [
    | none ↦ none
    | some (x, rest) ↦ some (record node { sending = rest }, x.1)
  ]
]

-- The handler of a node, on what it received, waits for RLock.
unfoldable pub receive : ℕ → N → Msg → Option N
receive size node m = elim node.relaying [ [] ↦ some (bd size node m) | _ ∷ _ ↦ none ]

-- The state after an action, or none where it cannot happen.
unfoldable pub step : Action → G → Option G
step (sends i j) g =
    if ltb i g.size
    then elim (next_send (g.nodes i) j) [ none ↦ none | some (node, m) ↦ send g node j m ]
    else none
step (delivers i j) g =
    let sender = g.nodes j in
    if ltb i g.size && ltb j g.size
    then elim (sender.out i) [
      | [] ↦ none
      | m ∷ ms ↦
          let taken = put j (record sender { out = put i ms sender.out }) g.nodes in
          elim (receive g.size (taken i) m) [
            | none ↦ none
            | some node ↦ some (record g { nodes = put i node taken })
          ]
    ]
    else none
