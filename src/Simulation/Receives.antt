-- ===== src/Simulation/Receives.antt =====
-- cli/r-multicast/main.go: what holds of the sender and of the receiver of a message that is received.
use cs425_mps.Base.{ℕ, ◌+◌, true, none, List, [], ◌∷◌, ◌≡◌, refl, All, ltb, ◌==◌, arith}
use mathlib.Core.Path.{subst}
use cs425_mps.Base.Text.{Str}
use cs425_mps.Base.Dict.{lookup, insert, lookup-insert_self}
use cs425_mps.Simulation.{Msg, N, put, bma, bd}
use cs425_mps.Simulation.Counts.{flag, count_to, count_to-batch, batch-All}
use cs425_mps.Simulation.Nodes.{seen, IsFrom, IsSend, NodeValid, put-All}

module _ (n src : ℕ) (b : Str) (i : ℕ) where
  pub pop-NodeValid :
      (node : N) (to : ℕ) (m : Msg) (ms : List Msg) (sent got : ℕ → ℕ)
      → NodeValid n src b i node sent got
      → node.out to ≡ m ∷ ms
      → IsFrom b i m
        × NodeValid n src b i
            (record node { out = put to ms node.out })
            sent
            (λ k. flag (to == k) + got k)
  pop-NodeValid node to m ms sent got v e =
      let all : All (IsFrom b i) (m ∷ ms) = subst (All (IsFrom b i)) e (v.carries to) in
      (
        all.0,
        record {
          own = v.own;
          starts = v.starts;
          relays = v.relays;
          carries = λ j. put-All (IsFrom b i) to j node.out ms v.carries all.1;
          within = v.within;
          flow = λ j. ground (arith, v.flow to, v.flow j);
          asked = v.asked;
        },
      )

  -- The node marks the message as received, and then may relay it.
  abbrev mark : N → N
  mark node = record node { received = insert b tt node.received }

  mark-seen : (node : N) → seen b (mark node) ≡ true
  mark-seen node = rw (lookup-insert_self b tt node.received) refl

  mark-NodeValid :
      (node : N) (sent got : ℕ → ℕ)
      → NodeValid n src b i node sent got
      → NodeValid n src b i (mark node) sent got
  mark-NodeValid node sent got v = record {
    own = v.own;
    starts = v.starts;
    relays = v.relays;
    carries = v.carries;
    within = λ j. ground (arith, v.within j, mark-seen node);
    flow = v.flow;
    asked = v.asked;
  }

  bma-NodeValid :
      (node : N) (sent got : ℕ → ℕ)
      → NodeValid n src b i node sent got
      → node.relaying ≡ []
      → lookup b node.received ≡ none
      → NodeValid n src b i (bma n (mark node) b) sent got
  unfolding bma count_to
  bma-NodeValid node sent got v free new = record {
    own = v.own;
    starts = v.starts;
    relays = batch-All (IsSend n b i) _ _ n (λ k l. (l, (v.own, refl)));
    carries = v.carries;
    within = λ j. ground (
      arith,
      v.within j,
      v.own,
      free,
      new,
      mark-seen node,
      count_to-batch (λ member_id. ltb node.id member_id) (record { body = b; from = node.id }) n j,
    );
    flow = v.flow;
    asked = v.asked;
  }

  pub bd-NodeValid :
      (node : N) (j : ℕ) (m : Msg) (sent got : ℕ → ℕ)
      → NodeValid n src b i node sent got
      → node.relaying ≡ []
      → IsFrom b j m
      → NodeValid n src b i (bd n node m) sent got × (seen b (bd n node m) ≡ true)
  unfolding bd bma
  bd-NodeValid node j m sent got v e f = rw f.1 (
      ground
        (arith, mark-seen node, mark-NodeValid node sent got v, bma-NodeValid node sent got v e))
