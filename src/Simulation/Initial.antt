-- ===== src/Simulation/Initial.antt =====
-- cli/r-multicast/main.go: the state in which main starts.
use cs425_mps.Base.{ℕ, ◌<◌, false, not, some, [], ◌∷◌, ◌≡◌, refl, sym, ◌==◌, arith}
use mathlib.Core.Path.{subst}
use cs425_mps.Base.Text.{Str}
use cs425_mps.Base.Dict.{lookup}
use cs425_mps.Simulation.{Msg, N, G, bm, new_g, batch}
use cs425_mps.Simulation.Steps.{sent_state, with_sent, send-inv}
use cs425_mps.Simulation.Counts.{count, count_to, count_to-batch, arrows, deliveries, batch-All}
use cs425_mps.Simulation.Nodes.{NodeValid, put-All, put-all, IsSend, IsFrom}
use cs425_mps.Simulation.Invariant.{Valid}

module _ (n src : ℕ) (b : Str) where
  abbrev blank : ℕ → N
  blank i = record { id = i; received = []; out = λ j. []; sending = []; relaying = [] }

  abbrev first : Msg
  first = record { body = b; from = src }

  abbrev sender : N
  sender = record (blank src) { sending = batch (λ to. not (to == src)) first n }

  blank-NodeValid :
      (i : ℕ)
      → src == i ≡ false
      → NodeValid n src b i (blank i) (λ j. count i j ((src, src) ∷ [])) (λ j. 0)
  unfolding count count_to lookup
  blank-NodeValid i ne = record {
    own = refl;
    starts = tt;
    relays = tt;
    carries = λ j. tt;
    within = λ j. ground arith;
    flow = λ j. ground arith;
    asked = λ j same l. absurd (ground arith);
  }

  sender-NodeValid :
      NodeValid n src b src
        (with_sent sender src first)
        (λ j. count src j ((src, src) ∷ []))
        (λ j. 0)
  unfolding count count_to lookup
  sender-NodeValid = record {
    own = refl;
    starts = batch-All (IsSend n b src) _ _ n (λ k l. (l, (refl, refl)));
    relays = tt;
    carries = λ j. put-All (IsFrom b src) src j (λ k. []) (first ∷ []) (λ k. tt) ((refl, refl), tt);
    within = λ j. ground (arith, count_to-batch (λ to. not (to == src)) first n j);
    flow = λ j. ground arith;
    asked = λ j same l. ground (arith, count_to-batch (λ to. not (to == src)) first n j);
  }

  bm_start-Valid : src < n → Valid n src b [] (sent_state (new_g n) sender src first)
  unfolding new_g arrows deliveries count
  bm_start-Valid l = record {
    sized = refl;
    word = refl;
    steps = refl;
    inside = ((l, l), tt);
    node =
        put-all
          (λ a x. NodeValid n src b a x (λ c. count a c ((src, src) ∷ [])) (λ c. count a c [])) src
          _ _ sender-NodeValid blank-NodeValid;
    reached = tt;
    heard = λ i j c. absurd (omega (arith, c));
  }

  pub bm-Valid : (g : G) → bm (new_g n) src b ≡ some g → src < n → Valid n src b [] g
  unfolding bm new_g
  bm-Valid g e l =
      subst (Valid n src b []) (sym (send-inv (new_g n) g sender src first e)) (bm_start-Valid l)
