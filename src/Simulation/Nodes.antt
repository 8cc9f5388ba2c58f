-- ===== src/Simulation/Nodes.antt =====
-- cli/r-multicast/main.go: what holds of one node, whatever it sent and whatever others received from
-- it.
use cs425_mps.Base.{
  ℕ, ◌+◌, ◌≤◌, ◌<◌, Bool, true, false, Option, none, some, List, [], ◌∷◌, ◌++◌, ◌≡◌, All, length,
  ltb, ◌==◌, if◌then◌else◌, arith,
}
use mathlib.Core.Path.{subst, sym}
use native.Mathlib.Decide.{ℕ_discrete}
use cs425_mps.Base.Text.{Str}
use cs425_mps.Base.Dict.{lookup}
use cs425_mps.Simulation.{Msg, Outgoing, N, put}
use cs425_mps.Simulation.Counts.{flag, count_to}
use cs425_mps.Simulation.Sums.{quota}

abbrev is_some : Option (Unit {0}) → Bool
is_some none = false
is_some (some u) = true

-- Whether the node got the message before.
abbrev pub seen : Str → N → Bool
seen b node = is_some (lookup b node.received)

abbrev pub IsFrom : Str → ℕ → Msg → Type 0
IsFrom b i m = (m.from ≡ i) × (m.body ≡ b)

abbrev pub IsSend : ℕ → Str → ℕ → Outgoing → Type 0
IsSend n b i x = x.0 < n × IsFrom b i x.1

abbrev pub left : N → ℕ → ℕ
left node j = count_to j node.sending + count_to j node.relaying

pub put_self : {A : Type 0} (i : ℕ) (x : A) (f : ℕ → A) → put i x f i ≡ x
put_self i x f = ground arith

pub put_other : {A : Type 0} (i k : ℕ) (x : A) (f : ℕ → A) → i == k ≡ false → put i x f k ≡ f k
put_other i k x f h = ground arith

-- A property of all nodes after one of them changed.
pub put-all {κ} :
    {A : Type 0} (P : ℕ → A → Type κ) (i : ℕ) (x : A) (f : ℕ → A)
    → P i x
    → ((k : ℕ) → i == k ≡ false → P k (f k))
    → (k : ℕ) → P k (put i x f k)
put-all P i x f p q k = elim (ℕ_discrete i k) [
  | yes e ↦ subst (λ t. P t (put i x f t)) e (subst (P i) (sym (put_self i x f)) p)
  | no ne ↦
      let other : i == k ≡ false = ground arith in
      subst (P k) (sym (put_other i k x f other)) (q k other)
]

-- All nodes below `n`, with one source and one message. `sent j` is how often the node sent to j, and
-- `got j` how often j received from it. A node that has not seen the message may send it on yet.
pub record NodeValid (n src : ℕ) (b : Str) (i : ℕ) (node : N) (sent got : ℕ → ℕ) : Type 0 where
  pub own : node.id ≡ i
  pub starts : All (IsSend n b i) node.sending
  pub relays : All (IsSend n b i) node.relaying
  pub carries : (j : ℕ) → All (IsFrom b i) (node.out j)
  pub within :
      (j : ℕ) → sent j + left node j + (if seen b node then 0 else flag (ltb i j)) ≤ quota src i j
  pub flow : (j : ℕ) → sent j ≡ length (node.out j) + got j
  pub asked : (j : ℕ) → i ≡ src → j < n → 1 ≤ sent j + count_to j node.sending

pub All-snoc {ℓ κ} :
    {A : Type ℓ} (P : A → Type κ) (xs : List A) (a : A) → All P xs → P a → All P (xs ++ a ∷ [])
All-snoc P [] a p q = (q, tt)
All-snoc P (x ∷ xs) a p q = (p.0, All-snoc P xs a p.1 q)

pub put-All :
    {A : Type 0} (P : A → Type 0) (i j : ℕ) (f : ℕ → List A) (xs : List A)
    → ((k : ℕ) → All P (f k))
    → All P xs
    → All P (put i xs f j)
put-All P i j f xs p q = ground (arith, p j)

module _ (n src : ℕ) (b : Str) (i : ℕ) where
  pub NodeValid-same :
      (node : N) (sent sent' got got' : ℕ → ℕ)
      → ((j : ℕ) → sent' j ≡ sent j)
      → ((j : ℕ) → got' j ≡ got j)
      → NodeValid n src b i node sent got
      → NodeValid n src b i node sent' got'
  NodeValid-same node sent sent' got got' e f v = record {
    own = v.own;
    starts = v.starts;
    relays = v.relays;
    carries = v.carries;
    within = λ j. omega (arith, e j, v.within j);
    flow = λ j. omega (arith, e j, f j, v.flow j);
    asked = λ j s l. omega (arith, e j, v.asked j s l);
  }
