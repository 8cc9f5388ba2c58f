-- ===== src/Simulation/Sums.antt =====
-- cli/r-multicast/main.go: sums over the channels between the nodes.
use cs425_mps.Base.{
  ℕ, zero, suc, ◌+◌, ◌-◌, ◌*◌, ◌≤◌, ◌<◌, List, [], ◌∷◌, ◌≡◌, refl, ap, ◌∙◌, All, length, ltb, ◌==◌,
  arith, ◌&&◌,
}
use native.Mathlib.Decide.{ℕ_discrete}
use cs425_mps.Simulation.Counts.{flag, count}

unfoldable pub sum : ℕ → (ℕ → ℕ) → ℕ
sum zero f = 0
sum (suc n) f = sum n f + f n

sum-le : (n : ℕ) (f g : ℕ → ℕ) → ((i : ℕ) → i < n → f i ≤ g i) → sum n f ≤ sum n g
unfolding sum
sum-le zero f g h = omega arith
sum-le (suc n) f g h = omega (arith, h n, sum-le n f g (λ i l. h i (omega arith)))

sum-same : (n : ℕ) (f g : ℕ → ℕ) → ((i : ℕ) → i < n → f i ≡ g i) → sum n f ≡ sum n g
unfolding sum
sum-same zero f g h = refl
sum-same (suc n) f g h = omega (arith, h n, sum-same n f g (λ i l. h i (omega arith)))

sum-add : (n : ℕ) (f g : ℕ → ℕ) → sum n (λ i. f i + g i) ≡ sum n f + sum n g
unfolding sum
sum-add zero f g = omega arith
sum-add (suc n) f g = omega (arith, sum-add n f g)

sum-zero : (n : ℕ) (f : ℕ → ℕ) → ((i : ℕ) → i < n → f i ≡ 0) → sum n f ≡ 0
unfolding sum
sum-zero zero f h = refl
sum-zero (suc n) f h = omega (arith, h n, sum-zero n f (λ i l. h i (omega arith)))

-- A sum with one entry that counts.
sum-single :
    (n a : ℕ) (f : ℕ → ℕ) → a < n → ((i : ℕ) → i < n → (i ≡ a → ⊥) → f i ≡ 0) → sum n f ≡ f a
unfolding sum
sum-single zero a f l h = absurd (omega arith)
sum-single (suc n) a f l h = elim (ℕ_discrete n a) [
  | yes e ↦ omega (arith, ap f e, sum-zero n f (λ i k. h i (omega arith) (λ d. omega arith)))
  | no ne ↦
      omega
        (arith, h n (omega arith) ne, sum-single n a f (omega arith) (λ i k d. h i (omega arith) d))
]

-- The sum over all pairs of numbers below `n`.
abbrev pub grid : ℕ → (ℕ → ℕ → ℕ) → ℕ
grid n f = sum n (λ i. sum n (f i))

abbrev pub InGrid : ℕ → ℕ × ℕ → Type 0
InGrid n p = p.0 < n × p.1 < n

grid-add : (n : ℕ) (f g : ℕ → ℕ → ℕ) → grid n (λ i j. f i j + g i j) ≡ grid n f + grid n g
grid-add n f g = sum-same n _ _ (λ i l. sum-add n (f i) (g i)) ∙ sum-add n _ _

pair-single : (i j a b : ℕ) → (j ≡ b → ⊥) → flag (i == a && j == b) ≡ 0
pair-single i j a b ne = ground arith

pair-row : (i j a b : ℕ) → (i ≡ a → ⊥) → flag (i == a && j == b) ≡ 0
pair-row i j a b ne = ground arith

pair_self : (a b : ℕ) → flag (a == a && b == b) ≡ 1
pair_self a b = ground arith

grid-single : (n a b : ℕ) → a < n → b < n → grid n (λ i j. flag (i == a && j == b)) ≡ 1
grid-single n a b k l =
    sum-single n a _ k (λ i m ne. sum-zero n _ (λ j o. pair-row i j a b ne))
    ∙ sum-single n b _ l (λ j m ne. pair-single a j a b ne)
    ∙ pair_self a b

-- A list is as long as its pairs are counted.
pub grid-count :
    (n : ℕ) (ps : List (ℕ × ℕ)) → All (InGrid n) ps → grid n (λ i j. count i j ps) ≡ length ps
unfolding count
grid-count n [] p = sum-zero n _ (λ i l. sum-zero n _ (λ j k. refl))
grid-count n ((a, b) ∷ ps) p = omega (
  arith,
  grid-add n (λ i j. flag (i == a && j == b)) (λ i j. count i j ps),
  grid-single n a b p.0.0 p.0.1,
  grid-count n ps p.1,
)

pub grid-le :
    (n : ℕ) (f g : ℕ → ℕ → ℕ) → ((i j : ℕ) → i < n → j < n → f i j ≤ g i j) → grid n f ≤ grid n g
grid-le n f g h = sum-le n _ _ (λ i l. sum-le n _ _ (λ j k. h i j l k))

-- At most how often a node sends to a node: once in BM, if it is the source, and once in BMA, if the
-- other has the higher number.
abbrev pub quota : ℕ → ℕ → ℕ → ℕ
quota src i j = flag (i == src) + flag (ltb i j)

sum-higher : (n i : ℕ) → sum n (λ j. flag (ltb i j)) ≡ n - suc i
unfolding sum
sum-higher zero i = omega arith
sum-higher (suc n) i = ground (arith, sum-higher n i)

sum-row : (n src : ℕ) → sum n (λ j. flag (src == src)) ≡ n
unfolding sum
sum-row zero src = refl
sum-row (suc n) src = ground (arith, sum-row n src)

triangle : (n m : ℕ) → m ≤ n → 2 * sum m (λ i. n - suc i) + m * m + m ≡ 2 * (n * m)
unfolding sum
triangle n zero h = omega arith
triangle n (suc m) h = omega (arith, triangle n m (omega arith))

pub grid-quota : (n src : ℕ) → src < n → 2 * grid n (quota src) ≡ n * n + n
grid-quota n src h = omega (
  arith,
  grid-add n (λ i j. flag (i == src)) (λ i j. flag (ltb i j)),
  sum-single n src (λ i. sum n (λ j. flag (i == src))) h
      (λ i l ne. sum-zero n _ (λ j k. ground arith)),
  sum-same n (λ i. sum n (λ j. flag (ltb i j))) (λ i. n - suc i) (λ i l. sum-higher n i),
  triangle n n (omega arith),
  sum-row n src,
)
