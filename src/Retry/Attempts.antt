-- ===== src/Retry/Attempts.antt =====
-- How many calls are made, and when the result is an error.
use cs425_mps.Base.{
  ℕ, zero, suc, ◌+◌, ◌≤◌, ◌<◌, ◌≡◌, sym, ap, ◌≢◌, inl, inr, Option, none, some, leb, arith,
  Bool-cases, Option-cases,
}
use native.Mathlib.Decide.{ℕ_discrete}
use cs425_mps.Base.Int.{pos}
use cs425_mps.Base.Run.{ok, Returns, returns, Returns-map}
use cs425_mps.Base.Result.{Error, attempts_exceeded}
use cs425_mps.Retry.{gives_up, retry_loop, retry}

-- All calls from `i` up to `n` failed.
abbrev pub Failed : (ℕ → Option Error) → ℕ → ℕ → Type 0
Failed outcome i n = (k : ℕ) → i ≤ k → k < n → outcome k ≢ none

-- The result of the calls from number `i` on, of `n` in all: the first success, or all failed.
pub data Tried (outcome : ℕ → Option Error) (i n : ℕ) : Option Error × ℕ → Type 0 where
  succeeded :
      (k : ℕ)
      → i ≤ k
      → k < n
      → outcome k ≡ none
      → Failed outcome i k
      → Tried outcome i n (none, k + 1)
  exhausted : Failed outcome i n → Tried outcome i n (some attempts_exceeded, n)

Failed-next :
    (outcome : ℕ → Option Error) (i n : ℕ)
    → outcome i ≢ none
    → Failed outcome (i + 1) n
    → Failed outcome i n
Failed-next outcome i n now later k a b = elim (ℕ_discrete i k) [
  | yes same ↦ rw (sym same) now
  | no other ↦ later k (omega arith) b
]

Tried-next :
    (outcome : ℕ → Option Error) (i n : ℕ) (r : Option Error × ℕ)
    → outcome i ≢ none
    → Tried outcome (i + 1) n r
    → Tried outcome i n r
Tried-next outcome i n _ now (succeeded k a b e f) =
    succeeded k (omega arith) b e (Failed-next outcome i k now f)
Tried-next outcome i n _ now (exhausted f) = exhausted (Failed-next outcome i n now f)

retry_loop-Tried :
    (outcome : ℕ → Option Error) (n fuel i : ℕ)
    → i + fuel ≡ suc n
    → 0 < fuel
    → Returns (Tried outcome i (suc n)) (retry_loop outcome (pos (suc n)) fuel i)
unfolding retry_loop gives_up
retry_loop-Tried outcome n zero i e h = absurd (omega arith)
retry_loop-Tried outcome n (suc fuel) i e h = elim (Option-cases (outcome i)) [
  | inl good ↦
      rw (good, retry_loop)
        (returns (succeeded i (omega arith) (omega arith) good λ k a b. absurd (omega arith)))
  | inr (x, bad) ↦
      let failed : outcome i ≢ none = λ g. ground (arith, g, bad) in
      elim (Bool-cases (leb n i)) [
        | inl last ↦
            let reached : n ≤ i = ground arith in
            let count : i + 1 ≡ suc n = omega arith in
            rw (bad, last, retry_loop)
              (rw count (
                returns
                  (exhausted (Failed-next outcome i (suc n) failed λ k a b. absurd (omega arith)))))
        | inr more ↦
            rw (bad, more, retry_loop)
              (Returns-map (retry_loop-Tried outcome n fuel (i + 1) (omega arith) (ground arith))
                λ r t. Tried-next outcome i (suc n) r failed t)
      ]
]

-- With a positive number of attempts, Retry ends within that many calls: after the first success,
-- without an error, or with an error after exactly that many failures.
pub retry_correct :
    (attempts : ℕ) (outcome : ℕ → Option Error)
    → 0 < attempts
    → Returns (Tried outcome 0 attempts) (retry attempts (pos attempts) outcome)
retry_correct zero outcome h = absurd (omega arith)
retry_correct (suc n) outcome h = retry_loop-Tried outcome n (suc n) 0 (omega arith) (omega arith)

retry_loop-forever :
    (outcome : ℕ → Option Error) (left i k : ℕ)
    → i + left ≡ k
    → outcome k ≡ none
    → Failed outcome i k
    → retry_loop outcome (pos 0) (suc left) i ≡ ok (none, k + 1)
unfolding retry_loop gives_up
retry_loop-forever outcome zero i k e good f =
    let here : i ≡ k = omega arith in
    let now : outcome i ≡ none = rw here good in
    rw (now, retry_loop) (ap (λ m. ok (none, m + 1)) here)
retry_loop-forever outcome (suc left) i k e good f = elim (Option-cases (outcome i)) [
  | inl now ↦ absurd (f i (omega arith) (omega arith) now)
  | inr (x, bad) ↦
      rw (bad, retry_loop)
        (retry_loop-forever outcome left (i + 1) k (omega arith) good λ j a b. f j (omega arith) b)
]

-- With 0 attempts, Retry ends right after the first call that succeeds, if there is one.
pub retry_forever :
    (outcome : ℕ → Option Error) (k : ℕ)
    → outcome k ≡ none
    → Failed outcome 0 k
    → retry (suc k) (pos 0) outcome ≡ ok (none, k + 1)
retry_forever outcome k good f = retry_loop-forever outcome k 0 k (omega arith) good f
