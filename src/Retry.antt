-- ===== src/Retry.antt =====
-- lib/retry/retry.go: calls that are made again until one succeeds. `outcome i` is what the call with
-- number `i` returns, counted from 0. With `attempts = 0` the loop may go on without end, so its rounds
-- are on fuel; the counter stays below the fuel, which is far from the end of Go's `int`.
pub mod Attempts
mod Tests
use cs425_mps.Base.{
  ℕ, zero, suc, ◌+◌, ◌-◌, Bool, true, false, Option, none, some, leb, if◌then◌else◌,
}
use cs425_mps.Base.Int.{ℤ, pos, negsuc}
use cs425_mps.Base.Run.{Run, ok, out_of_fuel}
use cs425_mps.Base.Result.{Error, attempts_exceeded}

-- `attempts != 0 && i >= (attempts-1)`
unfoldable pub gives_up : ℤ → ℕ → Bool
gives_up (pos zero) i = false
gives_up (pos (suc n)) i = leb n i
gives_up (negsuc n) i = true

-- The error, and how many calls were made.
unfoldable pub retry_loop : (ℕ → Option Error) → ℤ → ℕ → ℕ → Run (Option Error × ℕ)
retry_loop outcome attempts zero i = out_of_fuel
retry_loop outcome attempts (suc fuel) i =
    let again = retry_loop outcome attempts fuel (i + 1) in
    let failed = if gives_up attempts i then ok (some attempts_exceeded, i + 1) else again in
    elim (outcome i) [ none ↦ ok (none, i + 1) | some e ↦ failed ]

abbrev pub retry : ℕ → ℤ → (ℕ → Option Error) → Run (Option Error × ℕ)
retry fuel attempts outcome = retry_loop outcome attempts fuel 0
