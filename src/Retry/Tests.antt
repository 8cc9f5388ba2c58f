-- ===== src/Retry/Tests.antt =====
-- Two failures, then successes.
use cs425_mps.Base.{ℕ, zero, suc, ◌≡◌, refl, Option, none, some, arith}
use cs425_mps.Base.Int.{pos}
use cs425_mps.Base.Run.{ok, Returns}
use cs425_mps.Base.Result.{Error, dial_failed}
use cs425_mps.Retry.{retry}
use cs425_mps.Retry.Attempts.{Tried, Failed, retry_correct, retry_forever}

abbrev third_time : ℕ → Option Error
third_time zero = some dial_failed
third_time (suc zero) = some dial_failed
third_time (suc (suc n)) = none

retry_correct_example : Returns (Tried third_time 0 5) (retry 5 (pos 5) third_time)
retry_correct_example = retry_correct 5 third_time (omega arith)

two_fail : Failed third_time 0 2
two_fail zero a b = λ e. ground (arith, e)
two_fail (suc zero) a b = λ e. ground (arith, e)
two_fail (suc (suc k)) a b = absurd (omega arith)

retry_forever_example : retry 3 (pos 0) third_time ≡ ok (none, 3)
retry_forever_example = retry_forever third_time 2 refl two_fail
