-- ===== src/Retry/Examples.antt =====
-- A server that is down twice: the witness of the theorem about attempts.
use airing_cal.Common.{◌==◌, if◌then◌else◌, ℕ, ◌≡◌, refl, Bool, true, none, Result, ok, err, arith}
use airing_cal.Retry.{UpstreamStage, Thrown, bgm_http_error, classify, attempts, with_retry}
use airing_cal.Retry.Attempts.{Outcome, with_retry-Outcome}

abbrev down_twice : ℕ → Result Thrown ℕ
down_twice attempt = if attempt == 3 then ok 7 else err (bgm_http_error 503 none)

abbrev sleeps : ℕ → Thrown → Bool
sleeps _ _ = true

third_time : with_retry down_twice sleeps UpstreamStage.collections 3 ≡ ok 7
unfolding with_retry attempts classify
third_time = refl

with_retry-Outcome_example :
    Outcome down_twice sleeps UpstreamStage.collections 1 3
      (with_retry down_twice sleeps UpstreamStage.collections 3)
with_retry-Outcome_example =
    with_retry-Outcome down_twice sleeps UpstreamStage.collections 3 (omega arith) (omega arith)
