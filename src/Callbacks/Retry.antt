-- ===== src/Callbacks/Retry.antt =====
-- callbacks/retry.py and the result type of callbacks/sink.py.
use avengers_fyp_is.Common.{ℕ, ◌&&◌, ◌||◌, String, Option, leb, ltb, nat_beq, if◌then◌else◌}

pub data RetryDecision : Type 0 where
  success retry permanent_failure : RetryDecision

unfoldable pub classify_http_status : ℕ → RetryDecision
classify_http_status status =
    if leb 200 status && ltb status 300
    then success
    else if nat_beq status 408 || nat_beq status 429 || leb 500 status
    then retry
    else permanent_failure

-- The fields of `CallbackResult` that the dispatcher reads.
pub record CallbackResult : Type 0 where
  pub status_code : Option ℕ
  pub error_class : Option String
  pub retry_after_seconds : Option ℕ
