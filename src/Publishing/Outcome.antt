-- ===== src/Publishing/Outcome.antt =====
-- publishing/outcome.py and the result type of publishing/sink.py.
use avengers_fyp_is.Common.{
  ℕ, ◌≤◌, ◌<◌, ◌≡◌, ◌≢◌, ◌⊎◌, ◌↔◌, inl, inr, Bool, true, false, ◌&&◌, ◌||◌, String, Option, none,
  some, arith, leb, ltb, nat_beq, Option-cases, if◌then◌else◌,
}

-- The fields of `PublishResult` that are read; `status_code` is `none` for a transport error.
pub record PublishResult : Type 0 where
  pub status_code : Option ℕ
  pub error_class : Option String
  pub retry_after_seconds : Option ℕ

pub data PublishAction : Type 0 where
  commit drop_rejected halt split retry_after backoff : PublishAction

pub record PublishOutcome : Type 0 where
  pub action : PublishAction
  pub status_code : Option ℕ
  pub retry_after_seconds : Option ℕ
  pub error_class : Option String

abbrev pub outcome : PublishAction → Option ℕ → PublishOutcome
outcome action status = record {
  action = action;
  status_code = status;
  retry_after_seconds = none;
  error_class = none;
}

abbrev pub classify_status : ℕ → Option ℕ → PublishOutcome
classify_status status retry =
    if leb 200 status && ltb status 300
    then outcome commit (some status)
    else if nat_beq status 400
    then outcome drop_rejected (some status)
    else if nat_beq status 401 || nat_beq status 403
    then outcome halt (some status)
    else if nat_beq status 408
    then outcome backoff (some status)
    else if nat_beq status 413
    then outcome split (some status)
    else if nat_beq status 429
    then record {
      action = retry_after;
      status_code = some status;
      retry_after_seconds = retry;
      error_class = none;
    }
    else if leb 400 status && ltb status 500
    then outcome drop_rejected (some status)
    else outcome backoff (some status)

unfoldable pub classify_publish_response : PublishResult → PublishOutcome
classify_publish_response result = elim result.status_code [
  | none ↦ record {
    action = backoff;
    status_code = none;
    retry_after_seconds = none;
    error_class = result.error_class;
  }
  | some status ↦ classify_status status result.retry_after_seconds
]

-- The statuses on which a batch leaves the buffer for good.
abbrev pub IsFinal : Option ℕ → Type 0
IsFinal none = ⊥
IsFinal (some s) =
    ((200 ≤ s) × (s < 300))
    ⊎ ((400 ≤ s) × (s < 500) × (s ≢ 401) × (s ≢ 403) × (s ≢ 408) × (s ≢ 413) × (s ≢ 429))

abbrev pub is_final_action : PublishAction → Bool
is_final_action commit = true
is_final_action drop_rejected = true
is_final_action _ = false

status-IsFinal :
    (s : ℕ) (retry : Option ℕ)
    → (is_final_action (classify_status s retry).action ≡ true) ↔ IsFinal (some s)
status-IsFinal s retry = (λ h. ground arith, λ h. ground arith)

-- A response makes the publisher give up its items exactly if the backend has answered with 2xx, or
-- with a 4xx other than 401, 403, 408, 413 and 429.
pub classify-IsFinal :
    (r : PublishResult)
    → (is_final_action (classify_publish_response r).action ≡ true) ↔ IsFinal r.status_code
unfolding classify_publish_response
classify-IsFinal r = elim (Option-cases r.status_code) [
  | inl unreached ↦
      rw (unreached, classify_publish_response) ((λ h. absurd (ground arith)), λ h. absurd h)
  | inr (s, answered) ↦
      rw (answered, classify_publish_response) (status-IsFinal s r.retry_after_seconds)
]
