-- ===== src/Publishing/Publisher/Tests.antt =====
-- The theorems on the publisher, and on what it calls, at concrete inputs.
use avengers_fyp_is.Common.{
  ◌+◌, ℕ, ◌≡◌, inr, refl, false, List, [], ◌∷◌, ◌++◌, Option, none, some, arith,
}
use avengers_fyp_is.Runtime.Backoff.{HasFloatPower, raw_delay, delay_for_attempt}
use avengers_fyp_is.Publishing.Outcome.{commit, backoff, classify_publish_response}
use avengers_fyp_is.Publishing.Buffer.Defs.{
  PendingItem, event, snapshot, alert, make_pending_item, expire, expire_from, take_items,
}
use avengers_fyp_is.Publishing.Buffer.Bounds.{IsValid}
use avengers_fyp_is.Publishing.Batch.{
  Payload, of_snapshot, of_event, of_alert, TelemetryBatch, Carries, build_batch,
  build_batch-Carries,
}
use avengers_fyp_is.Publishing.Publisher.Defs.{
  PublishConfig, Publisher, Surroundings, expire_buffer, begin, send_cycle, publish_once,
}
use avengers_fyp_is.Publishing.Publisher.Retain.{dropped_items}
use avengers_fyp_is.Publishing.Publisher.Kept.{taken_of, rest_of, Retained, GivenUp}
use avengers_fyp_is.Publishing.Publisher.Cycle.{
  due, publish_once-Retained, publish_once-intact, publish_once-GivenUp,
}
use avengers_fyp_is.Publishing.Publisher.Control.{quiet_period}

abbrev Content : Type 0
Content = Payload ℕ ℕ ℕ

abbrev sized : Content → ℕ
sized (of_snapshot n) = n
sized (of_event n) = n
sized (of_alert n) = n

abbrev waiting : List (PendingItem Content)
waiting =
    make_pending_item sized snapshot (of_snapshot 10) 1
    ∷ make_pending_item sized event (of_event 20) 2
    ∷ make_pending_item sized alert (of_alert 5) 3
    ∷ []

abbrev config : PublishConfig
config = record {
  max_batch_items = 2;
  halt_probe_interval = 30;
  retry_policy = record { base = 10; factor = 2000; cap = 100; jitter = 200; max_attempts = 5 };
  agent_id = "agent-1";
  application = "magic";
}

abbrev publisher : Publisher Content
publisher = record {
  buffer = record { max_bytes = 100; max_age = 50; items = waiting; total = 35 };
  next_seq = 7;
  max_batch_items = 2;
  halted = false;
  halted_at = none;
  retry_after_until = none;
  backoff_until = none;
  consecutive_failures = 0;
  logged_schema_error = false;
  counters = [];
  unreachable_calls = 0;
}

publisher-IsValid : IsValid publisher.buffer
publisher-IsValid = record { counted = refl; within = inr (omega arith) }

abbrev answers : Option ℕ → ℕ → Surroundings ℕ ℕ ℕ ℕ
answers status now = record {
  now = now;
  heartbeat = none;
  batch_id = "batch";
  arrivals = make_pending_item sized event (of_event 30) now ∷ [];
  response = record { status_code = status; error_class = none; retry_after_seconds = none };
  drawn = 1100;
}

unreachable_action : (publish_once config (answers none 10) publisher).action ≡ some backoff
unfolding publish_once expire_buffer expire expire_from take_items send_cycle begin
    classify_publish_response
unreachable_action = refl

delivered_action : (publish_once config (answers (some 202) 10) publisher).action ≡ some commit
unfolding publish_once expire_buffer expire expire_from take_items send_cycle begin
    classify_publish_response
delivered_action = refl

build_batch-Carries_example :
    Carries waiting (build_batch {H = ℕ} waiting "agent-1" "magic" "batch" 7 none 10)
build_batch-Carries_example = build_batch-Carries waiting "agent-1" "magic" "batch" 7 none 10

publish_once-Retained_example :
    let q = due config (answers none 10) publisher in
    Retained
      (taken_of q)
      (rest_of q)
      (answers none 10).arrivals
      (dropped_items q)
      q.buffer.max_bytes
      (publish_once config (answers none 10) publisher).after
publish_once-Retained_example =
    publish_once-Retained config (answers none 10) publisher backoff publisher-IsValid
      unreachable_action refl

publish_once-intact_example :
    let q = due config (answers none 10) publisher in
    let p' = (publish_once config (answers none 10) publisher).after in
    (p'.buffer.items ≡ q.buffer.items ++ (answers none 10).arrivals)
    × (dropped_items p' ≡ dropped_items q)
unfolding expire_buffer expire expire_from
publish_once-intact_example =
    publish_once-intact config (answers none 10) publisher backoff publisher-IsValid
      unreachable_action refl (omega arith)

publish_once-GivenUp_example :
    let q = due config (answers (some 202) 10) publisher in
    let c = publish_once config (answers (some 202) 10) publisher in
    GivenUp
      (rest_of q)
      (answers (some 202) 10).arrivals
      (dropped_items q)
      q.buffer.max_bytes
      c.after
    × ((b : TelemetryBatch ℕ ℕ ℕ ℕ) × (c.sent ≡ some b) × Carries (taken_of q) b)
publish_once-GivenUp_example =
    publish_once-GivenUp config (answers (some 202) 10) publisher commit publisher-IsValid
      delivered_action refl

few_failures : HasFloatPower config.retry_policy (publisher.consecutive_failures + 1)
unfolding HasFloatPower
few_failures = omega arith

quiet_period_example :
    (publish_once config
      (answers (some 202) 15)
      (publish_once config (answers none 10) publisher).after).sent
    ≡ none
unfolding delay_for_attempt raw_delay
quiet_period_example =
    quiet_period config (answers none 10) (answers (some 202) 15) publisher backoff
      unreachable_action few_failures (omega arith) (omega arith)

abbrev history : List (Surroundings ℕ ℕ ℕ ℕ)
history = answers (some 413) 10 ∷ answers none 11 ∷ answers (some 202) 40 ∷ []
