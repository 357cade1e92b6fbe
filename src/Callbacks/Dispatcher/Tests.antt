-- ===== src/Callbacks/Dispatcher/Tests.antt =====
-- The theorems on the delivery at a concrete alert.
use avengers_fyp_is.Common.{
  ℕ, ◌≡◌, refl, true, String, [], ◌∷◌, none, some, arith, trim, nat_beq, if◌then◌else◌,
}
use avengers_fyp_is.Callbacks.Tracker.Defs.{delivered, next_record, record_status, status_of}
use avengers_fyp_is.Callbacks.Retry.{classify_http_status}
use avengers_fyp_is.Callbacks.Dispatcher.Defs.{
  AlertEvent, Attempt, Config, Dispatcher, notification_key, enrich_alert_delivery, record_alert,
  notify_delivery_settled, send, succeed, wait_to_retry, attempt_from, deliver_alert, deliver,
}
use avengers_fyp_is.Callbacks.Dispatcher.Attempts.{status_after, decision, Finished}
use avengers_fyp_is.Callbacks.Dispatcher.Delivery.{deliver-Finished}

abbrev digits : ℕ → String
digits n = if nat_beq n 503 then "503" else "1"

abbrev config : ℕ → Config ℕ
config max_bytes = record {
  max_attempts = 3;
  max_bytes = max_bytes;
  retry_policy = record { base = 10; factor = 2000; cap = 100; jitter = 200; max_attempts = 3 };
  settled_hook = true;
  failure_hook = none;
}

abbrev alert : AlertEvent ℕ
alert = record {
  alert_id = "a-1";
  status = "firing";
  notification_count = 1;
  detail = 40;
  callback_delivery = none;
}

abbrev body_size : AlertEvent ℕ → ℕ
body_size a = a.detail

abbrev attempt_answered : ℕ → String → Attempt
attempt_answered status id = record {
  delivery_id = id;
  sent_at = 10;
  result = record { status_code = some status; error_class = none; retry_after_seconds = none };
  answered_at = 11;
  drawn = 1000;
}

-- Two answers 503, then 200.
abbrev world : ℕ → Attempt
world n =
    if nat_beq n 1
    then attempt_answered 503 "d-1"
    else if nat_beq n 2
    then attempt_answered 503 "d-2"
    else attempt_answered 200 "d-3"

abbrev dispatcher : Dispatcher ℕ
dispatcher = record {
  queue = record { maxsize = 4; items = [] };
  tracker = [];
  counters = [];
  settled = [];
  failures = [];
  requests = [];
  sleeps = [];
}

third_time :
    let (status, d') = deliver digits (config 100) body_size world 9 alert dispatcher in
    (status ≡ delivered) × (d'.requests ≡ "d-1" ∷ "d-2" ∷ "d-3" ∷ [])
unfolding deliver deliver_alert attempt_from record_alert record_status notification_key trim
    next_record send wait_to_retry succeed notify_delivery_settled enrich_alert_delivery status_of
    classify_http_status
third_time = (refl, refl)

deliver-Finished_example :
    let (status, d') = deliver digits (config 100) body_size world 9 alert dispatcher in
    (f : Finished digits (config 100) world alert 1 dispatcher d') × (status
      ≡ status_after (decision digits (config 100) (world f.last)))
deliver-Finished_example =
    deliver-Finished digits (config 100) body_size world 9 alert dispatcher (omega arith)
      (omega arith)
