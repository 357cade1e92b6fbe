-- ===== src/Callbacks/Dispatcher/Defs.antt =====
-- The state and the methods of `CallbackDispatcher`.
use Prim.Native.String.{◌++◌ as ◌<>◌}
use avengers_fyp_is.Common.{
  ℕ, zero, suc, ◌+◌, Bool, String, List, [], ◌∷◌, ◌++◌, Option, none, some, ltb, leb, string_eq,
  ◌==◌, if◌then◌else◌,
}
use avengers_fyp_is.Runtime.Counters.{CounterRegistry, increment}
use avengers_fyp_is.Runtime.Backoff.{RetryPolicy, delay_for_attempt}
use avengers_fyp_is.Callbacks.Retry.{
  RetryDecision, success, retry, permanent_failure, classify_http_status, CallbackResult,
}
use avengers_fyp_is.Callbacks.Tracker.Defs.{
  DeliveryStatus, pending, sent, retrying, delivered, failed, DeliveryRecord, DeliveryTracker,
  record_status, status_of,
}
use avengers_fyp_is.Callbacks.Queue.{DropOldestQueue, put_dropping_oldest}

pub record AlertDelivery : Type 0 where
  pub status : String
  pub attempts : ℕ
  pub last_attempt : ℕ
  pub correlation_id : Option String

-- `AlertEvent`, with the fields that nothing here reads in `detail`.
pub record AlertEvent (D : Type 0) : Type 0 where
  pub alert_id : String
  pub status : String
  pub notification_count : ℕ
  pub detail : D
  pub callback_delivery : Option AlertDelivery

-- What the world gives to one attempt.
pub record Attempt : Type 0 where
  pub delivery_id : String
  pub sent_at : ℕ
  pub result : CallbackResult
  pub answered_at : ℕ
  pub drawn : ℕ

-- The arguments of the hook `on_failure`.
pub record Failure (D : Type 0) : Type 0 where
  pub alert : AlertEvent D
  pub reason : String
  pub attempts : ℕ
  pub status : Option ℕ

-- `failure_hook` says whether the hook raises; `settled_hook`, whether there is one.
pub record Config (D : Type 0) : Type 0 where
  pub max_attempts : ℕ
  pub max_bytes : ℕ
  pub retry_policy : RetryPolicy
  pub settled_hook : Bool
  pub failure_hook : Option (Failure D → Bool)

-- `settled`, `failures`, `requests` and `sleeps` record the calls of the hooks, the sink and
-- `asyncio.sleep`, the last at the end.
pub record Dispatcher (D : Type 0) : Type 0 where
  pub queue : DropOldestQueue (AlertEvent D)
  pub tracker : DeliveryTracker
  pub counters : CounterRegistry
  pub settled : List (AlertEvent D)
  pub failures : List (Failure D)
  pub requests : List String
  pub sleeps : List ℕ

abbrev pub api_status : DeliveryStatus → String
api_status pending = "pending"
api_status sent = "retrying"
api_status retrying = "retrying"
api_status delivered = "delivered"
api_status failed = "failed"

abbrev pub alert_delivery_from_record : DeliveryRecord → AlertDelivery
alert_delivery_from_record r = record {
  status = api_status r.status;
  attempts = r.attempt_count;
  last_attempt = r.updated_at;
  correlation_id = r.correlation_id;
}

-- `str_of` is Python's `str` on an integer.
module _ {D : Type 0} (str_of : ℕ → String) where
  unfoldable pub notification_key : AlertEvent D → String
  notification_key alert =
      alert.alert_id <> ":" <> alert.status <> ":" <> str_of alert.notification_count

  -- `tracker.status_of(alert.alert_id, notification=notification_key(alert))`
  abbrev pub tracked : AlertEvent D → DeliveryTracker → Option DeliveryRecord
  tracked alert t = status_of alert.alert_id (some (notification_key alert)) t

  unfoldable pub enrich_alert_delivery : AlertEvent D → DeliveryTracker → AlertEvent D
  enrich_alert_delivery alert t = elim (tracked alert t) [
    | none ↦ alert
    | some r ↦ record alert { callback_delivery = some (alert_delivery_from_record r) }
  ]

  -- `_record`
  unfoldable pub record_alert :
      AlertEvent D
      → DeliveryStatus
      → ℕ
      → Option String
      → Option String
      → Dispatcher D
      → Dispatcher D
  record_alert alert status now error delivery_id d = record d {
    tracker =
        record_status alert.alert_id status now error (notification_key alert) delivery_id
          d.tracker;
  }

  abbrev pub count : String → Dispatcher D → Dispatcher D
  count name d = record d { counters = increment name 1 d.counters }

  unfoldable pub enqueue : AlertEvent D → ℕ → Dispatcher D → Dispatcher D
  enqueue alert now d =
      let d' = record_alert alert pending now none none d in
      let (queue, dropped) = put_dropping_oldest alert d'.queue in
      let d'' = record d' { queue = queue } in
      if dropped then count "callback_queue_dropped" d'' else d''

  module _ (config : Config D) where
    unfoldable pub emit_failure : Failure D → Dispatcher D → Dispatcher D
    emit_failure f d = elim config.failure_hook [
      | none ↦ d
      | some raises ↦
          let d' = record d { failures = d.failures ++ (f ∷ []) } in
          if raises f then count "callback_event_errors" d' else d'
    ]

    unfoldable pub notify_delivery_settled : AlertEvent D → Dispatcher D → Dispatcher D
    notify_delivery_settled alert d =
        if config.settled_hook
        then record d { settled = d.settled ++ (enrich_alert_delivery alert d.tracker ∷ []) }
        else d

    -- The four calls that end a delivery without success.
    unfoldable pub give_up :
        AlertEvent D → ℕ → String → String → ℕ → Option ℕ → Dispatcher D → Dispatcher D
    give_up alert now error reason attempts status d =
        let d1 = record_alert alert failed now (some error) none (count "callback_failures" d) in
        let f : Failure D = record {
          alert = alert;
          reason = reason;
          attempts = attempts;
          status = status;
        } in
        notify_delivery_settled alert (emit_failure f d1)

    abbrev pub decide : CallbackResult → RetryDecision
    decide r = elim r.status_code [ none ↦ retry | some status ↦ classify_http_status status ]

    abbrev or_transport_error : Option String → String
    or_transport_error none = "transport_error"
    or_transport_error (some e) = if e == "" then "transport_error" else e

    abbrev pub failure_reason : CallbackResult → String
    failure_reason r = elim r.status_code [
      | none ↦ or_transport_error r.error_class
      | some status ↦ "http_" <> str_of status
    ]

    -- One attempt up to the answer.
    unfoldable pub send : AlertEvent D → Attempt → Dispatcher D → Dispatcher D
    send alert w d =
        let d' = record_alert alert sent w.sent_at none (some w.delivery_id) d in
        record d' { requests = d'.requests ++ (w.delivery_id ∷ []) }

    unfoldable pub succeed : AlertEvent D → Attempt → Dispatcher D → Dispatcher D
    succeed alert w d =
        notify_delivery_settled alert
          (record_alert alert delivered w.answered_at none none (count "callback_delivered" d))

    unfoldable pub wait_to_retry : AlertEvent D → ℕ → Attempt → Dispatcher D → Dispatcher D
    wait_to_retry alert attempt w d =
        let delay =
          delay_for_attempt config.retry_policy attempt w.result.retry_after_seconds w.drawn in
        let d' =
          record_alert alert retrying w.answered_at (some (failure_reason w.result)) none d in
        record d' { sleeps = d'.sleeps ++ (delay ∷ []) }

    -- `for attempt in range(attempt, attempt + remaining)`
    unfoldable pub attempt_from : (ℕ → Attempt) → AlertEvent D → ℕ → ℕ → Dispatcher D → Dispatcher D
    attempt_from world alert zero attempt d = d
    attempt_from world alert (suc remaining) attempt d =
        let w = world attempt in
        let d' = send alert w d in
        elim (decide w.result) [
          | success ↦ succeed alert w d'
          | permanent_failure ↦
              give_up alert w.answered_at (failure_reason w.result) "permanent_http_failure" attempt
                w.result.status_code d'
          | retry ↦
              let again =
                attempt_from world alert remaining (attempt + 1)
                  (wait_to_retry alert attempt w d') in
              if leb config.max_attempts attempt
              then give_up alert w.answered_at (failure_reason w.result) "retries_exhausted" attempt
                  w.result.status_code d'
              else again
        ]

    -- `_deliver`; `body_size` is the length of the payload's JSON text.
    unfoldable pub deliver_alert :
        (AlertEvent D → ℕ) → (ℕ → Attempt) → ℕ → AlertEvent D → Dispatcher D → Dispatcher D
    deliver_alert body_size world now alert d =
        if ltb config.max_bytes (body_size alert)
        then give_up alert now "payload_too_large" "payload_too_large" 0 none d
        else attempt_from world alert config.max_attempts 1 d

    abbrev pub final_status : Option DeliveryRecord → DeliveryStatus
    final_status none = failed
    final_status (some r) = r.status

    unfoldable pub deliver :
        (AlertEvent D → ℕ)
        → (ℕ → Attempt)
        → ℕ
        → AlertEvent D
        → Dispatcher D
        → DeliveryStatus × Dispatcher D
    deliver body_size world now alert d =
        let d' =
          deliver_alert body_size world now alert (record_alert alert pending now none none d) in
        (final_status (tracked alert d'.tracker), d')
