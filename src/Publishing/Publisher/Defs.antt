-- ===== src/Publishing/Publisher/Defs.antt =====
-- The state and the methods of `BackendPublisher`.
use avengers_fyp_is.Common.{
  ℕ, ◌+◌, ◌*◌, ◌/◌, Bool, true, false, not, ◌&&◌, ◌||◌, String, List, [], ◌∷◌, Option, none, some,
  ltb, leb, min, max, if◌then◌else◌,
}
use avengers_fyp_is.Runtime.Counters.{CounterRegistry, increment, increment_times}
use avengers_fyp_is.Runtime.Backoff.{RetryPolicy, delay_for_attempt}
use avengers_fyp_is.Publishing.Outcome.{
  PublishResult, PublishAction, commit, drop_rejected, halt, split, retry_after, backoff,
  classify_publish_response,
}
use avengers_fyp_is.Publishing.Buffer.Defs.{
  PendingItem, PublishBuffer, append, expire, take_items, requeue_front,
}
use avengers_fyp_is.Publishing.Batch.{Payload, TelemetryBatch, build_batch}

pub record PublishConfig : Type 0 where
  pub max_batch_items : ℕ
  pub halt_probe_interval : ℕ
  pub retry_policy : RetryPolicy
  pub agent_id : String
  pub application : String

-- `unreachable_calls` counts the calls of the hook `on_backend_unreachable`.
pub record Publisher (P : Type 0) : Type 0 where
  pub buffer : PublishBuffer P
  pub next_seq : ℕ
  pub max_batch_items : ℕ
  pub halted : Bool
  pub halted_at : Option ℕ
  pub retry_after_until : Option ℕ
  pub backoff_until : Option ℕ
  pub consecutive_failures : ℕ
  pub logged_schema_error : Bool
  pub counters : CounterRegistry
  pub unreachable_calls : ℕ

-- `until is not None and now < until`
abbrev pub is_waiting : Option ℕ → ℕ → Bool
is_waiting none now = false
is_waiting (some until) now = ltb now until

abbrev pub probe_due : PublishConfig → Option ℕ → ℕ → Bool
probe_due config none now = false
probe_due config (some at) now = leb (at + config.halt_probe_interval) now

abbrev pub wait_until : ℕ → Option ℕ → Option ℕ → Option ℕ
wait_until now none old = old
wait_until now (some wait) old = some (now + wait)

module _ {P : Type 0} where
  -- The buffer's hook: one `publish_dropped_items` for each dropped item.
  abbrev pub with_drops : PublishBuffer P × ℕ → Publisher P → Publisher P
  with_drops (buffer, dropped) p = record p {
    buffer = buffer;
    counters = increment_times dropped "publish_dropped_items" p.counters;
  }

  -- `enqueue_snapshot`, `enqueue_event`, `enqueue_alert`
  unfoldable pub enqueue : PendingItem P → Publisher P → Publisher P
  enqueue item p = with_drops (append item p.buffer) p

  unfoldable pub enqueue_all : List (PendingItem P) → Publisher P → Publisher P
  enqueue_all [] p = p
  enqueue_all (item ∷ items) p = enqueue_all items (enqueue item p)

  unfoldable pub expire_buffer : ℕ → Publisher P → Publisher P
  expire_buffer now p = with_drops (expire now p.buffer) p

  -- The early returns of `publish_once` before anything is taken.
  abbrev pub is_held : PublishConfig → ℕ → Publisher P → Bool
  is_held config now p =
      is_waiting p.backoff_until now
      || (is_waiting p.retry_after_until now
          || (p.halted && not (probe_due config p.halted_at now)))

  unfoldable pub on_commit : PublishConfig → Publisher P → Publisher P
  on_commit config p = record p {
    halted = false;
    halted_at = none;
    retry_after_until = none;
    backoff_until = none;
    consecutive_failures = 0;
    logged_schema_error = false;
    max_batch_items =
        if ltb p.max_batch_items config.max_batch_items
        then min config.max_batch_items (p.max_batch_items * 2)
        else p.max_batch_items;
  }

  -- `_halt`: the counter and the hook only where it was not halted before.
  unfoldable pub halt_at : ℕ → Publisher P → Publisher P
  halt_at now p =
      let p' = if p.halted then p else record p {
        counters = increment "publish_halted" 1 p.counters;
        unreachable_calls = p.unreachable_calls + 1;
      } in
      record p' { halted = true; halted_at = some now }

  -- The part of `publish_once` behind the response.
  unfoldable pub act :
      PublishConfig
      → ℕ
      → ℕ
      → PublishAction
      → Option ℕ
      → List (PendingItem P)
      → Publisher P
      → Publisher P
  act config now drawn commit wait items p =
      let p' = on_commit config p in
      record p' { counters = increment "publish_delivered" 1 p'.counters }
  act config now drawn drop_rejected wait items p = record p {
    counters = increment "publish_rejected" 1 p.counters;
    logged_schema_error = true;
  }
  act config now drawn halt wait items p = halt_at now (with_drops (requeue_front items p.buffer) p)
  act config now drawn split wait items p =
      let p' = with_drops (requeue_front items p.buffer) p in
      record p' {
        max_batch_items = max 1 (p'.max_batch_items / 2);
        counters = increment "publish_split" 1 p'.counters;
      }
  act config now drawn retry_after wait items p =
      let p' = with_drops (requeue_front items p.buffer) p in
      record p' {
        counters = increment "publish_rate_limited" 1 p'.counters;
        retry_after_until = wait_until now wait p'.retry_after_until;
      }
  act config now drawn backoff wait items p =
      let p' = with_drops (requeue_front items p.buffer) p in
      let failures = p'.consecutive_failures + 1 in
      record p' {
        consecutive_failures = failures;
        backoff_until = some (now + delay_for_attempt config.retry_policy failures none drawn);
        counters = increment "publish_failures" 1 p'.counters;
      }

  -- Up to the request: the items taken and the state in which the response is awaited.
  unfoldable pub begin : ℕ → Publisher P → List (PendingItem P) × Publisher P
  begin now p =
      let (items, buffer) = take_items p.max_batch_items p.buffer in
      (items, record p { buffer = buffer; next_seq = p.next_seq + 1 })

  abbrev pub nothing_to_send : {H : Type 0} → List (PendingItem P) → Option H → Bool
  nothing_to_send [] none = true
  nothing_to_send _ _ = false

-- What one cycle leaves: `sent` is the batch of the request, if there was one.
pub record Cycle (S E A H : Type 0) : Type 0 where
  pub action : Option PublishAction
  pub sent : Option (TelemetryBatch S E A H)
  pub after : Publisher (Payload S E A)

-- What the rest of the world contributes to one cycle.
pub record Surroundings (S E A H : Type 0) : Type 0 where
  pub now : ℕ
  pub heartbeat : Option H
  pub batch_id : String
  pub arrivals : List (PendingItem (Payload S E A))
  pub response : PublishResult
  pub drawn : ℕ

module _ {S E A H : Type 0} (config : PublishConfig) where
  unfoldable pub send_cycle : Surroundings S E A H → Publisher (Payload S E A) → Cycle S E A H
  send_cycle w p =
      let (items, p') = begin w.now p in
      let r = classify_publish_response w.response in
      record {
        action = some r.action;
        sent = some (
            build_batch items config.agent_id config.application w.batch_id p.next_seq w.heartbeat
              w.now);
        after =
            act config w.now w.drawn r.action r.retry_after_seconds items
              (enqueue_all w.arrivals p');
      }

  unfoldable pub publish_once : Surroundings S E A H → Publisher (Payload S E A) → Cycle S E A H
  publish_once w p =
      let q = expire_buffer w.now p in
      if is_held config w.now q
      then record { action = none; sent = none; after = q }
      else if nothing_to_send (take_items q.max_batch_items q.buffer).0 w.heartbeat
      then record { action = none; sent = none; after = q }
      else send_cycle w q
