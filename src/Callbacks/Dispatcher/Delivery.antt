-- ===== src/Callbacks/Dispatcher/Delivery.antt =====
-- How the delivery of one alert ends.
use mathlib.Core.Path.{subst}
use avengers_fyp_is.Common.{
  ℕ, suc, ◌-◌, ◌≤◌, ◌<◌, ◌≡◌, ap, ◌∙◌, true, false, String, none, arith, ltb,
}
use avengers_fyp_is.Callbacks.Tracker.Defs.{pending, failed, attempts_of, next_record}
use avengers_fyp_is.Callbacks.Dispatcher.Defs.{
  AlertEvent, Attempt, Config, Dispatcher, tracked, record_alert, give_up, attempt_from,
  deliver_alert, final_status, deliver,
}
use avengers_fyp_is.Callbacks.Dispatcher.Ending.{Ended, record_alert-tracked, give_up-Ended}
use avengers_fyp_is.Callbacks.Dispatcher.Attempts.{
  status_after, decision, Finished, attempt_from-Finished,
}

is_small : (n most : ℕ) → n ≤ most → ltb most n ≡ false
is_small n most h = ground arith

is_large : (n most : ℕ) → most < n → ltb most n ≡ true
is_large n most h = ground arith

predecessor : (n : ℕ) → 1 ≤ n → suc (n - 1) ≡ n
predecessor n h = omega arith

module _ {D : Type 0} (str_of : ℕ → String) (config : Config D) where
  deliver_alert-Finished :
      (body_size : AlertEvent D → ℕ) (world : ℕ → Attempt) (now : ℕ) (alert : AlertEvent D)
      (d : Dispatcher D)
      → 1 ≤ config.max_attempts
      → body_size alert ≤ config.max_bytes
      → attempts_of (tracked str_of alert d.tracker) ≡ 0
      → Finished str_of config world alert 1 d
          (deliver_alert str_of config body_size world now alert d)
  unfolding deliver_alert
  deliver_alert-Finished body_size world now alert d some_attempt small fresh =
      rw (deliver_alert, is_small (body_size alert) config.max_bytes small)
        (subst
          (λ n.
            Finished str_of config world alert 1 d (attempt_from str_of config world alert n 1 d))
          (predecessor config.max_attempts some_attempt)
          (attempt_from-Finished str_of config world alert (config.max_attempts - 1) 1 d
            (omega (arith, fresh)) (omega arith)))

  deliver_alert-too_large :
      (body_size : AlertEvent D → ℕ) (world : ℕ → Attempt) (now : ℕ) (alert : AlertEvent D)
      (d : Dispatcher D)
      → config.max_bytes < body_size alert
      → attempts_of (tracked str_of alert d.tracker) ≡ 0
      → Ended str_of config alert failed 0 d.settled d.requests
          (deliver_alert str_of config body_size world now alert d)
  unfolding deliver_alert
  deliver_alert-too_large body_size world now alert d large fresh =
      rw (deliver_alert, is_large (body_size alert) config.max_bytes large)
        (subst
          (λ n.
            Ended str_of config alert failed n d.settled d.requests
              (give_up str_of config alert now "payload_too_large" "payload_too_large" 0 none d))
          fresh
          (give_up-Ended str_of config alert now "payload_too_large" "payload_too_large" 0 none d))

  -- `deliver`, with at least one attempt allowed and a body within the limit, sends between one and
  -- `max_attempts` requests: each but the last was answered with a retryable result, and the last one
  -- with another, or it was the last one allowed. Then the alert's record counts exactly these
  -- attempts, says DELIVERED if the last was a success and FAILED otherwise, is the status returned,
  -- and was reported once.
  pub deliver-Finished :
      (body_size : AlertEvent D → ℕ) (world : ℕ → Attempt) (now : ℕ) (alert : AlertEvent D)
      (d : Dispatcher D)
      → 1 ≤ config.max_attempts
      → body_size alert ≤ config.max_bytes
      → let (status, d') = deliver str_of config body_size world now alert d in
        (f : Finished str_of config world alert 1 d d') × (status
          ≡ status_after (decision str_of config (world f.last)))
  unfolding deliver record_alert next_record
  deliver-Finished body_size world now alert d some_attempt small =
      let d0 = record_alert str_of alert pending now none none d in
      let f =
        deliver_alert-Finished body_size world now alert d0 some_attempt small
          (ap attempts_of (record_alert-tracked str_of config alert pending now none none d)) in
      let g : Finished str_of config world alert 1 d
          (deliver str_of config body_size world now alert d).1 =
        record {
          retried = f.retried;
          last = f.last;
          last_is = f.last_is;
          before = f.before;
          limit = f.limit;
          exhausted = f.exhausted;
          ended = f.ended;
        } in
      (g, ap (final_status str_of config) f.ended.recorded ∙ f.ended.status_is)

  -- A body over the limit is never sent: the alert's record says FAILED after no attempt, which is
  -- the status returned, and this was reported once.
  pub deliver-too_large :
      (body_size : AlertEvent D → ℕ) (world : ℕ → Attempt) (now : ℕ) (alert : AlertEvent D)
      (d : Dispatcher D)
      → config.max_bytes < body_size alert
      → let (status, d') = deliver str_of config body_size world now alert d in
        Ended str_of config alert failed 0 d.settled d.requests d' × (status ≡ failed)
  unfolding deliver record_alert next_record
  deliver-too_large body_size world now alert d large =
      let d0 = record_alert str_of alert pending now none none d in
      let e =
        deliver_alert-too_large body_size world now alert d0 large
          (ap attempts_of (record_alert-tracked str_of config alert pending now none none d)) in
      (e, ap (final_status str_of config) e.recorded ∙ e.status_is)
