-- ===== src/Callbacks/Dispatcher/Ending.antt =====
-- What the calls that end a delivery leave in the tracker and with the hooks.
use mathlib.Core.List.{append-nil}
use avengers_fyp_is.Common.{
  ℕ, ◌≡◌, inl, inr, refl, sym, ap, ◌∙◌, String, List, [], ◌∷◌, ◌++◌, Option, none, some, Bool-cases,
  Option-cases, if◌then◌else◌,
}
use avengers_fyp_is.Callbacks.Tracker.Defs.{
  DeliveryStatus, delivered, failed, DeliveryRecord, DeliveryTracker, attempts_of, next_record,
}
use avengers_fyp_is.Callbacks.Tracker.Latest.{status_of-record_status}
use avengers_fyp_is.Callbacks.Dispatcher.Defs.{
  AlertEvent, Attempt, Failure, Config, Dispatcher, notification_key, tracked,
  enrich_alert_delivery, record_alert, count, emit_failure, notify_delivery_settled, give_up,
  succeed,
}

module _ {D : Type 0} (str_of : ℕ → String) (config : Config D) where
  abbrev pub settled_with : AlertEvent D → DeliveryTracker → List (AlertEvent D)
  settled_with alert t =
      if config.settled_hook then enrich_alert_delivery str_of alert t ∷ [] else []

  -- The alert's record says `status` after `n` attempts, the requests are `requests`, and the delivery
  -- has been reported behind the reports `settled`.
  pub record Ended (alert : AlertEvent D) (status : DeliveryStatus) (n : ℕ)
      (settled : List (AlertEvent D)) (requests : List String) (d' : Dispatcher D) : Type 0 where
    pub final : DeliveryRecord
    pub recorded : tracked str_of alert d'.tracker ≡ some final
    pub status_is : final.status ≡ status
    pub attempts_are : final.attempt_count ≡ n
    pub reported : d'.settled ≡ settled ++ settled_with alert d'.tracker
    pub requests_are : d'.requests ≡ requests

  pub record_alert-tracked :
      (alert : AlertEvent D) (status : DeliveryStatus) (now : ℕ) (error did : Option String)
      (d : Dispatcher D)
      → tracked str_of alert (record_alert str_of alert status now error did d).tracker
        ≡ some (next_record status now error did (tracked str_of alert d.tracker))
  unfolding record_alert
  record_alert-tracked alert status now error did d =
      (status_of-record_status alert.alert_id status now error (notification_key str_of alert) did
        d.tracker).0

  notify-settled :
      (alert : AlertEvent D) (d : Dispatcher D)
      → let d' = notify_delivery_settled str_of config alert d in
        (d'.settled ≡ d.settled ++ settled_with alert d.tracker)
        × (d'.tracker ≡ d.tracker)
        × (d'.requests ≡ d.requests)
  unfolding notify_delivery_settled
  notify-settled alert d = elim (Bool-cases config.settled_hook) [
    | inl hook ↦ rw (hook, notify_delivery_settled) (refl, refl, refl)
    | inr no_hook ↦ rw (no_hook, notify_delivery_settled) (sym (append-nil d.settled), refl, refl)
  ]

  emit_failure-keeps :
      (f : Failure D) (d : Dispatcher D)
      → let d' = emit_failure str_of config f d in
        (d'.settled ≡ d.settled) × (d'.tracker ≡ d.tracker) × (d'.requests ≡ d.requests)
  unfolding emit_failure
  emit_failure-keeps f d = elim (Option-cases config.failure_hook) [
    | inl no_hook ↦ rw (no_hook, emit_failure) (refl, refl, refl)
    | inr (raises, hook) ↦ elim (Bool-cases (raises f)) [
      | inl bad ↦ rw (hook, emit_failure, bad) (refl, refl, refl)
      | inr good ↦ rw (hook, emit_failure, good) (refl, refl, refl)
    ]
  ]

  pub give_up-Ended :
      (alert : AlertEvent D) (now : ℕ) (error reason : String) (attempts : ℕ) (status : Option ℕ)
      (d : Dispatcher D)
      → Ended alert failed
          (attempts_of (tracked str_of alert d.tracker))
          d.settled
          d.requests
          (give_up str_of config alert now error reason attempts status d)
  unfolding give_up next_record record_alert
  give_up-Ended alert now error reason attempts status d =
      let d0 = count str_of "callback_failures" d in
      let d1 = record_alert str_of alert failed now (some error) none d0 in
      let f : Failure D = record {
        alert = alert;
        reason = reason;
        attempts = attempts;
        status = status;
      } in
      let d2 = emit_failure str_of config f d1 in
      let e = emit_failure-keeps f d1 in
      let n = notify-settled alert d2 in
      record {
        final = next_record failed now (some error) none (tracked str_of alert d.tracker);
        recorded =
            ap (tracked str_of alert) (n.1 ∙ e.1)
            ∙ record_alert-tracked alert failed now (some error) none d0;
        status_is = refl;
        attempts_are = refl;
        reported =
            n.0
            ∙ ap (λ l. l ++ settled_with alert d2.tracker) e.0
            ∙ ap (λ t. d.settled ++ settled_with alert t) (sym n.1);
        requests_are = n.2 ∙ e.2;
      }

  pub succeed-Ended :
      (alert : AlertEvent D) (w : Attempt) (d : Dispatcher D)
      → Ended alert delivered
          (attempts_of (tracked str_of alert d.tracker))
          d.settled
          d.requests
          (succeed str_of config alert w d)
  unfolding succeed next_record record_alert
  succeed-Ended alert w d =
      let d0 = count str_of "callback_delivered" d in
      let d1 = record_alert str_of alert delivered w.answered_at none none d0 in
      let n = notify-settled alert d1 in
      record {
        final = next_record delivered w.answered_at none none (tracked str_of alert d.tracker);
        recorded =
            ap (tracked str_of alert) n.1
            ∙ record_alert-tracked alert delivered w.answered_at none none d0;
        status_is = refl;
        attempts_are = refl;
        reported = n.0 ∙ ap (λ t. d.settled ++ settled_with alert t) (sym n.1);
        requests_are = n.2;
      }
