-- ===== src/Callbacks/Dispatcher/Attempts.antt =====
-- The loop over the attempts.
use mathlib.Core.List.{append_assoc}
use avengers_fyp_is.Common.{
  ℕ, zero, suc, ◌+◌, ◌≤◌, ◌<◌, ◌≡◌, ◌⊎◌, inl, inr, refl, sym, ap, ◌∙◌, true, false, String, List,
  [], ◌∷◌, ◌++◌, none, some, arith, leb,
}
use avengers_fyp_is.Callbacks.Retry.{RetryDecision, success, retry, permanent_failure}
use avengers_fyp_is.Callbacks.Tracker.Defs.{
  DeliveryStatus, sent, retrying, delivered, failed, attempts_of, next_record,
}
use avengers_fyp_is.Callbacks.Dispatcher.Defs.{
  AlertEvent, Attempt, Config, Dispatcher, tracked, record_alert, decide, failure_reason, send,
  wait_to_retry, attempt_from,
}
use avengers_fyp_is.Callbacks.Dispatcher.Ending.{
  Ended, record_alert-tracked, give_up-Ended, succeed-Ended,
}

RetryDecision-cases : (r : RetryDecision) → (r ≡ success) ⊎ ((r ≡ permanent_failure) ⊎ (r ≡ retry))
RetryDecision-cases success = inl refl
RetryDecision-cases permanent_failure = inr (inl refl)
RetryDecision-cases retry = inr (inr refl)

is_last : (most n : ℕ) → n ≡ most → leb most n ≡ true
is_last most n h = ground arith

is_not_last : (most n : ℕ) → n < most → leb most n ≡ false
is_not_last most n h = ground arith

-- DELIVERED after a success, FAILED otherwise.
abbrev pub status_after : RetryDecision → DeliveryStatus
status_after success = delivered
status_after _ = failed

module _ {D : Type 0} (str_of : ℕ → String) (config : Config D) where
  abbrev pub decision : Attempt → RetryDecision
  decision w = decide str_of config w.result

  -- The `n` attempts from `attempt` on were all answered with RETRY.
  abbrev pub AllRetried : (ℕ → Attempt) → ℕ → ℕ → Type 0
  AllRetried world attempt zero = Unit
  AllRetried world attempt (suc n) =
      (decision (world attempt) ≡ retry) × AllRetried world (attempt + 1) n

  abbrev pub delivery_ids : (ℕ → Attempt) → ℕ → ℕ → List String
  delivery_ids world attempt zero = []
  delivery_ids world attempt (suc n) =
      (world attempt).delivery_id ∷ delivery_ids world (attempt + 1) n

  -- Attempts from `attempt` to `last` were made, of which all but the last ended in RETRY.
  pub record Finished (world : ℕ → Attempt) (alert : AlertEvent D) (attempt : ℕ)
      (d d' : Dispatcher D) : Type 0 where
    pub retried : ℕ
    pub last : ℕ
    pub last_is : last ≡ attempt + retried
    pub before : AllRetried world attempt retried
    pub limit : last ≤ config.max_attempts
    pub exhausted : decision (world last) ≡ retry → last ≡ config.max_attempts
    pub ended :
        Ended str_of config alert
          (status_after (decision (world last)))
          last
          d.settled
          (d.requests ++ delivery_ids world attempt (suc retried))
          d'

  attempts_sent :
      (alert : AlertEvent D) (w : Attempt) (d : Dispatcher D)
      → attempts_of (tracked str_of alert (send str_of config alert w d).tracker)
        ≡ attempts_of (tracked str_of alert d.tracker) + 1
  unfolding send next_record record_alert
  attempts_sent alert w d =
      ap attempts_of
        (record_alert-tracked str_of config alert sent w.sent_at none (some w.delivery_id) d)

  attempts_waiting :
      (alert : AlertEvent D) (attempt : ℕ) (w : Attempt) (d : Dispatcher D)
      → attempts_of (tracked str_of alert (wait_to_retry str_of config alert attempt w d).tracker)
        ≡ attempts_of (tracked str_of alert d.tracker)
  unfolding wait_to_retry next_record record_alert
  attempts_waiting alert attempt w d = ap attempts_of (
      record_alert-tracked str_of config alert retrying w.answered_at
        (some (failure_reason str_of config w.result)) none d)

  -- The attempt that ends the delivery.
  last_attempt :
      (world : ℕ → Attempt) (alert : AlertEvent D) (attempt : ℕ) (d d' : Dispatcher D)
      (status : DeliveryStatus) (r : RetryDecision)
      → attempts_of (tracked str_of alert d.tracker) + 1 ≡ attempt
      → attempt ≤ config.max_attempts
      → decision (world attempt) ≡ r
      → status_after r ≡ status
      → (r ≡ retry → attempt ≡ config.max_attempts)
      → let m = send str_of config alert (world attempt) d in
        Ended str_of config alert status
          (attempts_of (tracked str_of alert m.tracker))
          m.settled
          m.requests
          d'
        → Finished world alert attempt d d'
  unfolding send record_alert
  last_attempt world alert attempt d d' status r n limit answered st ex e = record {
    retried = 0;
    last = attempt;
    last_is = omega arith;
    before = tt;
    limit = limit;
    exhausted = λ h. ex (sym answered ∙ h);
    ended = record {
      final = e.final;
      recorded = e.recorded;
      status_is = e.status_is ∙ sym st ∙ ap status_after (sym answered);
      attempts_are = e.attempts_are ∙ attempts_sent alert (world attempt) d ∙ n;
      reported = e.reported;
      requests_are = e.requests_are;
    };
  }

  one_more :
      (world : ℕ → Attempt) (alert : AlertEvent D) (attempt : ℕ) (d d' : Dispatcher D)
      → decision (world attempt) ≡ retry
      → let w = world attempt in
        Finished world alert
          (attempt + 1)
          (wait_to_retry str_of config alert attempt w (send str_of config alert w d))
          d'
        → Finished world alert attempt d d'
  unfolding send wait_to_retry record_alert
  one_more world alert attempt d d' again f = record {
    retried = suc f.retried;
    last = f.last;
    last_is = omega (arith, f.last_is);
    before = (again, f.before);
    limit = f.limit;
    exhausted = f.exhausted;
    ended = record {
      final = f.ended.final;
      recorded = f.ended.recorded;
      status_is = f.ended.status_is;
      attempts_are = f.ended.attempts_are;
      reported = f.ended.reported;
      requests_are =
          f.ended.requests_are
          ∙ append_assoc d.requests ((world attempt).delivery_id ∷ [])
              (delivery_ids world (attempt + 1) (suc f.retried));
    };
  }

  -- Unless it is to be retried, an attempt ends the delivery.
  answered :
      (world : ℕ → Attempt) (alert : AlertEvent D) (remaining attempt : ℕ) (d : Dispatcher D)
      → attempts_of (tracked str_of alert d.tracker) + 1 ≡ attempt
      → attempt + remaining ≡ config.max_attempts
      → let d' = attempt_from str_of config world alert (suc remaining) attempt d in
        (decision (world attempt) ≡ retry → Finished world alert attempt d d')
        → Finished world alert attempt d d'
  unfolding attempt_from
  answered world alert remaining attempt d n room on_retry =
      let w = world attempt in
      let m = send str_of config alert w d in
      elim (RetryDecision-cases (decision w)) [
        | inl ok ↦
            rw (attempt_from, ok)
              (last_attempt world alert attempt d _ delivered success n (omega arith) ok refl
                (λ h. cc h) (succeed-Ended str_of config alert w m))
        | inr (inl bad) ↦
            rw (attempt_from, bad)
              (last_attempt world alert attempt d _ failed permanent_failure n (omega arith) bad
                refl (λ h. cc h) (give_up-Ended str_of config alert w.answered_at _ _ _ _ m))
        | inr (inr again) ↦ on_retry again
      ]

  pub attempt_from-Finished :
      (world : ℕ → Attempt) (alert : AlertEvent D) (remaining attempt : ℕ) (d : Dispatcher D)
      → attempts_of (tracked str_of alert d.tracker) + 1 ≡ attempt
      → attempt + remaining ≡ config.max_attempts
      → Finished world alert attempt d
          (attempt_from str_of config world alert (suc remaining) attempt d)
  unfolding attempt_from
  attempt_from-Finished world alert zero attempt d n room =
      let w = world attempt in
      let m = send str_of config alert w d in
      answered world alert zero attempt d n room (λ again.
        rw (attempt_from, again, is_last config.max_attempts attempt (omega arith))
          (last_attempt world alert attempt d _ failed retry n (omega arith) again refl
            (λ h. omega arith) (give_up-Ended str_of config alert w.answered_at _ _ _ _ m)))
  attempt_from-Finished world alert (suc fewer) attempt d n room =
      let w = world attempt in
      let m = send str_of config alert w d in
      answered world alert (suc fewer) attempt d n room (λ again.
        rw (attempt_from, again, is_not_last config.max_attempts attempt (omega arith))
          (one_more world alert attempt d _ again (
            attempt_from-Finished world alert fewer (attempt + 1)
              (wait_to_retry str_of config alert attempt w m)
              (omega (arith, attempts_waiting alert attempt w m, attempts_sent alert w d))
              (omega arith))))
