-- ===== src/Publishing/Publisher/Control.antt =====
-- The publisher's control state: batch size, waiting times, the halt and the failure count.
use avengers_fyp_is.Common.{
  ℕ, ◌+◌, ◌*◌, ◌/◌, ◌≤◌, ◌<◌, ◌≡◌, ◌⊎◌, inl, inr, refl, ap, ◌∙◌, Bool, true, false, not, ◌&&◌, ◌||◌,
  List, [], ◌∷◌, Option, none, some, arith, ltb, min, max, Bool-cases, if◌then◌else◌,
}
use avengers_fyp_is.Runtime.Backoff.{HasFloatPower, delay_for_attempt, wait_of}
use avengers_fyp_is.Publishing.Outcome.{
  PublishAction, commit, drop_rejected, halt, split, retry_after, backoff,
  classify_publish_response,
}
use avengers_fyp_is.Publishing.Buffer.Defs.{PendingItem, take_items}
use avengers_fyp_is.Publishing.Batch.{Payload}
use avengers_fyp_is.Publishing.Publisher.Defs.{
  PublishConfig, Publisher, Cycle, Surroundings, enqueue, enqueue_all, expire_buffer, is_waiting,
  probe_due, is_held, nothing_to_send, on_commit, halt_at, wait_until, act, begin, send_cycle,
  publish_once,
}

-- All of the state but the buffer, the sequence number and the counters.
pub record Control : Type 0 where
  pub max_batch_items : ℕ
  pub halted : Bool
  pub halted_at : Option ℕ
  pub retry_after_until : Option ℕ
  pub backoff_until : Option ℕ
  pub consecutive_failures : ℕ
  pub unreachable_calls : ℕ

module _ {P : Type 0} where
  abbrev pub control : Publisher P → Control
  control p = record {
    max_batch_items = p.max_batch_items;
    halted = p.halted;
    halted_at = p.halted_at;
    retry_after_until = p.retry_after_until;
    backoff_until = p.backoff_until;
    consecutive_failures = p.consecutive_failures;
    unreachable_calls = p.unreachable_calls;
  }

  control-enqueue_all :
      (items : List (PendingItem P)) (p : Publisher P) → control (enqueue_all items p) ≡ control p
  unfolding enqueue_all enqueue
  control-enqueue_all [] p = refl
  control-enqueue_all (item ∷ items) p = control-enqueue_all items (enqueue item p)

-- What each outcome does to the control state.
abbrev pub control_after : PublishConfig → ℕ → ℕ → PublishAction → Option ℕ → Control → Control
control_after config now drawn commit wait c = record {
  max_batch_items =
      if ltb c.max_batch_items config.max_batch_items
      then min config.max_batch_items (c.max_batch_items * 2)
      else c.max_batch_items;
  halted = false;
  halted_at = none;
  retry_after_until = none;
  backoff_until = none;
  consecutive_failures = 0;
  unreachable_calls = c.unreachable_calls;
}
control_after config now drawn drop_rejected wait c = c
control_after config now drawn halt wait c = record c {
  halted = true;
  halted_at = some now;
  unreachable_calls = if c.halted then c.unreachable_calls else c.unreachable_calls + 1;
}
control_after config now drawn split wait c = record c {
  max_batch_items = max 1 (c.max_batch_items / 2);
}
control_after config now drawn retry_after wait c = record c {
  retry_after_until = wait_until now wait c.retry_after_until;
}
control_after config now drawn backoff wait c = record c {
  consecutive_failures = c.consecutive_failures + 1;
  backoff_until =
      some (now + delay_for_attempt config.retry_policy (c.consecutive_failures + 1) none drawn);
}

module _ {P : Type 0} where
  control-act :
      (config : PublishConfig) (now drawn : ℕ) (action : PublishAction) (wait : Option ℕ)
      (items : List (PendingItem P)) (p : Publisher P)
      → control (act config now drawn action wait items p)
        ≡ control_after config now drawn action wait (control p)
  unfolding act on_commit halt_at
  control-act config now drawn commit wait items p = refl
  control-act config now drawn drop_rejected wait items p = refl
  control-act config now drawn halt wait items p = ground arith
  control-act config now drawn split wait items p = refl
  control-act config now drawn retry_after wait items p = refl
  control-act config now drawn backoff wait items p = refl

-- `is_held` reads nothing but the control state.
abbrev held_by : PublishConfig → ℕ → Control → Bool
held_by config now c =
    is_waiting c.backoff_until now
    || (is_waiting c.retry_after_until now || (c.halted && not (probe_due config c.halted_at now)))

retry_is_waiting :
    (now now' : ℕ) (wait old : Option ℕ)
    → now ≤ now'
    → now' < now + wait_of wait
    → is_waiting (wait_until now wait old) now' ≡ true
retry_is_waiting now now' none old later early = absurd (omega arith)
retry_is_waiting now now' (some t) old later early = ground arith

-- A cycle that ends in BACKOFF computes a delay, for which the power must be a float.
abbrev pub ComputesDelay : PublishConfig → PublishAction → ℕ → Type 0
ComputesDelay config backoff failures = HasFloatPower config.retry_policy (failures + 1)
ComputesDelay config _ failures = Unit

module _ {S E A H : Type 0} (config : PublishConfig) where
  -- What a cycle with the given result does to the control state.
  abbrev pub cycle_control : Surroundings S E A H → Option PublishAction → Control → Control
  cycle_control w none c = c
  cycle_control w (some a) c =
      control_after config w.now w.drawn a
        (classify_publish_response w.response).retry_after_seconds c

  send_cycle-control :
      (w : Surroundings S E A H) (q : Publisher (Payload S E A))
      → control (send_cycle config w q).after
        ≡ cycle_control w (send_cycle config w q).action (control q)
  unfolding send_cycle begin
  send_cycle-control w q =
      let r = classify_publish_response w.response in
      control-act config w.now w.drawn r.action r.retry_after_seconds _ _
      ∙ ap (control_after config w.now w.drawn r.action r.retry_after_seconds)
          (control-enqueue_all w.arrivals (begin w.now q).1)

  abbrev idle_cycle : Publisher (Payload S E A) → Cycle S E A H
  idle_cycle q = record { action = none; sent = none; after = q }

  -- A cycle sends, or it does nothing but expire old items.
  pub publish_once-cases :
      (w : Surroundings S E A H) (p : Publisher (Payload S E A))
      → let q = expire_buffer w.now p in
        (publish_once config w p ≡ idle_cycle q)
        ⊎ ((publish_once config w p ≡ send_cycle config w q) × (is_held config w.now q ≡ false))
  unfolding publish_once
  publish_once-cases w p =
      let q = expire_buffer w.now p in
      elim (Bool-cases (is_held config w.now q)) [
        | inl held ↦ inl (rw held)
        | inr free ↦
            elim (Bool-cases
              (nothing_to_send (take_items q.max_batch_items q.buffer).0 w.heartbeat)) [
                | inl idle ↦ inl (rw (free, idle))
                | inr busy ↦ inr (rw (free, busy), free)
              ]
      ]

  pub publish_once-control :
      (w : Surroundings S E A H) (p : Publisher (Payload S E A))
      → control (publish_once config w p).after
        ≡ cycle_control w (publish_once config w p).action (control p)
  unfolding expire_buffer
  publish_once-control w p = elim (publish_once-cases w p) [
    | inl idle ↦ rw idle
    | inr (sends, free) ↦ rw sends (send_cycle-control w (expire_buffer w.now p))
  ]

  -- A held publisher sends nothing.
  held_is_quiet :
      (w : Surroundings S E A H) (p : Publisher (Payload S E A))
      → is_held config w.now (expire_buffer w.now p) ≡ true
      → ((publish_once config w p).sent ≡ none) × ((publish_once config w p).action ≡ none)
  held_is_quiet w p held = elim (publish_once-cases w p) [
    | inl idle ↦ rw idle (refl, refl)
    | inr (sends, free) ↦ cc (held, free)
  ]

  -- The end of the time in which nothing may be sent after a cycle with the given result.
  abbrev pub quiet_until : Surroundings S E A H → PublishAction → ℕ → ℕ
  quiet_until w backoff failures =
      w.now + delay_for_attempt config.retry_policy (failures + 1) none w.drawn
  quiet_until w retry_after failures =
      w.now + wait_of (classify_publish_response w.response).retry_after_seconds
  quiet_until w halt failures = w.now + config.halt_probe_interval
  quiet_until w _ failures = w.now

  held_after :
      (w : Surroundings S E A H) (now : ℕ) (a : PublishAction) (c : Control)
      → w.now ≤ now
      → now < quiet_until w a c.consecutive_failures
      → held_by config now (cycle_control w (some a) c) ≡ true
  held_after w now commit c later early = absurd (omega arith)
  held_after w now drop_rejected c later early = absurd (omega arith)
  held_after w now split c later early = absurd (omega arith)
  held_after w now halt c later early = ground arith
  held_after w now retry_after c later early = ground (
    arith,
    retry_is_waiting w.now now (classify_publish_response w.response).retry_after_seconds
        c.retry_after_until later early,
  )
  held_after w now backoff c later early = ground arith

  -- After a cycle that ended in BACKOFF, with so few failures in a row that the delay's power is still a
  -- float, the next cycle sends nothing if it comes before the computed delay has passed; after RETRY_AFTER, before the server's waiting time has passed; after HALT,
  -- before the probe interval has passed.
  pub quiet_period :
      (w w' : Surroundings S E A H) (p : Publisher (Payload S E A)) (a : PublishAction)
      → (publish_once config w p).action ≡ some a
      → ComputesDelay config a p.consecutive_failures
      → w.now ≤ w'.now
      → w'.now < quiet_until w a p.consecutive_failures
      → (publish_once config w' (publish_once config w p).after).sent ≡ none
  unfolding expire_buffer
  quiet_period w w' p a h computes later early =
      let p' = (publish_once config w p).after in
      let reached = publish_once-control w p ∙ ap (λ r. cycle_control w r (control p)) h in
      let held =
        ap (held_by config w'.now) reached ∙ held_after w w'.now a (control p) later early in
      (held_is_quiet w' p' held).0
