-- ===== src/Publishing/Publisher/Cycle.antt =====
-- One publish cycle as a whole: what is sent, what stays, what is lost.
use mathlib.Core.List.{append_assoc}
use mathlib.Core.Path.{subst}
use avengers_fyp_is.Common.{
  ◌≤◌, ◌≡◌, inl, inr, refl, sym, ap, ◌∙◌, true, false, ◌++◌, none, some, arith, drop,
  take-append-drop, Bool-cases,
}
use avengers_fyp_is.Publishing.Outcome.{is_final_action, PublishAction, classify_publish_response}
use avengers_fyp_is.Publishing.Buffer.Defs.{PublishBuffer, sizes, take_items, requeue_front}
use avengers_fyp_is.Publishing.Buffer.Bounds.{
  IsValid, take_items-IsValid, expire-IsValid, requeue_front-IsValid,
}
use avengers_fyp_is.Publishing.Buffer.Contents.{EvictsOldest, requeue_front-EvictsOldest}
use avengers_fyp_is.Publishing.Batch.{
  Payload, TelemetryBatch, Carries, build_batch, build_batch-Carries,
}
use avengers_fyp_is.Publishing.Publisher.Defs.{
  PublishConfig, Publisher, Cycle, Surroundings, enqueue_all, expire_buffer, is_held,
  nothing_to_send, begin, send_cycle, publish_once,
}
use avengers_fyp_is.Publishing.Publisher.Retain.{
  dropped_items, Buffered, enqueue_all-Buffered, act-requeues, act-gives_up,
}
use avengers_fyp_is.Publishing.Publisher.Kept.{
  taken_of, rest_of, Retained, GivenUp, Retained-intact,
}

module _ {S E A H : Type 0} (config : PublishConfig) where
  abbrev pub due : Surroundings S E A H → Publisher (Payload S E A) → Publisher (Payload S E A)
  due w p = expire_buffer w.now p

  -- A cycle that reports an action has sent a request from the state after expiry.
  publish_once-sends :
      (w : Surroundings S E A H) (p : Publisher (Payload S E A)) (a : PublishAction)
      → (publish_once config w p).action ≡ some a
      → publish_once config w p ≡ send_cycle config w (due w p)
  unfolding publish_once
  publish_once-sends w p a h = elim (Bool-cases (is_held config w.now (due w p))) [
    | inl held ↦ let e : (publish_once config w p).action ≡ none = rw held in cc (e, h)
    | inr free ↦
        elim (Bool-cases
          (nothing_to_send (take_items (due w p).max_batch_items (due w p).buffer).0 w.heartbeat)) [
            | inl idle ↦
                let e : (publish_once config w p).action ≡ none = rw (free, idle) in cc (e, h)
            | inr busy ↦ rw (free, busy) refl
          ]
  ]

  -- The state in which the response arrives.
  abbrev pub at_response :
      Surroundings S E A H → Publisher (Payload S E A) → Publisher (Payload S E A)
  at_response w q = enqueue_all w.arrivals (begin w.now q).1

  abbrev pub action_of : Surroundings S E A H → PublishAction
  action_of w = (classify_publish_response w.response).action

  abbrev Arrived : Surroundings S E A H → Publisher (Payload S E A) → Type 0
  Arrived w q =
      Buffered (drop q.max_batch_items q.buffer.items ++ w.arrivals) (dropped_items q)
        q.buffer.max_bytes (at_response w q)

  arrived :
      (w : Surroundings S E A H) (q : Publisher (Payload S E A)) → IsValid q.buffer → Arrived w q
  unfolding begin take_items
  arrived w q v =
      enqueue_all-Buffered w.arrivals (begin w.now q).1
        (take_items-IsValid q.max_batch_items q.buffer v)

  send_cycle-Retained :
      (w : Surroundings S E A H) (q : Publisher (Payload S E A))
      → IsValid q.buffer
      → is_final_action (action_of w) ≡ false
      → Retained
          (taken_of q)
          (rest_of q)
          w.arrivals
          (dropped_items q)
          q.buffer.max_bytes
          (send_cycle config w q).after
  unfolding send_cycle begin take_items
  send_cycle-Retained w q v f =
      let m = at_response w q in
      let b = arrived w q v in
      let r = classify_publish_response w.response in
      let k = act-requeues config w.now w.drawn r.retry_after_seconds (taken_of q) r.action m f in
      record {
        meanwhile = m.buffer.items;
        lost_before = b.dropped;
        lost_after = (requeue_front (taken_of q) m.buffer).1;
        while_sending = b.loses;
        on_return =
            subst
              (λ (c : PublishBuffer (Payload S E A)).
                EvictsOldest q.buffer.max_bytes (taken_of q ++ m.buffer.items) c.items
                  (requeue_front (taken_of q) m.buffer).1)
              (sym k.0)
              (subst
                (λ limit.
                  EvictsOldest limit (taken_of q ++ m.buffer.items)
                    (requeue_front (taken_of q) m.buffer).0.items
                    (requeue_front (taken_of q) m.buffer).1)
                b.limit (requeue_front-EvictsOldest (taken_of q) m.buffer b.valid));
        counted = omega (arith, k.1, b.counted);
        valid = subst IsValid (sym k.0) (requeue_front-IsValid (taken_of q) m.buffer b.valid);
      }

  send_cycle-GivenUp :
      (w : Surroundings S E A H) (q : Publisher (Payload S E A))
      → IsValid q.buffer
      → is_final_action (action_of w) ≡ true
      → GivenUp
          (rest_of q)
          w.arrivals
          (dropped_items q)
          q.buffer.max_bytes
          (send_cycle config w q).after
  unfolding send_cycle begin take_items
  send_cycle-GivenUp w q v f =
      let m = at_response w q in
      let b = arrived w q v in
      let r = classify_publish_response w.response in
      let k = act-gives_up config w.now w.drawn r.retry_after_seconds (taken_of q) r.action m f in
      record {
        lost = b.dropped;
        while_sending =
            subst
              (λ (c : PublishBuffer (Payload S E A)).
                EvictsOldest q.buffer.max_bytes (rest_of q ++ w.arrivals) c.items b.dropped)
              (sym k.0) b.loses;
        counted = omega (arith, k.1, b.counted);
        valid = subst IsValid (sym k.0) b.valid;
      }

  due-IsValid :
      (w : Surroundings S E A H) (p : Publisher (Payload S E A))
      → IsValid p.buffer
      → IsValid (due w p).buffer
  unfolding expire_buffer
  due-IsValid w p v = expire-IsValid w.now p.buffer v

  sent_action :
      (w : Surroundings S E A H) (p : Publisher (Payload S E A)) (a : PublishAction)
      → (publish_once config w p).action ≡ some a
      → a ≡ action_of w
  unfolding send_cycle
  sent_action w p a h = cc (h, ap (λ (c : Cycle S E A H). c.action) (publish_once-sends w p a h))

  -- From a valid buffer, a cycle that ends in HALT, SPLIT, RETRY_AFTER or BACKOFF loses, after
  -- `expire`, only the oldest items, and no more of them than the byte limit needs: one lost item
  -- fewer, and the rest would exceed the limit. So it is first with the items that waited or arrived
  -- during the request, then, when the batch's items return to the front, with all. Each lost item is
  -- counted, the others stay in their order, and the buffer is left valid.
  pub publish_once-Retained :
      (w : Surroundings S E A H) (p : Publisher (Payload S E A)) (a : PublishAction)
      → IsValid p.buffer
      → (publish_once config w p).action ≡ some a
      → is_final_action a ≡ false
      → let q = due w p in
        Retained
          (taken_of q)
          (rest_of q)
          w.arrivals
          (dropped_items q)
          q.buffer.max_bytes
          (publish_once config w p).after
  publish_once-Retained w p a v h f =
      rw (publish_once-sends w p a h)
        (send_cycle-Retained w (due w p) (due-IsValid w p v) (rw (sent_action w p a h) at f))

  -- If a cycle ends in HALT, SPLIT, RETRY_AFTER or BACKOFF, and the items of its valid buffer and the
  -- arrivals fit within the byte limit together, the buffer afterwards holds what it held after
  -- `expire`, followed by the arrivals, and the counter of dropped items has not moved since.
  pub publish_once-intact :
      (w : Surroundings S E A H) (p : Publisher (Payload S E A)) (a : PublishAction)
      → IsValid p.buffer
      → (publish_once config w p).action ≡ some a
      → is_final_action a ≡ false
      → let q = due w p in
        let p' = (publish_once config w p).after in
        sizes (q.buffer.items ++ w.arrivals) ≤ q.buffer.max_bytes
        → (p'.buffer.items ≡ q.buffer.items ++ w.arrivals) × (dropped_items p' ≡ dropped_items q)
  publish_once-intact w p a v h f fits =
      let q = due w p in
      let whole =
        sym (append_assoc (taken_of q) (rest_of q) w.arrivals)
        ∙ ap (λ l. l ++ w.arrivals) (take-append-drop q.max_batch_items q.buffer.items) in
      let k =
        Retained-intact (taken_of q) (rest_of q) w.arrivals (dropped_items q) q.buffer.max_bytes
          (publish_once config w p).after (rw whole fits) (publish_once-Retained w p a v h f) in
      (k.0 ∙ whole, k.1)

  -- From a valid buffer, a cycle that ends in COMMIT or DROP_REJECTED has sent a batch of exactly the
  -- first `max_batch_items` items that `expire` left. Of the rest and the arrivals only the oldest are
  -- lost, no more of them than the byte limit needs, each counted, and the others stay in their order:
  -- one lost item fewer, and what is left would exceed the limit. The buffer is left valid.
  pub publish_once-GivenUp :
      (w : Surroundings S E A H) (p : Publisher (Payload S E A)) (a : PublishAction)
      → IsValid p.buffer
      → (publish_once config w p).action ≡ some a
      → is_final_action a ≡ true
      → let q = due w p in
        let c = publish_once config w p in
        GivenUp (rest_of q) w.arrivals (dropped_items q) q.buffer.max_bytes c.after
        × ((b : TelemetryBatch S E A H) × (c.sent ≡ some b) × Carries (taken_of q) b)
  unfolding send_cycle begin take_items
  publish_once-GivenUp w p a v h f =
      let q = due w p in
      rw (publish_once-sends w p a h) (
        send_cycle-GivenUp w q (due-IsValid w p v) (rw (sent_action w p a h) at f),
        (
          build_batch (taken_of q) config.agent_id config.application w.batch_id q.next_seq
              w.heartbeat w.now,
          refl,
          build_batch-Carries (taken_of q) config.agent_id config.application w.batch_id q.next_seq
              w.heartbeat w.now,
        ),
      )
