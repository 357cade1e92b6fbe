-- ===== src/Publishing/Publisher/Retain.antt =====
-- What a publish cycle does with the buffered items.
use mathlib.Core.List.{append_assoc, append-nil}
use mathlib.Core.Path.{subst}
use avengers_fyp_is.Common.{
  ℕ, ◌+◌, ◌≡◌, refl, ◌∙◌, true, false, String, ◌==◌, string_eq, List, [], ◌∷◌, ◌++◌, Option, arith,
}
use avengers_fyp_is.Runtime.Counters.{
  CounterRegistry, count_of, increment, count_of-increment, count_of-increment_times,
}
use avengers_fyp_is.Publishing.Outcome.{
  PublishAction, commit, drop_rejected, halt, split, retry_after, backoff, is_final_action,
}
use avengers_fyp_is.Publishing.Buffer.Defs.{PendingItem, append, requeue_front}
use avengers_fyp_is.Publishing.Buffer.Bounds.{IsValid, append-IsValid}
use avengers_fyp_is.Publishing.Buffer.Contents.{EvictsOldest, append-EvictsOldest}
use avengers_fyp_is.Publishing.Buffer.Loss.{EvictsOldest-then}
use avengers_fyp_is.Publishing.Publisher.Defs.{
  PublishConfig, Publisher, with_drops, enqueue, enqueue_all, on_commit, halt_at, act,
}

-- The other counters are kept under other names.
aside :
    (name : String) (c : CounterRegistry)
    → ("publish_dropped_items" == name) ≡ false
    → count_of "publish_dropped_items" (increment name 1 c) ≡ count_of "publish_dropped_items" c
aside name c other = count_of-increment name "publish_dropped_items" 1 c ∙ rw other

module _ {P : Type 0} where
  -- The counter of dropped items.
  abbrev pub dropped_items : Publisher P → ℕ
  dropped_items p = count_of "publish_dropped_items" p.counters

  -- From the buffer content `all` on, the publisher came to `p'`; what is missing was dropped, and
  -- counted.
  pub record Buffered (all : List (PendingItem P)) (before : ℕ) (max_bytes : ℕ) (p' : Publisher P)
      : Type 0 where
    pub dropped : ℕ
    pub loses : EvictsOldest max_bytes all p'.buffer.items dropped
    pub counted : dropped_items p' ≡ before + dropped
    pub valid : IsValid p'.buffer
    pub limit : p'.buffer.max_bytes ≡ max_bytes

  enqueue-Buffered :
      (item : PendingItem P) (p : Publisher P)
      → IsValid p.buffer
      → Buffered
          (p.buffer.items ++ (item ∷ []))
          (dropped_items p)
          p.buffer.max_bytes
          (enqueue item p)
  unfolding enqueue append
  enqueue-Buffered item p v = record {
    dropped = (append item p.buffer).1;
    loses = append-EvictsOldest item p.buffer v;
    counted =
        count_of-increment_times (append item p.buffer).1 "publish_dropped_items"
          "publish_dropped_items" p.counters;
    valid = append-IsValid item p.buffer v;
    limit = refl;
  }

  nothing_lost : (m : ℕ) (all : List (PendingItem P)) → EvictsOldest m all all 0
  nothing_lost m all = record { oldest_first = refl; needed = λ k h. absurd (omega arith) }

  pub enqueue_all-Buffered :
      (items : List (PendingItem P)) (p : Publisher P)
      → IsValid p.buffer
      → Buffered
          (p.buffer.items ++ items)
          (dropped_items p)
          p.buffer.max_bytes
          (enqueue_all items p)
  unfolding enqueue_all
  enqueue_all-Buffered [] p v = record {
    dropped = 0;
    loses = rw append-nil (nothing_lost p.buffer.max_bytes p.buffer.items);
    counted = omega arith;
    valid = v;
    limit = refl;
  }
  enqueue_all-Buffered (item ∷ items) p v =
      let a = enqueue-Buffered item p v in
      let b = enqueue_all-Buffered items (enqueue item p) a.valid in
      record {
        dropped = a.dropped + b.dropped;
        loses = rw (append_assoc p.buffer.items (item ∷ []) items) at (
            EvictsOldest-then p.buffer.max_bytes (p.buffer.items ++ (item ∷ []))
              (enqueue item p).buffer.items items (enqueue_all items (enqueue item p)).buffer.items
              a.dropped b.dropped a.loses
              (subst
                (λ m.
                  EvictsOldest m ((enqueue item p).buffer.items ++ items)
                    (enqueue_all items (enqueue item p)).buffer.items b.dropped)
                a.limit b.loses));
        counted = omega (arith, a.counted, b.counted);
        valid = b.valid;
        limit = b.limit ∙ a.limit;
      }

  halt_at-keeps :
      (now : ℕ) (p : Publisher P)
      → ((halt_at now p).buffer ≡ p.buffer) × (dropped_items (halt_at now p) ≡ dropped_items p)
  unfolding halt_at
  halt_at-keeps now p = (ground arith, ground (arith, aside "publish_halted" p.counters refl))

  module _ (config : PublishConfig) (now drawn : ℕ) (wait : Option ℕ)
      (items : List (PendingItem P)) where
    requeue_drops :
        (p : Publisher P)
        → dropped_items (with_drops (requeue_front items p.buffer) p)
          ≡ dropped_items p + (requeue_front items p.buffer).1
    requeue_drops p =
        count_of-increment_times (requeue_front items p.buffer).1 "publish_dropped_items"
          "publish_dropped_items" p.counters

    -- Every outcome but a final one puts the items back.
    pub act-requeues :
        (action : PublishAction) (p : Publisher P)
        → is_final_action action ≡ false
        → ((act config now drawn action wait items p).buffer ≡ (requeue_front items p.buffer).0)
          × (dropped_items (act config now drawn action wait items p)
              ≡ dropped_items p + (requeue_front items p.buffer).1)
    unfolding act halt_at
    act-requeues commit p h = cc
    act-requeues drop_rejected p h = cc
    act-requeues halt p h =
        let q = with_drops (requeue_front items p.buffer) p in
        let k = halt_at-keeps now q in (k.0, k.1 ∙ requeue_drops p)
    act-requeues split p h = (refl, aside "publish_split" _ refl ∙ requeue_drops p)
    act-requeues retry_after p h = (refl, aside "publish_rate_limited" _ refl ∙ requeue_drops p)
    act-requeues backoff p h = (refl, aside "publish_failures" _ refl ∙ requeue_drops p)

    pub act-gives_up :
        (action : PublishAction) (p : Publisher P)
        → is_final_action action ≡ true
        → ((act config now drawn action wait items p).buffer ≡ p.buffer)
          × (dropped_items (act config now drawn action wait items p) ≡ dropped_items p)
    unfolding act on_commit
    act-gives_up commit p h = (refl, aside "publish_delivered" _ refl)
    act-gives_up drop_rejected p h = (refl, aside "publish_rejected" _ refl)
    act-gives_up _ p h = cc
