-- ===== src/Pipeline/BoundedQueue/Defs.antt =====
-- The state and the methods of `BoundedQueue`.
use avengers_fyp_is.Common.{
  ℕ, ◌+◌, Bool, List, [], ◌∷◌, ◌++◌, Option, none, some, leb, nat_beq, length, take, drop,
  if◌then◌else◌,
}

pub data OverflowPolicy : Type 0 where
  block drop_oldest : OverflowPolicy

-- A negative capacity is refused by the constructor, so the capacity is a natural number.
pub record BoundedQueue {ℓ} (A : Type ℓ) : Type ℓ where
  pub capacity : ℕ
  pub overflow_policy : OverflowPolicy
  pub items : List A
  pub dropped : ℕ

pub record QueueSnapshot : Type 0 where
  pub depth : ℕ
  pub capacity : ℕ
  pub dropped_total : ℕ

-- How one `Condition.wait` ends.
pub data Wake {ℓ} (A : Type ℓ) : Type ℓ where
  timed_out : Wake A
  woken : BoundedQueue A → Wake A

-- `waiting`: the schedule is used up and the thread still waits.
pub data PutOutcome : Type 0 where
  accepted refused put_waiting : PutOutcome

pub data GetOutcome {ℓ} (A : Type ℓ) : Type ℓ where
  got : A → GetOutcome A
  nothing get_waiting : GetOutcome A

module _ {ℓ} {A : Type ℓ} where
  abbrev pub push : A → BoundedQueue A → BoundedQueue A
  push x q = record q { items = q.items ++ (x ∷ []) }

  abbrev pub is_full : BoundedQueue A → Bool
  is_full q = leb q.capacity (length q.items)

  -- `if len(self._items) >= self._capacity: popleft(); self._dropped += 1`
  abbrev pub make_room : BoundedQueue A → BoundedQueue A
  make_room q =
      if is_full q then record q { items = drop 1 q.items; dropped = q.dropped + 1 } else q

  -- The `while` loop of `put` under the policy `block`.
  unfoldable pub put_block : List (Wake A) → A → BoundedQueue A → PutOutcome × BoundedQueue A
  put_block [] x q = if is_full q then (put_waiting, q) else (accepted, push x q)
  put_block (timed_out ∷ ws) x q = if is_full q then (refused, q) else (accepted, push x q)
  put_block (woken q' ∷ ws) x q =
      let later = put_block ws x q' in if is_full q then later else (accepted, push x q)

  abbrev pub count_drop : OverflowPolicy → BoundedQueue A → BoundedQueue A
  count_drop block q = q
  count_drop drop_oldest q = record q { dropped = q.dropped + 1 }

  abbrev pub put_by :
      OverflowPolicy → List (Wake A) → A → BoundedQueue A → PutOutcome × BoundedQueue A
  put_by block ws x q = put_block ws x q
  put_by drop_oldest ws x q = (accepted, push x (make_room q))

  unfoldable pub put : List (Wake A) → A → BoundedQueue A → PutOutcome × BoundedQueue A
  put ws x q =
      if nat_beq q.capacity 0
      then (refused, count_drop q.overflow_policy q)
      else put_by q.overflow_policy ws x q

  -- `none` is the `RuntimeError` under the policy `block`.
  abbrev pub put_nowait_by : OverflowPolicy → A → BoundedQueue A → Option (BoundedQueue A)
  put_nowait_by block x q = none
  put_nowait_by drop_oldest x q = some (put [] x q).1

  unfoldable pub put_nowait : A → BoundedQueue A → Option (BoundedQueue A)
  put_nowait x q = put_nowait_by q.overflow_policy x q

  -- The end of `get`: another consumer may have been faster.
  abbrev pub pop_from : List A → BoundedQueue A → GetOutcome A × BoundedQueue A
  pop_from [] q = (nothing, q)
  pop_from (x ∷ xs) q = (got x, record q { items = xs })

  -- `while not self._items: wait()` for `timeout=None`
  unfoldable pub get_block : List (Wake A) → BoundedQueue A → GetOutcome A × BoundedQueue A
  get_block [] q = elim q.items [ [] ↦ (get_waiting, q) | x ∷ xs ↦ pop_from q.items q ]
  get_block (timed_out ∷ ws) q = elim q.items [
    | [] ↦ (get_waiting, q)
    | x ∷ xs ↦ pop_from q.items q
  ]
  get_block (woken q' ∷ ws) q =
      let later = get_block ws q' in elim q.items [ [] ↦ later | x ∷ xs ↦ pop_from q.items q ]

  -- One wait only where a time-out is given.
  abbrev pub get_timed : Wake A → BoundedQueue A → GetOutcome A × BoundedQueue A
  get_timed timed_out q = elim q.items [ [] ↦ (nothing, q) | x ∷ xs ↦ pop_from q.items q ]
  get_timed (woken q') q = elim q.items [ [] ↦ pop_from q'.items q' | x ∷ xs ↦ pop_from q.items q ]

  -- `drain`: `none` takes everything.
  unfoldable pub drain : Option ℕ → BoundedQueue A → List A × BoundedQueue A
  drain none q = (q.items, record q { items = [] })
  drain (some n) q = (take n q.items, record q { items = drop n q.items })

  unfoldable pub snapshot : BoundedQueue A → QueueSnapshot
  snapshot q = record { depth = length q.items; capacity = q.capacity; dropped_total = q.dropped }
