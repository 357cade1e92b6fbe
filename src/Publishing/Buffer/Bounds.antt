-- ===== src/Publishing/Buffer/Bounds.antt =====
-- The byte count of the buffer, its byte limit, and its age limit.
use avengers_fyp_is.Common.{
  ℕ, ◌+◌, ◌-◌, ◌≤◌, ◌≡◌, ◌⊎◌, inl, inr, sym, ap, ◌∙◌, length-drop, List, [], ◌∷◌, ◌++◌, arith, ltb,
  length, take, drop, sum_by-append, take-append-drop, Bool-cases,
}
use avengers_fyp_is.Publishing.Buffer.Defs.{
  PendingItem, PublishBuffer, sizes, evict_from, append, expire_from, expire, take_items,
  requeue_front,
}

module _ {P : Type 0} where
  -- The cached total is the sum of the sizes, and passes the limit only with a single item.
  pub record IsConsistent (max_bytes : ℕ) (items : List (PendingItem P)) (total : ℕ) : Type 0 where
    pub counted : total ≡ sizes items
    pub within : (length items ≤ 1) ⊎ (total ≤ max_bytes)

  abbrev pub IsValid : PublishBuffer P → Type 0
  IsValid b = IsConsistent b.max_bytes b.items b.total

  evict_from-IsConsistent :
      (max_bytes total : ℕ) (items : List (PendingItem P))
      → total ≡ sizes items
      → let e = evict_from max_bytes total items in IsConsistent max_bytes e.items e.total
  unfolding evict_from
  evict_from-IsConsistent m t [] h = record { counted = h; within = inl (omega arith) }
  evict_from-IsConsistent m t (x ∷ []) h = record { counted = h; within = inl (omega arith) }
  evict_from-IsConsistent m t (x ∷ y ∷ rest) h = elim (Bool-cases (ltb m t)) [
    | inl over ↦ rw over (evict_from-IsConsistent m (t - x.size_bytes) (y ∷ rest) (omega arith))
    | inr fits ↦ rw fits (record { counted = h; within = inr (ground arith) })
  ]

  pub append-IsValid :
      (item : PendingItem P) (b : PublishBuffer P) → IsValid b → IsValid (append item b).0
  unfolding append
  append-IsValid item b v =
      evict_from-IsConsistent b.max_bytes (b.total + item.size_bytes) (b.items ++ (item ∷ [])) (
        omega (
          arith,
          v.counted,
          sum_by-append {0} (λ (i : PendingItem P). i.size_bytes) b.items (item ∷ []),
        ))

  pub requeue_front-IsValid :
      (items : List (PendingItem P)) (b : PublishBuffer P)
      → IsValid b
      → IsValid (requeue_front items b).0
  unfolding requeue_front
  requeue_front-IsValid items b v =
      evict_from-IsConsistent b.max_bytes (b.total + sizes items) (items ++ b.items) (
        omega
          (arith, v.counted, sum_by-append {0} (λ (i : PendingItem P). i.size_bytes) items b.items))

  smaller :
      (m t : ℕ) (x : PendingItem P) (rest : List (PendingItem P))
      → (length (x ∷ rest) ≤ 1) ⊎ (t ≤ m)
      → (length rest ≤ 1) ⊎ (t - x.size_bytes ≤ m)
  smaller m t x rest (inl few) = inl (omega arith)
  smaller m t x rest (inr fits) = inr (omega arith)

  pub sizes-split :
      (n : ℕ) (items : List (PendingItem P))
      → sizes (take n items) + sizes (drop n items) ≡ sizes items
  sizes-split n items =
      sym (sum_by-append (λ (i : PendingItem P). i.size_bytes) (take n items) (drop n items))
      ∙ ap sizes (take-append-drop n items)

  fewer :
      (n m t k : ℕ) (items : List (PendingItem P))
      → (length items ≤ 1) ⊎ (t ≤ m)
      → (length (drop n items) ≤ 1) ⊎ (t - k ≤ m)
  fewer n m t k items (inl few) = inl (omega (arith, length-drop {0} n items))
  fewer n m t k items (inr fits) = inr (omega arith)

  expire_from-IsConsistent :
      (max_bytes now max_age total : ℕ) (items : List (PendingItem P))
      → IsConsistent max_bytes items total
      → let e = expire_from now max_age total items in IsConsistent max_bytes e.items e.total
  unfolding expire_from
  expire_from-IsConsistent m now age t [] v = v
  expire_from-IsConsistent m now age t (x ∷ rest) v =
      elim (Bool-cases (ltb (x.enqueued_at + age) now)) [
        | inl old ↦ rw old (
            expire_from-IsConsistent m now age (t - x.size_bytes) rest
              (record { counted = omega (arith, v.counted); within = smaller m t x rest v.within }))
        | inr young ↦ rw young v
      ]

  pub expire-IsValid : (now : ℕ) (b : PublishBuffer P) → IsValid b → IsValid (expire now b).0
  unfolding expire
  expire-IsValid now b v = expire_from-IsConsistent b.max_bytes now b.max_age b.total b.items v

  pub take_items-IsValid : (n : ℕ) (b : PublishBuffer P) → IsValid b → IsValid (take_items n b).1
  unfolding take_items
  take_items-IsValid n b v = record {
    counted = omega (arith, v.counted, sizes-split n b.items);
    within = fewer n b.max_bytes b.total (sizes (take n b.items)) b.items v.within;
  }

-- The calls by which the buffer changes.
pub data BufferCall (P : Type 0) : Type 0 where
  call_append : PendingItem P → BufferCall P
  call_expire : ℕ → BufferCall P
  call_take : ℕ → BufferCall P
  call_requeue_front : List (PendingItem P) → BufferCall P

module _ {P : Type 0} where
  abbrev pub buffer_after : BufferCall P → PublishBuffer P → PublishBuffer P
  buffer_after (call_append item) b = (append item b).0
  buffer_after (call_expire now) b = (expire now b).0
  buffer_after (call_take n) b = (take_items n b).1
  buffer_after (call_requeue_front items) b = (requeue_front items b).0

  abbrev pub run_calls : List (BufferCall P) → PublishBuffer P → PublishBuffer P
  run_calls [] b = b
  run_calls (c ∷ cs) b = run_calls cs (buffer_after c b)

  buffer_after-IsValid :
      (c : BufferCall P) (b : PublishBuffer P) → IsValid b → IsValid (buffer_after c b)
  buffer_after-IsValid (call_append item) b v = append-IsValid item b v
  buffer_after-IsValid (call_expire now) b v = expire-IsValid now b v
  buffer_after-IsValid (call_take n) b v = take_items-IsValid n b v
  buffer_after-IsValid (call_requeue_front items) b v = requeue_front-IsValid items b v

  -- From a valid buffer, any sequence of calls of `append`, `expire`, `take` and `requeue_front`
  -- leaves a buffer whose cached byte total is the sum of its items' sizes, and exceeds `max_bytes`
  -- only while the buffer holds at most one item.
  pub run_calls-IsValid :
      (calls : List (BufferCall P)) (b : PublishBuffer P) → IsValid b → IsValid (run_calls calls b)
  run_calls-IsValid [] b v = v
  run_calls-IsValid (c ∷ cs) b v =
      run_calls-IsValid cs (buffer_after c b) (buffer_after-IsValid c b v)
