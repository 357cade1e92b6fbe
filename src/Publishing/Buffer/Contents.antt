-- ===== src/Publishing/Buffer/Contents.antt =====
-- Which items the buffer gives up, and in which order it keeps the others.
use native.Mathlib.Numerals.{add-one}
use avengers_fyp_is.Common.{
  zero, ltb→lt, sum_by-append, ℕ, suc, ◌+◌, ◌-◌, ◌≤◌, ◌<◌, ◌≡◌, inl, inr, refl, ap, List, [], ◌∷◌,
  ◌++◌, arith, ltb, take, drop, All, Bool-cases,
}
use avengers_fyp_is.Publishing.Buffer.Defs.{
  PendingItem, PublishBuffer, sizes, evict_from, append, expire_from, expire, requeue_front,
}
use avengers_fyp_is.Publishing.Buffer.Bounds.{IsValid}

module _ {P : Type 0} where
  -- The evicted items are the oldest ones, and one fewer would have left the buffer too large.
  pub record EvictsOldest (max_bytes : ℕ) (items kept : List (PendingItem P)) (dropped : ℕ)
      : Type 0 where
    pub oldest_first : kept ≡ drop dropped items
    pub needed : (k : ℕ) → k < dropped → max_bytes < sizes (drop k items)

  EvictsOldest-more :
      (m : ℕ) (x : PendingItem P) (items kept : List (PendingItem P)) (dropped : ℕ)
      → m < sizes (x ∷ items)
      → EvictsOldest m items kept dropped
      → EvictsOldest m (x ∷ items) kept (dropped + 1)
  EvictsOldest-more m x items kept dropped over v = record {
    oldest_first = rw add-one v.oldest_first;
    needed = λ k. needed_at k;
  }
    where
      needed_at : (k : ℕ) → k < dropped + 1 → m < sizes (drop k (x ∷ items))
      needed_at zero h = over
      needed_at (suc k) h = v.needed k (omega arith)

  evict_from-EvictsOldest :
      (max_bytes total : ℕ) (items : List (PendingItem P))
      → total ≡ sizes items
      → let e = evict_from max_bytes total items in EvictsOldest max_bytes items e.items e.dropped
  unfolding evict_from
  evict_from-EvictsOldest m t [] h = record { oldest_first = refl; needed = λ k p. omega arith }
  evict_from-EvictsOldest m t (x ∷ []) h = record {
    oldest_first = refl;
    needed = λ k p. absurd (omega arith);
  }
  evict_from-EvictsOldest m t (x ∷ y ∷ rest) h = elim (Bool-cases (ltb m t)) [
    | inl over ↦
        let later = evict_from-EvictsOldest m (t - x.size_bytes) (y ∷ rest) (omega arith) in
        rw over (
          EvictsOldest-more m x (y ∷ rest) _ (evict_from m (t - x.size_bytes) (y ∷ rest)).dropped
            (omega (arith, ltb→lt m t over)) later)
    | inr fits ↦ rw fits (record { oldest_first = refl; needed = λ k p. absurd (omega arith) })
  ]

  -- On a valid buffer, `append` keeps all but the oldest items, in order, and drops no more of them
  -- than the byte limit needs.
  pub append-EvictsOldest :
      (item : PendingItem P) (b : PublishBuffer P)
      → IsValid b
      → let (b', dropped) = append item b in
        EvictsOldest b.max_bytes (b.items ++ (item ∷ [])) b'.items dropped
  unfolding append
  append-EvictsOldest item b v =
      evict_from-EvictsOldest b.max_bytes (b.total + item.size_bytes) (b.items ++ (item ∷ [])) (
        omega (
          arith,
          v.counted,
          sum_by-append {0} (λ (i : PendingItem P). i.size_bytes) b.items (item ∷ []),
        ))

  -- On a valid buffer, `requeue_front` puts the items in front of the buffered ones, keeps all but the
  -- first of them all, in order, and drops no more of them than the byte limit needs.
  pub requeue_front-EvictsOldest :
      (items : List (PendingItem P)) (b : PublishBuffer P)
      → IsValid b
      → let (b', dropped) = requeue_front items b in
        EvictsOldest b.max_bytes (items ++ b.items) b'.items dropped
  unfolding requeue_front
  requeue_front-EvictsOldest items b v =
      evict_from-EvictsOldest b.max_bytes (b.total + sizes items) (items ++ b.items) (
        omega
          (arith, v.counted, sum_by-append {0} (λ (i : PendingItem P). i.size_bytes) items b.items))

  pub nothing_evicted :
      (m : ℕ) (items kept : List (PendingItem P)) (dropped : ℕ)
      → sizes items ≤ m
      → EvictsOldest m items kept dropped
      → (dropped ≡ 0) × (kept ≡ items)
  nothing_evicted m items kept zero fits v = (refl, v.oldest_first)
  nothing_evicted m items kept (suc d) fits v = absurd (omega (arith, v.needed 0 (omega arith)))

  -- Items in the order of their times.
  abbrev pub IsOrdered : List (PendingItem P) → Type 0
  IsOrdered [] = Unit
  IsOrdered (x ∷ []) = Unit
  IsOrdered (x ∷ y ∷ rest) = (x.enqueued_at ≤ y.enqueued_at) × IsOrdered (y ∷ rest)

  abbrev pub IsYoung : ℕ → ℕ → PendingItem P → Type 0
  IsYoung now max_age x = now ≤ x.enqueued_at + max_age

  abbrev pub IsOld : ℕ → ℕ → PendingItem P → Type 0
  IsOld now max_age x = x.enqueued_at + max_age < now

  All-IsYoung :
      (now age : ℕ) (x : PendingItem P) (rest : List (PendingItem P))
      → IsYoung now age x
      → IsOrdered (x ∷ rest)
      → All (IsYoung now age) (x ∷ rest)
  All-IsYoung now age x [] h o = (h, tt)
  All-IsYoung now age x (y ∷ rest) h o = (h, All-IsYoung now age y rest (omega arith) o.1)

  IsOrdered-rest :
      (x : PendingItem P) (rest : List (PendingItem P)) → IsOrdered (x ∷ rest) → IsOrdered rest
  IsOrdered-rest x [] o = tt
  IsOrdered-rest x (y ∷ rest) o = o.1

  -- What `expire` leaves, and what it drops.
  pub record Expires (now max_age : ℕ) (items kept : List (PendingItem P)) (dropped : ℕ)
      : Type 0 where
    pub split : take dropped items ++ kept ≡ items
    pub dropped_old : All (IsOld now max_age) (take dropped items)
    pub kept_young : All (IsYoung now max_age) kept

  expire_from-Expires :
      (now age total : ℕ) (items : List (PendingItem P))
      → IsOrdered items
      → let e = expire_from now age total items in Expires now age items e.items e.dropped
  unfolding expire_from
  expire_from-Expires now age t [] o = record { split = refl; dropped_old = tt; kept_young = tt }
  expire_from-Expires now age t (x ∷ rest) o = elim (Bool-cases (ltb (x.enqueued_at + age) now)) [
    | inl old ↦
        let later = expire_from-Expires now age (t - x.size_bytes) rest (IsOrdered-rest x rest o) in
        rw old (record {
          split = rw add-one (ap (λ l. x ∷ l) later.split);
          dropped_old = rw add-one (ltb→lt _ now old, later.dropped_old);
          kept_young = later.kept_young;
        })
    | inr young ↦ rw young (record {
      split = refl;
      dropped_old = tt;
      kept_young = All-IsYoung now age x rest (ground arith) o;
    })
  ]

  -- On a buffer whose items stand in the order of their times, `expire` looks only at the head,
  -- and yet drops every item that is too old, and no other.
  pub expire-Expires :
      (now : ℕ) (b : PublishBuffer P)
      → IsOrdered b.items
      → let (b', dropped) = expire now b in Expires now b.max_age b.items b'.items dropped
  unfolding expire
  expire-Expires now b o = expire_from-Expires now b.max_age b.total b.items o
