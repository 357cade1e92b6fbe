-- ===== src/Publishing/Buffer/Defs.antt =====
-- `PendingItem` and `PublishBuffer`.
use avengers_fyp_is.Common.{
  ℕ, ◌+◌, ◌-◌, List, [], ◌∷◌, ◌++◌, Option, none, some, ltb, take, drop, sum_by, if◌then◌else◌,
}

pub data PendingKind : Type 0 where
  snapshot event alert : PendingKind

pub record PendingItem (P : Type 0) : Type 0 where
  pub kind : PendingKind
  pub payload : P
  pub enqueued_at : ℕ
  pub size_bytes : ℕ

-- `size_of` is the length of the payload's JSON text, which Pydantic makes.
abbrev pub make_pending_item : {P : Type 0} → (P → ℕ) → PendingKind → P → ℕ → PendingItem P
make_pending_item size_of kind payload enqueued_at = record {
  kind = kind;
  payload = payload;
  enqueued_at = enqueued_at;
  size_bytes = size_of payload;
}

pub record PublishBuffer (P : Type 0) : Type 0 where
  pub max_bytes : ℕ
  pub max_age : ℕ
  pub items : List (PendingItem P)
  pub total : ℕ

-- `_evict_one` on the items and their total.
pub record Evicted (P : Type 0) : Type 0 where
  pub items : List (PendingItem P)
  pub total : ℕ
  pub dropped : ℕ

module _ {P : Type 0} where
  abbrev pub sizes : List (PendingItem P) → ℕ
  sizes = sum_by (λ item. item.size_bytes)

  abbrev pub drop_one : Evicted P → Evicted P
  drop_one e = record e { dropped = e.dropped + 1 }

  -- The loop of `_evict_overflow`: while over the limit and more than one item is left.
  unfoldable pub evict_from : ℕ → ℕ → List (PendingItem P) → Evicted P
  evict_from max_bytes total [] = record { items = []; total = total; dropped = 0 }
  evict_from max_bytes total (x ∷ []) = record { items = x ∷ []; total = total; dropped = 0 }
  evict_from max_bytes total (x ∷ y ∷ rest) =
      let later = drop_one (evict_from max_bytes (total - x.size_bytes) (y ∷ rest)) in
      if ltb max_bytes total
      then later
      else record { items = x ∷ y ∷ rest; total = total; dropped = 0 }

  abbrev pub with_evicted : PublishBuffer P → Evicted P → PublishBuffer P × ℕ
  with_evicted b e = (record b { items = e.items; total = e.total }, e.dropped)

  unfoldable pub append : PendingItem P → PublishBuffer P → PublishBuffer P × ℕ
  append item b =
      with_evicted b (evict_from b.max_bytes (b.total + item.size_bytes) (b.items ++ (item ∷ [])))

  -- The loop of `expire`; `now - enqueued_at > max_age` with the subtraction on the other side.
  unfoldable pub expire_from : ℕ → ℕ → ℕ → List (PendingItem P) → Evicted P
  expire_from now max_age total [] = record { items = []; total = total; dropped = 0 }
  expire_from now max_age total (x ∷ rest) =
      let later = drop_one (expire_from now max_age (total - x.size_bytes) rest) in
      if ltb (x.enqueued_at + max_age) now
      then later
      else record { items = x ∷ rest; total = total; dropped = 0 }

  unfoldable pub expire : ℕ → PublishBuffer P → PublishBuffer P × ℕ
  expire now b = with_evicted b (expire_from now b.max_age b.total b.items)

  -- `take`: the number of items asked for is at least 0.
  unfoldable pub take_items : ℕ → PublishBuffer P → List (PendingItem P) × PublishBuffer P
  take_items n b =
      let taken = take n b.items in
      (taken, record b { items = drop n b.items; total = b.total - sizes taken })

  unfoldable pub requeue_front : List (PendingItem P) → PublishBuffer P → PublishBuffer P × ℕ
  requeue_front items b =
      with_evicted b (evict_from b.max_bytes (b.total + sizes items) (items ++ b.items))

  unfoldable pub oldest_age : ℕ → PublishBuffer P → Option ℕ
  oldest_age now b = elim b.items [ [] ↦ none | x ∷ rest ↦ some (now - x.enqueued_at) ]
