-- ===== src/Health/Window.antt =====
-- `SlidingWindowCounter`, and what it counts. Times are whole microseconds.
use avengers_fyp_is.Common.{
  ℕ, ◌+◌, ◌/◌, ◌≤◌, ◌≡◌, refl, ap, ◌∙◌, inl, inr, Bool, not, ◌&&◌, List, [], ◌∷◌, Option, none,
  some, leb, All, arith, sum_by, length, nat_eq, nat_beq_iff, ◌==◌, Bool-cases, if◌then◌else◌,
}
use avengers_fyp_is.Common.Dict.{Dict, lookup, insert}

pub record SlidingWindowCounter : Type 0 where
  pub bucket_length : ℕ
  pub capacity : ℕ
  pub buckets : Dict ℕ ℕ

abbrev pub bucket_index : SlidingWindowCounter → ℕ → ℕ
bucket_index w now = now / w.bucket_length

-- `_expire`: the buckets go that are older than the window, `i < now_idx - capacity + 1`.
unfoldable pub expire : ℕ → ℕ → Dict ℕ ℕ → Dict ℕ ℕ
expire now_idx capacity [] = []
expire now_idx capacity ((i, c) ∷ buckets) =
    let rest = expire now_idx capacity buckets in
    if leb (i + capacity) now_idx then rest else (i, c) ∷ rest

abbrev pub or_zero : Option ℕ → ℕ
or_zero none = 0
or_zero (some c) = c

-- `record`
unfoldable pub record_events : ℕ → ℕ → SlidingWindowCounter → SlidingWindowCounter
record_events now n w =
    let idx = bucket_index w now in
    let kept = expire idx w.capacity w.buckets in
    record w { buckets = insert idx (or_zero (lookup idx kept) + n) kept }

abbrev pub sum_until : ℕ → Dict ℕ ℕ → ℕ
sum_until idx buckets = sum_by (λ x. if leb x.0 idx then x.1 else 0) buckets

unfoldable pub count : ℕ → SlidingWindowCounter → ℕ × SlidingWindowCounter
count now w =
    let idx = bucket_index w now in
    let kept = expire idx w.capacity w.buckets in (sum_until idx kept, record w { buckets = kept })

-- `__len__`
unfoldable pub live_buckets : SlidingWindowCounter → ℕ
live_buckets w = length w.buckets

-- The bucket is one of the window that ends with `idx`.
abbrev pub is_live : ℕ → ℕ → ℕ → Bool
is_live capacity idx i = not (leb (i + capacity) idx) && leb i idx

abbrev pub live_sum : ℕ → ℕ → Dict ℕ ℕ → ℕ
live_sum capacity idx buckets = sum_by (λ x. if is_live capacity idx x.0 then x.1 else 0) buckets

sum_until-expire :
    (idx capacity : ℕ) (buckets : Dict ℕ ℕ)
    → sum_until idx (expire idx capacity buckets) ≡ live_sum capacity idx buckets
unfolding expire
sum_until-expire idx capacity [] = refl
sum_until-expire idx capacity ((i, c) ∷ buckets) =
    let rest = sum_until-expire idx capacity buckets in
    elim (Bool-cases (leb (i + capacity) idx)) [
      | inl old ↦ rw old (omega (arith, rest))
      | inr live ↦ rw live (omega (arith, rest))
    ]

-- An earlier expiry takes nothing from the window.
live_sum-expire :
    (earlier idx capacity : ℕ) (buckets : Dict ℕ ℕ)
    → earlier ≤ idx
    → live_sum capacity idx (expire earlier capacity buckets) ≡ live_sum capacity idx buckets
unfolding expire
live_sum-expire earlier idx capacity [] h = refl
live_sum-expire earlier idx capacity ((i, c) ∷ buckets) h =
    ground (arith, live_sum-expire earlier idx capacity buckets h, h)

live_sum-insert :
    (capacity idx k v : ℕ) (buckets : Dict ℕ ℕ)
    → live_sum capacity idx (insert k v buckets)
        + (if is_live capacity idx k then or_zero (lookup k buckets) else 0)
      ≡ live_sum capacity idx buckets + (if is_live capacity idx k then v else 0)
live_sum-insert capacity idx k v [] = ground arith
live_sum-insert capacity idx k v ((i, c) ∷ buckets) = elim (Bool-cases (k == i)) [
  | inl same ↦ let e : k ≡ i = (nat_beq_iff k i).0 same in rw (same, e) (ground arith)
  | inr other ↦ rw other (omega (arith, live_sum-insert capacity idx k v buckets))
]

-- Recording adds the events to the window if their bucket is in it, and takes none of the others.
live_sum-record_events :
    (idx now n : ℕ) (w : SlidingWindowCounter)
    → bucket_index w now ≤ idx
    → live_sum w.capacity idx (record_events now n w).buckets
      ≡ live_sum w.capacity idx w.buckets
        + (if is_live w.capacity idx (bucket_index w now) then n else 0)
unfolding record_events
live_sum-record_events idx now n w h =
    let k = bucket_index w now in
    let kept = expire k w.capacity w.buckets in
    let added = live_sum-insert w.capacity idx k (or_zero (lookup k kept) + n) kept in
    let same = live_sum-expire k idx w.capacity w.buckets h in
    elim (Bool-cases (is_live w.capacity idx k)) [
      | inl live ↦ rw live (omega (arith, same, rw live at added))
      | inr old ↦ rw old (omega (arith, same, rw old at added))
    ]

-- Recordings in their order, each with its time and its number of events.
abbrev pub run_records : List (ℕ × ℕ) → SlidingWindowCounter → SlidingWindowCounter
run_records [] w = w
run_records ((at, n) ∷ later) w = run_records later (record_events at n w)

run_records-settings :
    (records : List (ℕ × ℕ)) (w : SlidingWindowCounter)
    → ((run_records records w).capacity ≡ w.capacity)
      × ((run_records records w).bucket_length ≡ w.bucket_length)
unfolding record_events
run_records-settings [] w = (refl, refl)
run_records-settings ((at, n) ∷ later) w = run_records-settings later (record_events at n w)

-- The events of the recordings whose bucket is in the window that ends with `idx`.
abbrev pub events_within : SlidingWindowCounter → ℕ → List (ℕ × ℕ) → ℕ
events_within w idx records =
    sum_by (λ r. if is_live w.capacity idx (bucket_index w r.0) then r.1 else 0) records

run_records-live_sum :
    (idx : ℕ) (records : List (ℕ × ℕ)) (w : SlidingWindowCounter)
    → All (λ r. bucket_index w r.0 ≤ idx) records
    → live_sum w.capacity idx (run_records records w).buckets
      ≡ live_sum w.capacity idx w.buckets + events_within w idx records
unfolding record_events
run_records-live_sum idx [] w h = omega arith
run_records-live_sum idx ((at, n) ∷ later) w h =
    let rest = run_records-live_sum idx later (record_events at n w) h.1 in
    let first = live_sum-record_events idx at n w h.0 in rest ∙ omega (arith, first)

-- A counter that starts empty counts exactly the events that were recorded in the buckets of the window
-- that ends now, in whatever order they were recorded, as long as none was recorded for a later bucket:
-- what `record` drops on the way does not matter.
pub count-events_within :
    (now : ℕ) (records : List (ℕ × ℕ)) (w : SlidingWindowCounter)
    → w.buckets ≡ []
    → All (λ r. bucket_index w r.0 ≤ bucket_index w now) records
    → (count now (run_records records w)).0 ≡ events_within w (bucket_index w now) records
unfolding count
count-events_within now records w none_yet h =
    let idx = bucket_index w now in
    let (same, length_same) = run_records-settings records w in
    let whole = run_records-live_sum idx records w h in
    rw (count, same, length_same)
      (sum_until-expire idx w.capacity (run_records records w).buckets
        ∙ whole
        ∙ omega (arith, ap (live_sum w.capacity idx) none_yet))
