-- ===== src/Health/Tests.antt =====
-- The theorem on the window at concrete inputs: three buckets of ten.
use avengers_fyp_is.Common.{ℕ, ◌≡◌, refl, List, [], ◌∷◌, arith}
use avengers_fyp_is.Health.Window.{
  SlidingWindowCounter, bucket_index, expire, record_events, count, run_records, events_within,
  count-events_within,
}

abbrev window : SlidingWindowCounter
window = record { bucket_length = 10; capacity = 3; buckets = [] }

-- The third recording is late, but still within the window.
abbrev records : List (ℕ × ℕ)
records = (5, 7) ∷ (31, 2) ∷ (22, 1) ∷ (35, 4) ∷ []

count-events_within_example :
    (count 39 (run_records records window)).0
    ≡ events_within window (bucket_index window 39) records
count-events_within_example =
    count-events_within 39 records window refl
      (omega arith, (omega arith, (omega arith, (omega arith, tt))))

seven_in_window : (count 39 (run_records records window)).0 ≡ 7
unfolding count record_events expire
seven_in_window = refl
