-- ===== src/Metrics/Histogram/Tests.antt =====
-- The theorems on the histogram at concrete inputs.
use avengers_fyp_is.Common.{ℕ, ◌≡◌, refl, List, [], ◌∷◌, ◌++◌, Option, none, some, length, sum_by}
use avengers_fyp_is.Metrics.Histogram.Defs.{
  Histogram, empty_histogram, bucket_of, record_value, merge,
}
use avengers_fyp_is.Metrics.Histogram.Buckets.{bucket}
use avengers_fyp_is.Metrics.Histogram.Merge.{
  least_of, greatest_of, Summarises, merge-Summarises, record_all, record_all-Summarises,
}
use avengers_fyp_is.Metrics.Histogram.Ranges.{CountsRanges, record_all-CountsRanges}

abbrev here : List ℕ
here = 900 ∷ 26000 ∷ []

abbrev there : List ℕ
there = 1000 ∷ 7000000 ∷ []

abbrev or_empty : Option Histogram → Histogram
or_empty none = empty_histogram
or_empty (some h) = h

merge-Summarises_example :
    Summarises
      (here ++ there)
      (merge (record_all-Summarises here).0 (record_all-Summarises there).0)
merge-Summarises_example =
    merge-Summarises here there (record_all-Summarises here).0 (record_all-Summarises there).0
      (record_all-Summarises here).2 (record_all-Summarises there).2

record_all-CountsRanges_example :
    (h : Histogram) × (record_all here ≡ some h)
    × (h.count ≡ length here)
    × (h.sum ≡ sum_by (λ x. x) here)
    × (h.least ≡ least_of here)
    × (h.greatest ≡ greatest_of here)
    × CountsRanges here h
record_all-CountsRanges_example = record_all-CountsRanges here

-- A value on a boundary belongs to the bucket below it.
first_bucket : bucket "1" (or_empty (record_all (here ++ there))).buckets ≡ 2
unfolding record_value bucket_of
first_bucket = refl

last_bucket : bucket "+Inf" (or_empty (record_all (here ++ there))).buckets ≡ 1
unfolding record_value bucket_of
last_bucket = refl
