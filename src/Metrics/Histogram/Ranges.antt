-- ===== src/Metrics/Histogram/Ranges.antt =====
-- The buckets by the ranges of values that they stand for.
use avengers_fyp_is.Common.{
  ℕ, ◌≡◌, refl, inl, inr, ◌∙◌, Bool, true, length, Bool-cases, ◌&&◌, String, List, [], ◌∷◌, Option,
  none, some, arith, leb, All, sum_by, string_eq, ◌==◌, if◌then◌else◌,
}
use avengers_fyp_is.Metrics.Histogram.Defs.{Histogram, boundaries, overflow_bucket, bucket_of}
use avengers_fyp_is.Metrics.Histogram.Buckets.{bucket}
use avengers_fyp_is.Metrics.Histogram.Merge.{
  least_of, greatest_of, tally, Summarises, record_all, record_all-Summarises,
}

-- Each bucket with its least and its greatest value, in microseconds.
abbrev pub ranges : List (String × ℕ × Option ℕ)
ranges =
    ("1", 0, some 1000)
    ∷ ("5", 1001, some 5000)
    ∷ ("10", 5001, some 10000)
    ∷ ("25", 10001, some 25000)
    ∷ ("50", 25001, some 50000)
    ∷ ("100", 50001, some 100000)
    ∷ ("250", 100001, some 250000)
    ∷ ("500", 250001, some 500000)
    ∷ ("1000", 500001, some 1000000)
    ∷ ("5000", 1000001, some 5000000)
    ∷ ("+Inf", 5000001, none)
    ∷ []

abbrev pub is_below : Option ℕ → ℕ → Bool
is_below none x = true
is_below (some high) x = leb x high

abbrev pub in_range : ℕ → Option ℕ → List ℕ → ℕ
in_range low high samples = sum_by (λ x. if leb low x && is_below high x then 1 else 0) samples

-- Every bucket has as many as there are samples in its range.
abbrev pub CountsRanges : List ℕ → Histogram → Type 0
CountsRanges samples h =
    All (λ (r : String × ℕ × Option ℕ). bucket r.0 h.buckets ≡ in_range r.1 r.2 samples) ranges

-- Whether a key is that of the value's bucket, with the tests in the order of the boundaries.
abbrev matched : String → ℕ → List (String × ℕ) → Bool
matched key x [] = key == overflow_bucket
matched key x ((j, boundary) ∷ bounds) = if leb x boundary then key == j else matched key x bounds

matched_iff :
    (key : String) (x : ℕ) (bounds : List (String × ℕ))
    → (key == bucket_of x bounds) ≡ matched key x bounds
unfolding bucket_of
matched_iff key x [] = refl
matched_iff key x ((j, boundary) ∷ bounds) = elim (Bool-cases (leb x boundary)) [
  | inl here ↦ rw here refl
  | inr later ↦ rw later (matched_iff key x bounds)
]

falls :
    All
      (λ (r : String × ℕ × Option ℕ).
        (x : ℕ) → matched r.0 x boundaries ≡ (leb r.1 x && is_below r.2 x))
      ranges
falls = (
  λ x. ground arith,
  (
    λ x. ground arith,
    (
      λ x. ground arith,
      (
        λ x. ground arith,
        (
          λ x. ground arith,
          (
            λ x. ground arith,
            (
              λ x. ground arith,
              (
                λ x. ground arith,
                (λ x. ground arith, (λ x. ground arith, (λ x. ground arith, tt))),
              ),
            ),
          ),
        ),
      ),
    ),
  ),
)

each_range :
    (samples : List ℕ) (h : Histogram) (rs : List (String × ℕ × Option ℕ))
    → Summarises samples h
    → All
        (λ (r : String × ℕ × Option ℕ).
          (x : ℕ) → matched r.0 x boundaries ≡ (leb r.1 x && is_below r.2 x))
        rs
    → All (λ (r : String × ℕ × Option ℕ). bucket r.0 h.buckets ≡ in_range r.1 r.2 samples) rs
each_range samples h [] s f = tt
each_range samples h (r ∷ rs) s f =
    (s.tallies r.0 ∙ same_sum samples, each_range samples h rs s f.1)
  where
    same_sum : (xs : List ℕ) → tally r.0 xs ≡ in_range r.1 r.2 xs
    same_sum [] = refl
    same_sum (x ∷ xs) = rw (matched_iff r.0 x boundaries, f.0 x) (omega (arith, same_sum xs))

-- Samples recorded one by one into a new histogram: no recording fails, the count is their number, the
-- sum, the least and the greatest are theirs, and every bucket has as many as there are samples above
-- the boundary before it and not above its own: those of at most 1 ms, of more than 1 and at most 5 ms,
-- and so on, and in the last bucket those of more than 5 s.
pub record_all-CountsRanges :
    (samples : List ℕ)
    → (h : Histogram) × (record_all samples ≡ some h)
      × (h.count ≡ length samples)
      × (h.sum ≡ sum_by (λ x. x) samples)
      × (h.least ≡ least_of samples)
      × (h.greatest ≡ greatest_of samples)
      × CountsRanges samples h
record_all-CountsRanges samples =
    let (h, e, s) = record_all-Summarises samples in
    (h, e, s.count, s.sum, s.least, s.greatest, each_range samples h ranges s falls)
