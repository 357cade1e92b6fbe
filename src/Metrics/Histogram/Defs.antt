-- ===== src/Metrics/Histogram/Defs.antt =====
-- The state of `Histogram`, `record`, `merge` and `percentile`.
use avengers_fyp_is.Common.{
  ℕ, ◌+◌, String, List, [], ◌∷◌, Option, none, some, leb, min, max, string_eq, if◌then◌else◌,
}
use avengers_fyp_is.Common.Dict.{Dict, lookup, insert}

pub record Histogram : Type 0 where
  pub count : ℕ
  pub sum : ℕ
  pub least : Option ℕ
  pub greatest : Option ℕ
  pub buckets : Dict String ℕ

-- A boundary in microseconds with the key of its bucket, which counts milliseconds.
abbrev pub boundaries : List (String × ℕ)
boundaries =
    ("1", 1000)
    ∷ ("5", 5000)
    ∷ ("10", 10000)
    ∷ ("25", 25000)
    ∷ ("50", 50000)
    ∷ ("100", 100000)
    ∷ ("250", 250000)
    ∷ ("500", 500000)
    ∷ ("1000", 1000000)
    ∷ ("5000", 5000000)
    ∷ []

abbrev pub overflow_bucket : String
overflow_bucket = "+Inf"

abbrev pub empty_buckets : List (String × ℕ) → Dict String ℕ
empty_buckets [] = (overflow_bucket, 0) ∷ []
empty_buckets ((key, boundary) ∷ rest) = (key, 0) ∷ empty_buckets rest

abbrev pub empty_histogram : Histogram
empty_histogram = record {
  count = 0;
  sum = 0;
  least = none;
  greatest = none;
  buckets = empty_buckets boundaries;
}

-- The first boundary that the value does not exceed, or the overflow bucket.
unfoldable pub bucket_of : ℕ → List (String × ℕ) → String
bucket_of value [] = overflow_bucket
bucket_of value ((key, boundary) ∷ rest) = if leb value boundary then key else bucket_of value rest

abbrev pub min_or : ℕ → Option ℕ → ℕ
min_or value none = value
min_or value (some least) = min least value

abbrev pub max_or : ℕ → Option ℕ → ℕ
max_or value none = value
max_or value (some greatest) = max greatest value

-- `self.buckets[key] += 1`, which fails for a key that is missing.
abbrev pub bump : String → Dict String ℕ → Option (Dict String ℕ)
bump key buckets = elim (lookup key buckets) [
  | none ↦ none
  | some n ↦ some (insert key (n + 1) buckets)
]

unfoldable pub record_value : ℕ → Histogram → Option Histogram
record_value value h = elim (bump (bucket_of value boundaries) h.buckets) [
  | none ↦ none
  | some buckets ↦ some (record {
    count = h.count + 1;
    sum = h.sum + value;
    least = some (min_or value h.least);
    greatest = some (max_or value h.greatest);
    buckets = buckets;
  })
]

-- `self.buckets.get(key, 0)`
abbrev pub or_zero : Option ℕ → ℕ
or_zero none = 0
or_zero (some n) = n

-- The loop of `merge` over `other.buckets.items()`.
unfoldable pub add_buckets : Dict String ℕ → Dict String ℕ → Dict String ℕ
add_buckets buckets [] = buckets
add_buckets buckets ((key, n) ∷ other) =
    add_buckets (insert key (or_zero (lookup key buckets) + n) buckets) other

abbrev pub merge_least : Option ℕ → Option ℕ → Option ℕ
merge_least mine none = mine
merge_least mine (some theirs) = some (min_or theirs mine)

abbrev pub merge_greatest : Option ℕ → Option ℕ → Option ℕ
merge_greatest mine none = mine
merge_greatest mine (some theirs) = some (max_or theirs mine)

unfoldable pub merge : Histogram → Histogram → Histogram
merge h other = record {
  count = h.count + other.count;
  sum = h.sum + other.sum;
  least = merge_least h.least other.least;
  greatest = merge_greatest h.greatest other.greatest;
  buckets = add_buckets h.buckets other.buckets;
}
