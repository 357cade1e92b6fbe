-- ===== src/Metrics/Histogram/Merge.antt =====
-- A histogram as the summary of its samples: recording adds a sample, merging puts the samples together.
use text.Mathlib.TextEquality.{eq_iff}
use avengers_fyp_is.Common.{
  ℕ, ◌+◌, ◌≡◌, refl, ap, ◌∙◌, inl, inr, true, String, List, [], ◌∷◌, ◌++◌, Option, none, some,
  arith, leb, length, length-append, sum_by, sum_by-append, string_eq, ◌==◌, Bool-cases,
  Option-cases, if◌then◌else◌,
}
use avengers_fyp_is.Common.Dict.{Dict, lookup, contains, insert, contains-insert, contains-none}
use avengers_fyp_is.Metrics.Histogram.Defs.{
  Histogram, boundaries, overflow_bucket, empty_buckets, empty_histogram, bucket_of, min_or, max_or,
  record_value, or_zero, add_buckets, merge_least, merge_greatest, merge,
}
use avengers_fyp_is.Metrics.Histogram.Buckets.{
  bucket, Unique, bucket-insert, insert-Unique, add_buckets-Unique, bucket-add_buckets,
}

abbrev pub least_of : List ℕ → Option ℕ
least_of [] = none
least_of (x ∷ xs) = some (min_or x (least_of xs))

abbrev pub greatest_of : List ℕ → Option ℕ
greatest_of [] = none
greatest_of (x ∷ xs) = some (max_or x (greatest_of xs))

-- How many samples fall into a bucket.
abbrev pub tally : String → List ℕ → ℕ
tally key samples = sum_by (λ x. if key == bucket_of x boundaries then 1 else 0) samples

-- The histogram is that of the samples, in whatever order they came.
pub record Summarises (samples : List ℕ) (h : Histogram) : Type 0 where
  pub count : h.count ≡ length samples
  pub sum : h.sum ≡ sum_by (λ x. x) samples
  pub least : h.least ≡ least_of samples
  pub greatest : h.greatest ≡ greatest_of samples
  pub tallies : (key : String) → bucket key h.buckets ≡ tally key samples
  pub unique : Unique h.buckets
  pub total : (x : ℕ) → contains (bucket_of x boundaries) h.buckets ≡ true

contains-cons :
    (k j : String) (n : ℕ) (buckets : Dict String ℕ)
    → contains k ((j, n) ∷ buckets) ≡ (if k == j then true else contains k buckets)
contains-cons k j n buckets = elim (Bool-cases (k == j)) [
  | inl same ↦ rw (contains, same) refl
  | inr other ↦ rw (contains, other) refl
]

has_bucket :
    (x : ℕ) (bounds : List (String × ℕ))
    → contains (bucket_of x bounds) (empty_buckets bounds) ≡ true
unfolding bucket_of
has_bucket x [] = refl
has_bucket x ((key, boundary) ∷ bounds) = elim (Bool-cases (leb x boundary)) [
  | inl here ↦
      rw here (contains-cons key key 0 (empty_buckets bounds) ∙ ground (arith, eq_iff key key))
  | inr later ↦
      let rest = has_bucket x bounds in
      rw later
        (contains-cons (bucket_of x bounds) key 0 (empty_buckets bounds) ∙ ground (arith, rest))
]

bucket-empty_buckets :
    (key : String) (bounds : List (String × ℕ)) → bucket key (empty_buckets bounds) ≡ 0
bucket-empty_buckets key [] = elim (Bool-cases (key == overflow_bucket)) [
  | inl same ↦ rw same refl
  | inr other ↦ rw other refl
]
bucket-empty_buckets key ((j, boundary) ∷ bounds) = elim (Bool-cases (key == j)) [
  | inl same ↦ rw same refl
  | inr other ↦ rw other (bucket-empty_buckets key bounds)
]

pub empty-Summarises : Summarises [] empty_histogram
empty-Summarises = record {
  count = refl;
  sum = refl;
  least = refl;
  greatest = refl;
  tallies = λ key. bucket-empty_buckets key boundaries;
  unique =
      (refl, (refl, (refl, (refl, (refl, (refl, (refl, (refl, (refl, (refl, (refl, tt)))))))))));
  total = λ x. has_bucket x boundaries;
}

-- Recording does not fail, and adds its value to the samples.
pub record_value-Summarises :
    (x : ℕ) (samples : List ℕ) (h : Histogram)
    → Summarises samples h
    → (h' : Histogram) × (record_value x h ≡ some h') × Summarises (x ∷ samples) h'
unfolding record_value
record_value-Summarises x samples h s =
    let key = bucket_of x boundaries in
    elim (Option-cases (lookup key h.buckets)) [
      | inl absent ↦ absurd (cc (contains-none key h.buckets absent, s.total x))
      | inr (n, there) ↦
          let buckets = insert key (n + 1) h.buckets in
          let h' : Histogram = record {
            count = h.count + 1;
            sum = h.sum + x;
            least = some (min_or x h.least);
            greatest = some (max_or x h.greatest);
            buckets = buckets;
          } in
          (
            h',
            rw (record_value, there) refl,
            record {
              count = omega (arith, s.count);
              sum = omega (arith, s.sum);
              least = ap (λ o. some (min_or x o)) s.least;
              greatest = ap (λ o. some (max_or x o)) s.greatest;
              tallies = λ j.
                  let before = s.tallies j in
                  let after = bucket-insert j key (n + 1) h.buckets in
                  elim (Bool-cases (j == key)) [
                    | inl same ↦
                        let e : j ≡ key = (eq_iff j key).0 same in
                        let old : bucket j h.buckets ≡ n = rw e (ap or_zero there) in
                        let new : bucket j buckets ≡ n + 1 = after ∙ rw same refl in
                        rw same (omega (arith, before, old, new))
                    | inr other ↦
                        let new : bucket j buckets ≡ bucket j h.buckets = after ∙ rw other refl in
                        rw other (omega (arith, before, new))
                  ];
              unique = insert-Unique key (n + 1) h.buckets s.unique;
              total = λ y.
                  let k = bucket_of y boundaries in
                  let c = contains-insert k key (n + 1) h.buckets in
                  elim (Bool-cases (k == key)) [
                    | inl same ↦ c ∙ rw same refl
                    | inr other ↦ c ∙ rw other (s.total y)
                  ];
            },
          )
    ]

least_of-append : (xs ys : List ℕ) → merge_least (least_of xs) (least_of ys) ≡ least_of (xs ++ ys)
least_of-append [] [] = refl
least_of-append [] (y ∷ ys) = refl
least_of-append (x ∷ xs) ys =
    least_assoc x (least_of xs) (least_of ys) ∙ ap (λ o. some (min_or x o)) (least_of-append xs ys)
  where
    least_assoc :
        (x : ℕ) (o p : Option ℕ)
        → merge_least (some (min_or x o)) p ≡ some (min_or x (merge_least o p))
    least_assoc x none none = refl
    least_assoc x none (some p) = ap some (omega arith)
    least_assoc x (some o) none = refl
    least_assoc x (some o) (some p) = ap some (omega arith)

greatest_of-append :
    (xs ys : List ℕ) → merge_greatest (greatest_of xs) (greatest_of ys) ≡ greatest_of (xs ++ ys)
greatest_of-append [] [] = refl
greatest_of-append [] (y ∷ ys) = refl
greatest_of-append (x ∷ xs) ys =
    greatest_assoc x (greatest_of xs) (greatest_of ys)
    ∙ ap (λ o. some (max_or x o)) (greatest_of-append xs ys)
  where
    greatest_assoc :
        (x : ℕ) (o p : Option ℕ)
        → merge_greatest (some (max_or x o)) p ≡ some (max_or x (merge_greatest o p))
    greatest_assoc x none none = refl
    greatest_assoc x none (some p) = ap some (omega arith)
    greatest_assoc x (some o) none = refl
    greatest_assoc x (some o) (some p) = ap some (omega arith)

contains-add_buckets :
    (key : String) (mine other : Dict String ℕ)
    → contains key mine ≡ true
    → contains key (add_buckets mine other) ≡ true
unfolding add_buckets
contains-add_buckets key mine [] h = h
contains-add_buckets key mine ((j, n) ∷ other) h =
    contains-add_buckets key (insert j (bucket j mine + n) mine) other
      (contains-insert key j (bucket j mine + n) mine ∙ ground (arith, h))

-- Merging the histograms of two collections of samples, those of two windows or of two agents, gives the
-- histogram of all the samples: the count, the sum, the least, the greatest and the number in every
-- bucket are as if all had been recorded by one.
pub merge-Summarises :
    (xs ys : List ℕ) (h g : Histogram)
    → Summarises xs h
    → Summarises ys g
    → Summarises (xs ++ ys) (merge h g)
unfolding merge
merge-Summarises xs ys h g s t = record {
  count = omega (arith, s.count, t.count, length-append {0} xs ys);
  sum = omega (arith, s.sum, t.sum, sum_by-append {0} (λ x. x) xs ys);
  least = rw (s.least, t.least) (least_of-append xs ys);
  greatest = rw (s.greatest, t.greatest) (greatest_of-append xs ys);
  tallies = λ key. omega (
    arith,
    bucket-add_buckets key h.buckets g.buckets t.unique,
    s.tallies key,
    t.tallies key,
    sum_by-append {0} (λ x. if key == bucket_of x boundaries then 1 else 0) xs ys,
  );
  unique = add_buckets-Unique h.buckets g.buckets s.unique;
  total = λ x. contains-add_buckets (bucket_of x boundaries) h.buckets g.buckets (s.total x);
}

-- `record` over a list of samples
abbrev pub record_all : List ℕ → Option Histogram
record_all [] = some empty_histogram
record_all (x ∷ xs) = elim (record_all xs) [ none ↦ none | some h ↦ record_value x h ]

-- Samples recorded one by one into a new histogram: no recording fails, the count is their number, the
-- sum, the least and the greatest are theirs, and every bucket has as many as fall into it.
pub record_all-Summarises :
    (samples : List ℕ) → (h : Histogram) × (record_all samples ≡ some h) × Summarises samples h
record_all-Summarises [] = (empty_histogram, refl, empty-Summarises)
record_all-Summarises (x ∷ xs) =
    let (h, e, s) = record_all-Summarises xs in
    let (h', e', s') = record_value-Summarises x xs h s in (h', rw e e', s')
