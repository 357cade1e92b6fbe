-- ===== src/Metrics/Histogram/Buckets.antt =====
-- Dictionaries of counts: what `add_buckets` adds up.
use text.Mathlib.TextEquality.{eq_iff}
use avengers_fyp_is.Common.{
  ℕ, ◌+◌, ◌≡◌, refl, ap, ◌∙◌, inl, inr, false, String, [], ◌∷◌, none, arith, string_eq, ◌==◌,
  Bool-cases, if◌then◌else◌,
}
use avengers_fyp_is.Common.Dict.{
  Dict, lookup, contains, insert, lookup-insert, contains-insert, lookup-absent,
}
use avengers_fyp_is.Metrics.Histogram.Defs.{or_zero, add_buckets}

-- How many samples a bucket has.
abbrev pub bucket : String → Dict String ℕ → ℕ
bucket key buckets = or_zero (lookup key buckets)

-- A dictionary has a key once.
abbrev pub Unique : Dict String ℕ → Type 0
Unique [] = Unit
Unique ((key, n) ∷ buckets) = (contains key buckets ≡ false) × Unique buckets

pub bucket-insert :
    (j key : String) (n : ℕ) (buckets : Dict String ℕ)
    → bucket j (insert key n buckets) ≡ (if j == key then n else bucket j buckets)
bucket-insert j key n buckets = elim (Bool-cases (j == key)) [
  | inl same ↦ rw (lookup-insert j key n buckets, same) refl
  | inr other ↦ rw (lookup-insert j key n buckets, other) refl
]

pub insert-Unique :
    (key : String) (n : ℕ) (buckets : Dict String ℕ)
    → Unique buckets
    → Unique (insert key n buckets)
insert-Unique key n [] u = (refl, tt)
insert-Unique key n ((j, m) ∷ buckets) u = elim (Bool-cases (key == j)) [
  | inl same ↦ let e : key ≡ j = (eq_iff key j).0 same in rw same (rw e u.0, u.1)
  | inr other ↦
      let apart : (j == key) ≡ false = ground (arith, other, eq_iff key j, eq_iff j key) in
      rw other (contains-insert j key n buckets ∙ rw apart u.0, insert-Unique key n buckets u.1)
]

pub add_buckets-Unique :
    (mine other : Dict String ℕ) → Unique mine → Unique (add_buckets mine other)
unfolding add_buckets
add_buckets-Unique mine [] u = u
add_buckets-Unique mine ((key, n) ∷ other) u =
    add_buckets-Unique (insert key (bucket key mine + n) mine) other
      (insert-Unique key (bucket key mine + n) mine u)

-- Bucket-wise addition.
pub bucket-add_buckets :
    (key : String) (mine other : Dict String ℕ)
    → Unique other
    → bucket key (add_buckets mine other) ≡ bucket key mine + bucket key other
unfolding add_buckets
bucket-add_buckets key mine [] u = omega arith
bucket-add_buckets key mine ((j, n) ∷ other) u =
    let rest = bucket-add_buckets key (insert j (bucket j mine + n) mine) other u.1 in
    let first = bucket-insert key j (bucket j mine + n) mine in
    elim (Bool-cases (key == j)) [
      | inl same ↦
          let e : key ≡ j = (eq_iff key j).0 same in
          let absent : lookup key other ≡ none = rw e (lookup-absent j other u.0) in
          let here : bucket key (insert j (bucket j mine + n) mine) ≡ bucket key mine + n =
            first ∙ rw (same, e) refl in
          rw same (omega (arith, rest, here, ap or_zero absent))
      | inr apart ↦
          let here : bucket key (insert j (bucket j mine + n) mine) ≡ bucket key mine =
            first ∙ rw apart refl in
          rw apart (omega (arith, rest, here))
    ]
