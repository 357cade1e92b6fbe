-- ===== src/Common/Recent.antt =====
-- An `OrderedDict` of times whose newest entries stand last, cut at the front to a size: how long an entry
-- stays.
use Prim.Native.Nat.{ℕ, suc, ◌≤◌, ◌<◌}
use mathlib.Core.List.{[], ◌∷◌, ◌++◌, append_assoc}
use mathlib.Core.Path.{◌≡◌, refl}
use mathlib.Core.Logic.{inl, inr}
use mathlib.Core.Bool.{true}
use mathlib.Core.Option.{none, some}
use native.Mathlib.Omega.{arith}
use avengers_fyp_is.Common.Tests.{KeyEq, ◌==◌, Bool-cases}
use avengers_fyp_is.Common.Lists.{length, length-append, trim, trim-append}
use avengers_fyp_is.Common.Dict.{Dict, lookup, erase, lookup-erase, lookup-suffix, length-erase}

module _ {K : Type 0} ⦃e : KeyEq K⦄ where
  -- The entry of `k` has a time of at least `at`, and at most `n` entries stand behind it.
  abbrev pub Holds : K → ℕ → ℕ → Dict K ℕ → Type 0
  Holds k at n seen =
      (front : Dict K ℕ) × (late : ℕ) × (back : Dict K ℕ) × (seen ≡ front ++ ((k, late) ∷ back))
      × (lookup k front ≡ none)
      × (at ≤ late)
      × (length back ≤ n)

  pub lookup-found :
      (k : K) (late : ℕ) (front back : Dict K ℕ)
      → lookup k front ≡ none
      → lookup k (front ++ ((k, late) ∷ back)) ≡ some late
  lookup-found k late [] back h = ground (arith, e.same_iff k k)
  lookup-found k late ((j, v) ∷ front) back h = ground (arith, lookup-found k late front back)

  erase-append : (j : K) (xs ys : Dict K ℕ) → erase j (xs ++ ys) ≡ erase j xs ++ erase j ys
  erase-append j [] ys = refl
  erase-append j ((i, v) ∷ xs) ys = ground (arith, erase-append j xs ys)

  -- An entry is taken out and put at the end with a time that is not too old.
  pub Holds-renew :
      (k j : K) (at n time : ℕ) (seen : Dict K ℕ)
      → ((j == k) ≡ true → at ≤ time)
      → Holds k at n seen
      → Holds k at (suc n) (erase j seen ++ ((j, time) ∷ []))
  Holds-renew k j at n time seen t (front, late, back, same_seen, f, a, b) =
      elim (Bool-cases (j == k)) [
        | inl same ↦
            let p = (e.same_iff j k).0 same in
            (
              erase j seen,
              time,
              [],
              rw p,
              rw lookup-erase (ground (arith, e.same_iff k j)),
              t same,
              omega arith,
            )
        | inr other ↦ (
          erase j front,
          late,
          erase j back ++ ((j, time) ∷ []),
          rw (same_seen, erase-append, other)
              (append_assoc (erase j front) ((k, late) ∷ erase j back) ((j, time) ∷ [])),
          rw lookup-erase (ground arith),
          a,
          omega (arith, length-append {0} (erase j back) ((j, time) ∷ []), length-erase j back),
        )
      ]

  pub Holds-trim :
      (k : K) (at n c : ℕ) (seen : Dict K ℕ)
      → n < c
      → Holds k at n seen
      → Holds k at n (trim c seen)
  Holds-trim k at n c seen h (front, late, back, same_seen, f, a, b) =
      let (gone, zs, split, cut) = trim-append c front ((k, late) ∷ back) (omega arith) in
      (zs, late, back, rw same_seen cut, lookup-suffix k gone zs (rw split f), a, b)
