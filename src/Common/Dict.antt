-- ===== src/Common/Dict.antt =====
-- Python's `dict` and `OrderedDict`: an association list in insertion order.
use Prim.Native.Nat.{ℕ, ◌+◌, ◌≤◌, ◌<◌}
use mathlib.Core.Path.{◌≡◌, refl, sym, ap, ◌∙◌}
use mathlib.Core.Logic.{inl, inr}
use mathlib.Core.Bool.{Bool, true, false}
use mathlib.Core.Option.{Option, none, some}
use mathlib.Core.List.{List, [], ◌∷◌, ◌++◌}
use native.Mathlib.Omega.{arith}
use avengers_fyp_is.Common.Tests.{KeyEq, ◌==◌, if◌then◌else◌, Bool-cases, Option-cases}
use avengers_fyp_is.Common.Lists.{length, trim, trim-append}

abbrev pub Dict {ℓ κ} : Type ℓ → Type κ → Type (ℓ ⊔ κ)
Dict K V = List (K × V)

module _ {ℓ κ} {K : Type ℓ} {V : Type κ} ⦃e : KeyEq K⦄ where
  -- `d.get(k)`
  abbrev pub lookup : K → Dict K V → Option V
  lookup k [] = none
  lookup k ((j, v) ∷ d) = if k == j then some v else lookup k d

  -- `k in d`
  abbrev pub contains : K → Dict K V → Bool
  contains k d = elim (lookup k d) [ none ↦ false | some _ ↦ true ]

  -- `d[k] = v`: an old key keeps its place, a new one goes to the end.
  abbrev pub insert : K → V → Dict K V → Dict K V
  insert k v [] = (k, v) ∷ []
  insert k v ((j, w) ∷ d) = if k == j then (k, v) ∷ d else (j, w) ∷ insert k v d

  -- `d.pop(k, None)`, `del d[k]`
  abbrev pub erase : K → Dict K V → Dict K V
  erase k [] = []
  erase k ((j, w) ∷ d) = let rest = erase k d in if k == j then rest else (j, w) ∷ rest

module _ {ℓ κ} {K : Type ℓ} {V : Type κ} ⦃e : KeyEq K⦄ where
  pub lookup-insert :
      (j k : K) (v : V) (d : Dict K V)
      → lookup j (insert k v d) ≡ (if j == k then some v else lookup j d)
  lookup-insert j k v [] = refl
  lookup-insert j k v ((i, w) ∷ d) =
      ground (arith, lookup-insert j k v d, e.same_iff j k, e.same_iff k i, e.same_iff j i)

  pub lookup-erase :
      (j k : K) (d : Dict K V) → lookup j (erase k d) ≡ (if j == k then none else lookup j d)
  lookup-erase j k [] = ground arith
  lookup-erase j k ((i, w) ∷ d) =
      ground (arith, lookup-erase j k d, e.same_iff j k, e.same_iff k i, e.same_iff j i)

  pub lookup-append :
      (j k : K) (v : V) (d : Dict K V)
      → lookup j d ≡ none
      → lookup j (d ++ (k, v) ∷ []) ≡ (if j == k then some v else none)
  lookup-append j k v [] h = refl
  lookup-append j k v ((i, w) ∷ d) h = ground (arith, lookup-append j k v d)

module _ {ℓ κ} {K : Type ℓ} {V : Type κ} ⦃e : KeyEq K⦄ where
  pub lookup-suffix : (k : K) (gone d : Dict K V) → lookup k (gone ++ d) ≡ none → lookup k d ≡ none
  lookup-suffix k [] d h = h
  lookup-suffix k ((j, r) ∷ gone) d h = elim (Bool-cases (k == j)) [
    | inl same ↦ absurd (ground (arith, h, same))
    | inr other ↦ lookup-suffix k gone d (rw other at h)
  ]

  -- An entry moved to the end stays when the front is cut to a positive size.
  pub lookup-renewed :
      (n : ℕ) (k : K) (v : V) (d : Dict K V)
      → 1 ≤ n
      → lookup k (trim n (erase k d ++ ((k, v) ∷ []))) ≡ some v
  lookup-renewed n k v d h =
      let (gone, kept, split, cut) = trim-append n (erase k d) ((k, v) ∷ []) (omega arith) in
      let same : (k == k) ≡ true = ground (arith, e.same_iff k k) in
      let erased : lookup k (erase k d) ≡ none = lookup-erase k k d ∙ rw same refl in
      rw cut (lookup-append k k v kept (lookup-suffix k gone kept (rw split erased)) ∙ rw same refl)

module _ {ℓ κ} {K : Type ℓ} {V : Type κ} ⦃e : KeyEq K⦄ where
  pub contains-insert :
      (j k : K) (v : V) (d : Dict K V)
      → contains j (insert k v d) ≡ (if j == k then true else contains j d)
  contains-insert j k v d = elim (Bool-cases (j == k)) [
    | inl same ↦ rw (contains, lookup-insert j k v d, same)
    | inr other ↦ rw (contains, lookup-insert j k v d, other)
  ]

  pub contains-erase :
      (j k : K) (d : Dict K V) → contains j (erase k d) ≡ (if j == k then false else contains j d)
  contains-erase j k d = elim (Bool-cases (j == k)) [
    | inl same ↦ rw (contains, lookup-erase j k d, same)
    | inr other ↦ rw (contains, lookup-erase j k d, other)
  ]

  pub contains-none : (k : K) (d : Dict K V) → lookup k d ≡ none → contains k d ≡ false
  contains-none k d h = rw (contains, h)

  pub contains-some : (k : K) (v : V) (d : Dict K V) → lookup k d ≡ some v → contains k d ≡ true
  contains-some k v d h = rw (contains, h)

  pub lookup-absent : (k : K) (d : Dict K V) → contains k d ≡ false → lookup k d ≡ none
  lookup-absent k d h = elim (Option-cases (lookup k d)) [
    | inl none_there ↦ none_there
    | inr (v, there) ↦ absurd (cc (h, contains-some k v d there))
  ]

  pub contains-same :
      (k : K) (d d' : Dict K V) → lookup k d ≡ lookup k d' → contains k d ≡ contains k d'
  contains-same k d d' h = ap (λ o. elim o [ none ↦ false | some _ ↦ true ]) h

  pub contains-cons :
      (j k : K) (v : V) (d : Dict K V)
      → contains j ((k, v) ∷ d) ≡ (if j == k then true else contains j d)
  contains-cons j k v d = elim (Bool-cases (j == k)) [
    | inl same ↦ rw (contains, same) refl
    | inr other ↦ rw (contains, other) refl
  ]

  pub length-erase : (k : K) (d : Dict K V) → length (erase k d) ≤ length d
  length-erase k [] = omega arith
  length-erase k ((j, w) ∷ d) = ground (arith, length-erase k d)

  pub length-erase-contains :
      (k : K) (d : Dict K V) → contains k d ≡ true → length (erase k d) < length d
  length-erase-contains k [] h = absurd (cc h)
  length-erase-contains k ((j, w) ∷ d) h = elim (Bool-cases (k == j)) [
    | inl same ↦ rw same (omega (arith, length-erase k d))
    | inr other ↦
        let rest : contains k d ≡ true = sym (contains-cons k j w d ∙ rw other refl) ∙ h in
        rw other (omega (arith, length-erase-contains k d rest))
  ]

  pub length-insert : (k : K) (v : V) (d : Dict K V) → length (insert k v d) ≤ length d + 1
  length-insert k v [] = omega arith
  length-insert k v ((j, w) ∷ d) = ground (arith, length-insert k v d)

  pub length-insert-contains :
      (k : K) (v : V) (d : Dict K V) → contains k d ≡ true → length (insert k v d) ≡ length d
  length-insert-contains k v [] h = absurd (cc h)
  length-insert-contains k v ((j, w) ∷ d) h = elim (Bool-cases (k == j)) [
    | inl same ↦ rw same refl
    | inr other ↦
        let rest : contains k d ≡ true = sym (contains-cons k j w d ∙ rw other refl) ∙ h in
        rw other (omega (arith, length-insert-contains k v d rest))
  ]
