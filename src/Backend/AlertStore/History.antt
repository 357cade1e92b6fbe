-- ===== src/Backend/AlertStore/History.antt =====
-- The ids of the resolved alerts: what `remove` and `_evict_resolved_if_needed` leave of them.
use text.Mathlib.TextEquality.{eq_iff}
use avengers_fyp_is.Common.{
  ℕ, ◌+◌, ◌≤◌, ◌<◌, ◌≡◌, refl, sym, ap, ◌∙◌, inl, inr, true, false, ◌&&◌, String, List, [], ◌∷◌,
  ◌++◌, none, arith, occurrences, occurrences-append, ltb, ltb→lt, ltb-false, length, length-append,
  min, string_eq, ◌==◌, Bool-cases, if◌then◌else◌,
}
use avengers_fyp_is.Common.Dict.{
  Dict, lookup, contains, insert, erase, lookup-erase, contains-insert, contains-erase,
  contains-none, contains-same,
}
use avengers_fyp_is.Backend.AlertStore.Records.{StoredAlert}
use avengers_fyp_is.Backend.AlertStore.Defs.{remove, evict_resolved}

pub same_id : (k : String) → (k == k) ≡ true
same_id k = ground (arith, eq_iff k k)

pub remove-others :
    (k j : String) (ids : List String)
    → (k == j) ≡ false
    → occurrences k (remove j ids) ≡ occurrences k ids
remove-others k j [] h = refl
remove-others k j (x ∷ ids) h =
    ground (arith, remove-others k j ids h, eq_iff k j, eq_iff k x, eq_iff j x)

pub remove-own :
    (k j : String) (ids : List String)
    → (k == j) ≡ true
    → occurrences k ids ≤ 1
    → occurrences k (remove j ids) ≡ 0
remove-own k j [] same h = refl
remove-own k j (x ∷ ids) same h =
    ground (arith, remove-own k j ids same, h, eq_iff k j, eq_iff k x, eq_iff j x)

pub length-remove : (k : String) (ids : List String) → length (remove k ids) ≤ length ids
length-remove k [] = omega arith
length-remove k (x ∷ ids) = ground (arith, length-remove k ids)

-- How many ids are listed behind the first occurrence of `k`.
abbrev pub newer : String → List String → ℕ
newer k [] = 0
newer k (j ∷ ids) = if k == j then length ids else newer k ids

pub newer-remove :
    (k j : String) (ids : List String) → (k == j) ≡ false → newer k (remove j ids) ≤ newer k ids
newer-remove k j [] h = omega arith
newer-remove k j (x ∷ ids) h =
    ground (arith, newer-remove k j ids h, length-remove j ids, eq_iff k j, eq_iff k x, eq_iff j x)

pub newer-append : (k j : String) (ids : List String) → newer k (ids ++ (j ∷ [])) ≤ newer k ids + 1
newer-append k j [] = ground arith
newer-append k j (x ∷ ids) = ground (arith, newer-append k j ids, length-append {0} ids (j ∷ []))

newer-gone :
    (k : String) (gone ids : List String)
    → 0 < occurrences k gone
    → length ids ≤ newer k (gone ++ ids)
newer-gone k [] ids h = absurd (omega arith)
newer-gone k (x ∷ gone) ids h = ground (arith, newer-gone k gone ids, h, length-append {0} gone ids)

pub newer-kept :
    (k : String) (gone ids : List String)
    → occurrences k gone ≡ 0
    → newer k (gone ++ ids) ≡ newer k ids
newer-kept k [] ids h = refl
newer-kept k (x ∷ gone) ids h = ground (arith, newer-kept k gone ids, h)

newer-length : (k : String) (ids : List String) → 0 < occurrences k ids → newer k ids < length ids
newer-length k [] h = absurd (omega arith)
newer-length k (x ∷ ids) h = ground (arith, newer-length k ids, h)

module _ {V : Type 0} where
  -- What eviction leaves: the newest ids, as many as the limit allows, and of the alerts those whose id
  -- is not gone.
  pub record Evicted (limit : ℕ) (ids : List String) (stored : Dict String (StoredAlert V))
      (r : List String × Dict String (StoredAlert V)) : Type 0 where
    pub gone : List String
    pub split : gone ++ r.0 ≡ ids
    pub size : length r.0 ≡ min limit (length ids)
    pub kept :
        (k : String) → lookup k r.1 ≡ (if ltb 0 (occurrences k gone) then none else lookup k stored)

  pub evict_resolved-Evicted :
      (limit : ℕ) (ids : List String) (stored : Dict String (StoredAlert V))
      → Evicted limit ids stored (evict_resolved limit ids stored)
  unfolding evict_resolved
  evict_resolved-Evicted limit [] stored = record {
    gone = [];
    split = refl;
    size = omega arith;
    kept = λ k. refl;
  }
  evict_resolved-Evicted limit (oldest ∷ ids) stored =
      elim (Bool-cases (ltb limit (length (oldest ∷ ids)))) [
        | inl over ↦
            let e = evict_resolved-Evicted limit ids (erase oldest stored) in
            rw over (record {
              gone = oldest ∷ e.gone;
              split = ap (λ l. oldest ∷ l) e.split;
              size = ground (arith, e.size, over);
              kept = λ k. e.kept k ∙ ground (arith, lookup-erase k oldest stored);
            })
        | inr fits ↦
            rw fits
              (record { gone = []; split = refl; size = ground (arith, fits); kept = λ k. refl })
      ]

  -- The history lists each alert once and no other.
  abbrev pub Listed : List String → Dict String (StoredAlert V) → Type 0
  Listed ids stored = (k : String) → occurrences k ids ≡ (if contains k stored then 1 else 0)

  pub remove-Listed :
      (k : String) (ids : List String) (stored : Dict String (StoredAlert V))
      → Listed ids stored
      → Listed (remove k ids) (erase k stored)
  remove-Listed k ids stored h j = elim (Bool-cases (j == k)) [
    | inl same ↦
        let small : occurrences j ids ≤ 1 = ground (arith, h j) in
        rw (contains-erase j k stored, same) (remove-own j k ids same small)
    | inr other ↦ rw (contains-erase j k stored, other) (remove-others j k ids other ∙ h j)
  ]

  pub append-Listed :
      (k : String) (s : StoredAlert V) (ids : List String) (stored : Dict String (StoredAlert V))
      → Listed ids stored
      → contains k stored ≡ false
      → Listed (ids ++ (k ∷ [])) (insert k s stored)
  append-Listed k s ids stored h new j = elim (Bool-cases (j == k)) [
    | inl same ↦
        let fresh : contains j stored ≡ false = rw ((eq_iff j k).0 same) new in
        rw (contains-insert j k s stored, same)
          (ground (arith, occurrences-append j ids (k ∷ []), h j, fresh, same))
    | inr other ↦
        rw (contains-insert j k s stored, other)
          (ground (arith, occurrences-append j ids (k ∷ []), h j, other))
  ]

  pub evicted-Listed :
      (limit : ℕ) (ids : List String) (stored : Dict String (StoredAlert V))
      → Listed ids stored
      → let r = evict_resolved limit ids stored in Listed r.0 r.1
  evicted-Listed limit ids stored h j =
      let r = evict_resolved limit ids stored in
      let e = evict_resolved-Evicted limit ids stored in
      let both = ap (occurrences j) e.split in
      let sum = occurrences-append j e.gone r.0 in
      elim (Bool-cases (ltb 0 (occurrences j e.gone))) [
        | inl gone ↦
            let out : lookup j r.1 ≡ none = e.kept j ∙ rw gone refl in
            ground (arith, both, sum, h j, gone, contains-none j r.1 out)
        | inr stays ↦
            let same = contains-same j r.1 stored (e.kept j ∙ rw stays refl) in
            ground (arith, both, sum, h j, stays, same)
      ]

  -- An id that is in the first dictionary is not in the second.
  abbrev pub Apart : Dict String (StoredAlert V) → Dict String (StoredAlert V) → Type 0
  Apart d d' = (k : String) → (contains k d && contains k d') ≡ false

  pub insert-Apart :
      (k : String) (s : StoredAlert V) (d d' : Dict String (StoredAlert V))
      → Apart d d'
      → contains k d' ≡ false
      → Apart (insert k s d) d'
  insert-Apart k s d d' h new j = elim (Bool-cases (j == k)) [
    | inl same ↦
        let fresh : contains j d' ≡ false = rw ((eq_iff j k).0 same) new in
        ground (arith, contains-insert j k s d, fresh)
    | inr other ↦ ground (arith, contains-insert j k s d, other, h j)
  ]

  pub evicted-Apart :
      (limit : ℕ) (ids : List String) (stored d : Dict String (StoredAlert V))
      → Apart stored d
      → Apart d (evict_resolved limit ids stored).1
  evicted-Apart limit ids stored d h j =
      let r = evict_resolved limit ids stored in
      let e = evict_resolved-Evicted limit ids stored in
      elim (Bool-cases (ltb 0 (occurrences j e.gone))) [
        | inl gone ↦
            let out : lookup j r.1 ≡ none = e.kept j ∙ rw gone refl in
            ground (arith, contains-none j r.1 out)
        | inr stays ↦
            let same = contains-same j r.1 stored (e.kept j ∙ rw stays refl) in
            ground (arith, same, h j)
      ]

  -- An id with fewer than `limit` newer ones is not evicted.
  pub recent-stays :
      (limit : ℕ) (k : String) (ids : List String) (stored : Dict String (StoredAlert V))
      → 0 < occurrences k ids
      → newer k ids < limit
      → let r = evict_resolved limit ids stored in
        (lookup k r.1 ≡ lookup k stored) × (newer k r.0 ≡ newer k ids)
  recent-stays limit k ids stored some_there few =
      let r = evict_resolved limit ids stored in
      let e = evict_resolved-Evicted limit ids stored in
      elim (Bool-cases (ltb 0 (occurrences k e.gone))) [
        | inl gone ↦ absurd (
            omega (
              arith,
              newer-gone k e.gone r.0 (ltb→lt 0 (occurrences k e.gone) gone),
              ap (newer k) e.split,
              e.size,
              newer-length k ids some_there,
            ))
        | inr stays ↦
            let zero_gone = ltb-false 0 (occurrences k e.gone) stays in
            (
              e.kept k ∙ rw stays refl,
              sym (newer-kept k e.gone r.0 (omega arith)) ∙ ap (newer k) e.split,
            )
      ]
