-- ===== src/Backend/AlertStore/Listing.antt =====
-- What `list_alerts` returns, and in which order.
use mathlib.Core.List.{append_assoc}
use avengers_fyp_is.Common.{
  ℕ, ◌≤◌, ◌≡◌, refl, sym, ap, ◌∙◌, inl, inr, Bool, List, [], ◌∷◌, ◌++◌, arith, ltb, leb, leb→le,
  leb-false, length, drop, length-take, length-drop, take-append-drop, min, All, Bool-cases,
}
use avengers_fyp_is.Backend.AlertStore.Records.{AlertRecord, InstanceAlerts}
use avengers_fyp_is.Backend.AlertStore.Defs.{AlertStore}
use avengers_fyp_is.Backend.AlertStore.Passing.{Passes, Parts, candidates-Parts}
use avengers_fyp_is.Backend.AlertStore.Query.{
  StatusFilter, active, resolved, all, Filters, active_records, resolved_records, include_active,
  include_resolved, candidates, place_newest, newest_first, all_records, count_if, list_alerts,
}

module _ {V : Type 0} where
  abbrev NotNewer : ℕ → List (AlertRecord V) → Type 0
  NotNewer at records = All (λ r. r.last_observed ≤ at) records

  -- No record is newer than one before it.
  abbrev pub Descending : List (AlertRecord V) → Type 0
  Descending [] = Unit
  Descending (r ∷ records) = NotNewer r.last_observed records × Descending records

  older-NotNewer :
      (a b : ℕ) (records : List (AlertRecord V)) → a ≤ b → NotNewer a records → NotNewer b records
  older-NotNewer a b [] h n = tt
  older-NotNewer a b (r ∷ records) h n = (omega (arith, n.0), older-NotNewer a b records h n.1)

  place_newest-NotNewer :
      (at : ℕ) (r : AlertRecord V) (records : List (AlertRecord V))
      → r.last_observed ≤ at
      → NotNewer at records
      → NotNewer at (place_newest r records)
  unfolding place_newest
  place_newest-NotNewer at r [] h n = (h, tt)
  place_newest-NotNewer at r (s ∷ records) h n =
      elim (Bool-cases (leb s.last_observed r.last_observed)) [
        | inl first ↦ rw first (h, n)
        | inr later ↦ rw later (n.0, place_newest-NotNewer at r records h n.1)
      ]

  place_newest-Descending :
      (r : AlertRecord V) (records : List (AlertRecord V))
      → Descending records
      → Descending (place_newest r records)
  unfolding place_newest
  place_newest-Descending r [] d = (tt, tt)
  place_newest-Descending r (s ∷ records) d =
      elim (Bool-cases (leb s.last_observed r.last_observed)) [
        | inl first ↦
            let older = leb→le s.last_observed r.last_observed first in
            rw first ((older, older-NotNewer s.last_observed r.last_observed records older d.0), d)
        | inr later ↦
            let older = leb-false s.last_observed r.last_observed later in
            rw later (
              place_newest-NotNewer s.last_observed r records (omega arith) d.0,
              place_newest-Descending r records d.1,
            )
      ]

  newest_first-Descending : (records : List (AlertRecord V)) → Descending (newest_first records)
  unfolding newest_first
  newest_first-Descending [] = tt
  newest_first-Descending (r ∷ records) =
      place_newest-Descending r (newest_first records) (newest_first-Descending records)

  count_if-place_newest :
      (f : AlertRecord V → Bool) (r : AlertRecord V) (records : List (AlertRecord V))
      → count_if f (place_newest r records) ≡ count_if f (r ∷ records)
  unfolding place_newest
  count_if-place_newest f r [] = refl
  count_if-place_newest f r (s ∷ records) =
      elim (Bool-cases (leb s.last_observed r.last_observed)) [
        | inl first ↦ rw first refl
        | inr later ↦ rw later (omega (arith, count_if-place_newest f r records))
      ]

  count_if-newest_first :
      (f : AlertRecord V → Bool) (records : List (AlertRecord V))
      → count_if f (newest_first records) ≡ count_if f records
  unfolding newest_first
  count_if-newest_first f [] = refl
  count_if-newest_first f (r ∷ records) =
      count_if-place_newest f r (newest_first records)
      ∙ omega (arith, count_if-newest_first f records)

  -- The records in the collections that the status asks for.
  abbrev pub held : StatusFilter → InstanceAlerts V → List (AlertRecord V)
  held active i = active_records i.active
  held resolved i = resolved_records i.resolved i.resolved_map
  held all i = active_records i.active ++ resolved_records i.resolved i.resolved_map

  abbrev pub asked : StatusFilter → AlertStore V → List (AlertRecord V)
  asked status [] = []
  asked status ((instance_id, i) ∷ store) = held status i ++ asked status store

  all_records-asked :
      (status : StatusFilter) (store : AlertStore V)
      → all_records (include_active status) (include_resolved status) store ≡ asked status store
  unfolding all_records
  all_records-asked status [] = refl
  all_records-asked active ((instance_id, i) ∷ store) =
      ap (λ l. active_records i.active ++ l) (all_records-asked active store)
  all_records-asked resolved ((instance_id, i) ∷ store) =
      ap (λ l. resolved_records i.resolved i.resolved_map ++ l) (all_records-asked resolved store)
  all_records-asked all ((instance_id, i) ∷ store) =
      ap (λ l. active_records i.active ++ (resolved_records i.resolved i.resolved_map ++ l))
        (all_records-asked all store)
      ∙ sym (
          append_assoc (active_records i.active) (resolved_records i.resolved i.resolved_map)
            (asked all store))

  All-place_newest :
      (A : AlertRecord V → Type 0) (r : AlertRecord V) (records : List (AlertRecord V))
      → A r
      → All A records
      → All A (place_newest r records)
  unfolding place_newest
  All-place_newest A r [] a h = (a, tt)
  All-place_newest A r (s ∷ records) a h = elim (Bool-cases (leb s.last_observed r.last_observed)) [
    | inl first ↦ rw first (a, h)
    | inr later ↦ rw later (h.0, All-place_newest A r records a h.1)
  ]

  All-newest_first :
      (A : AlertRecord V → Type 0) (records : List (AlertRecord V))
      → All A records
      → All A (newest_first records)
  unfolding newest_first
  All-newest_first A [] h = tt
  All-newest_first A (r ∷ records) h =
      All-place_newest A r (newest_first records) h.0 (All-newest_first A records h.1)

  -- Of the records in the collections that the status asks for, `list_alerts` returns the newest that have
  -- the status and pass every filter that is given, as many as the limit allows, the newest first: those
  -- returned and those left out behind them all pass, none is newer than one before it, the other records
  -- do not pass, and all three together are the records, each as often as it is stored. The answer says
  -- that it is truncated exactly when records that pass are left out, which happens only at the limit.
  pub list_alerts-newest :
      (status : StatusFilter) (f : Filters) (limit : ℕ) (store : AlertStore V)
      → let answer = list_alerts status f limit store in
        (rest : List (AlertRecord V)) × (others : List (AlertRecord V)) × Descending
          (answer.alerts ++ rest)
        × Parts status f (asked status store) (answer.alerts ++ rest) others
        × (length answer.alerts ≡ min limit (length (answer.alerts ++ rest)))
        × (answer.truncated ≡ ltb 0 (length rest))
  unfolding list_alerts
  list_alerts-newest status f limit store =
      let records = asked status store in
      let passing = candidates status f records in
      let sorted = newest_first passing in
      let whole = take-append-drop limit sorted in
      let (others, p) = candidates-Parts status f records in
      rw (all_records-asked status store) (
        drop limit sorted,
        others,
        rw whole (newest_first-Descending passing),
        rw whole (record {
          all_pass = All-newest_first (Passes status f) passing p.all_pass;
          none_passes = p.none_passes;
          each = λ test. omega (arith, count_if-newest_first test passing, p.each test);
        }),
        rw whole (length-take limit sorted),
        ground (arith, length-drop {0} limit sorted),
      )
