-- ===== src/Backend/AlertStore/Runs.antt =====
-- A run of merges does not reopen a resolved alert, whatever comes after it.
use text.Mathlib.TextEquality.{eq_iff}
use mathlib.Core.Path.{subst}
use avengers_fyp_is.Common.{
  ℕ, suc, ◌+◌, ◌<◌, ◌≡◌, refl, inl, inr, false, String, List, [], ◌∷◌, ◌++◌, some, arith, length,
  string_eq, ◌==◌, Bool-cases,
}
use avengers_fyp_is.Common.Dict.{contains, lookup-absent}
use avengers_fyp_is.Backend.AlertStore.Records.{AlertEvent, Source, AlertStoreConfig, StoredAlert}
use avengers_fyp_is.Backend.AlertStore.Defs.{AlertStore, find, get_instance, merge_into, merge}
use avengers_fyp_is.Backend.AlertStore.History.{same_id}
use avengers_fyp_is.Backend.AlertStore.Merge.{get_instance-insert, AreValid, merge-AreValid}
use avengers_fyp_is.Backend.AlertStore.Resolved.{Resolved, weaken}
use avengers_fyp_is.Backend.AlertStore.Stays.{found, merge_into-Resolved, resolving-Resolved}

-- Merges in their order.
module _ {V : Type 0} (config : AlertStoreConfig) where
  abbrev pub run_merges : List (AlertEvent V × Source) → AlertStore V → AlertStore V
  run_merges [] store = store
  run_merges ((event, source) ∷ later) store = run_merges later (merge config event source store)

  pub run_merges-append :
      (xs ys : List (AlertEvent V × Source)) (store : AlertStore V)
      → run_merges (xs ++ ys) store ≡ run_merges ys (run_merges xs store)
  run_merges-append [] ys store = refl
  run_merges-append ((event, source) ∷ xs) ys store =
      run_merges-append xs ys (merge config event source store)

  run_merges-Resolved :
      (later : List (AlertEvent V × Source)) (n : ℕ) (k instance_id : String) (store : AlertStore V)
      → AreValid config store
      → n + length later < config.recent_alert_limit
      → Resolved n k (get_instance instance_id store)
      → Resolved (n + length later) k (get_instance instance_id (run_merges later store))
  unfolding merge
  run_merges-Resolved [] n k j store v room r = weaken n (n + 0) k _ (omega arith) r
  run_merges-Resolved ((event, source) ∷ later) n k j store v room r =
      let i' = merge_into config event source (get_instance event.instance_id store) in
      let e = get_instance-insert config j event.instance_id i' store in
      let step : Resolved (n + 1) k (get_instance j (merge config event source store)) =
        elim (Bool-cases (j == event.instance_id)) [
          | inl same ↦
              let same_place = (eq_iff j event.instance_id).0 same in
              rw (merge, e, same)
                (merge_into-Resolved config n k event source _ (v event.instance_id) (omega arith)
                  (subst (λ a. Resolved n k (get_instance a store)) same_place r))
          | inr other ↦ rw (merge, e, other) (weaken n (n + 1) k _ (omega arith) r)
        ] in
      weaken (n + 1 + length later) (n + suc (length later)) k _ (omega arith) (
        run_merges-Resolved later (n + 1) k j _ (merge-AreValid config event source store v)
          (omega arith) step)

  -- If the store is well formed, an event resolves an alert and fewer than `recent_alert_limit` events
  -- follow it, whatever they say and whichever alerts and instances they are about, then the alert is
  -- still stored as resolved and is not active: a late event does not reopen it.
  pub resolved_stays :
      (event : AlertEvent V) (source : Source) (later : List (AlertEvent V × Source))
      (store : AlertStore V)
      → AreValid config store
      → event.status ≡ "resolved"
      → length later < config.recent_alert_limit
      → let i =
          get_instance event.instance_id (run_merges later (merge config event source store)) in
        (contains event.alert_id i.active ≡ false)
        × ((s : StoredAlert V) × (find event.alert_id i ≡ some s) × (s.alert.status ≡ "resolved"))
  unfolding merge
  resolved_stays event source later store v done room =
      let j = event.instance_id in
      let first = merge_into config event source (get_instance j store) in
      let start : Resolved 0 event.alert_id (get_instance j (merge config event source store)) =
        rw (merge, get_instance-insert config j j first store, same_id j)
          (resolving-Resolved config event source _ (v j) (omega arith) done) in
      let r =
        run_merges-Resolved later 0 event.alert_id j _ (merge-AreValid config event source store v)
          (omega arith) start in
      let i = get_instance j (run_merges later (merge config event source store)) in
      (
        r.not_active,
        (
          r.stored,
          found event.alert_id i (lookup-absent _ i.active r.not_active) r.stored r.there,
          r.status,
        ),
      )
