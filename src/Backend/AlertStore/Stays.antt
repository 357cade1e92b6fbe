-- ===== src/Backend/AlertStore/Stays.antt =====
-- `merge` does not reopen a resolved alert, whatever comes after it.
use text.Mathlib.TextEquality.{eq_iff}
use mathlib.Core.Path.{subst}
use avengers_fyp_is.Common.{
  ℕ, ◌+◌, ◌≤◌, ◌<◌, ◌≡◌, sym, ap, ◌∙◌, inl, inr, false, String, none, some, arith, length,
  string_eq, ◌==◌, Bool-cases, Option-cases,
}
use avengers_fyp_is.Common.Dict.{lookup, lookup-absent}
use avengers_fyp_is.Backend.AlertStore.Records.{
  AlertEvent, Source, AlertStoreConfig, StoredAlert, InstanceAlerts,
}
use avengers_fyp_is.Backend.AlertStore.Defs.{
  is_active_status, find, place_alert, first_stored, next_stored, is_stale, merge_known, merge_new,
  merge_into,
}
use avengers_fyp_is.Backend.AlertStore.Valid.{IsValid}
use avengers_fyp_is.Backend.AlertStore.Merge.{
  first_stored-id, first_stored-status, next_stored-Written, find-short,
}
use avengers_fyp_is.Backend.AlertStore.Resolved.{
  Resolved, weaken, placed-Resolved, place_alert-Resolved,
}

module _ {V : Type 0} where
  pub found :
      (k : String) (i : InstanceAlerts V)
      → lookup k i.active ≡ none
      → (s : StoredAlert V) → lookup k i.resolved_map ≡ some s
      → find k i ≡ some s
  unfolding find
  found k i none_active s there = rw (find, none_active, there)

module _ {V : Type 0} (config : AlertStoreConfig) where
  not_stale :
      (event : AlertEvent V) (s : StoredAlert V)
      → s.alert.status ≡ "resolved"
      → is_stale config event s ≡ false
      → event.status ≡ "resolved"
  unfolding is_stale
  not_stale event s done h =
      ground (arith, h, (eq_iff s.alert.status "resolved").1 done, eq_iff event.status "resolved")

module _ {V : Type 0} (config : AlertStoreConfig) where
  merge_known-own :
      (n : ℕ) (event : AlertEvent V) (source : Source) (i : InstanceAlerts V) (s : StoredAlert V)
      → IsValid config i
      → length s.transitions ≤ config.max_transitions
      → 1 ≤ config.recent_alert_limit
      → s.alert.status ≡ "resolved"
      → Resolved n event.alert_id i
      → Resolved n event.alert_id (merge_known config event source i s)
  unfolding merge_known
  merge_known-own n event source i s v short room done r =
      elim (Bool-cases (is_stale config event s)) [
        | inl stale ↦ rw (merge_known, stale) r
        | inr current ↦
            let w = next_stored-Written config event source s short in
            let again : event.status ≡ "resolved" = not_stale config event s done current in
            let placed =
              placed-Resolved config (next_stored config event source s) i v room (w.1 ∙ again) in
            let at =
              subst
                (λ k. Resolved 0 k (place_alert config (next_stored config event source s) false i))
                w.0 placed in
            rw (merge_known, current, ap is_active_status again)
              (weaken 0 n event.alert_id _ (omega arith) at)
      ]

  merge_known-other :
      (n : ℕ) (k : String) (event : AlertEvent V) (source : Source) (i : InstanceAlerts V)
      (s : StoredAlert V)
      → IsValid config i
      → length s.transitions ≤ config.max_transitions
      → n + 1 < config.recent_alert_limit
      → (k == event.alert_id) ≡ false
      → Resolved n k i
      → Resolved (n + 1) k (merge_known config event source i s)
  unfolding merge_known
  merge_known-other n k event source i s v short room other r =
      elim (Bool-cases (is_stale config event s)) [
        | inl stale ↦ rw (merge_known, stale) (weaken n (n + 1) k i (omega arith) r)
        | inr current ↦
            let w = next_stored-Written config event source s short in
            rw (merge_known, current)
              (place_alert-Resolved config n k _ _ i (ap (λ j. k == j) w.0 ∙ other) v room r)
      ]

  merge_new-other :
      (n : ℕ) (k : String) (event : AlertEvent V) (source : Source) (i : InstanceAlerts V)
      → IsValid config i
      → n + 1 < config.recent_alert_limit
      → (k == event.alert_id) ≡ false
      → Resolved n k i
      → Resolved (n + 1) k (merge_new config event source i)
  unfolding merge_new
  merge_new-other n k event source i v room other r =
      let apart = ap (λ j. k == j) (first_stored-id config event source) ∙ other in
      elim (Bool-cases (event.status == "resolved")) [
        | inl done ↦ rw (merge_new, done) (place_alert-Resolved config n k _ _ i apart v room r)
        | inr live ↦ rw (merge_new, live) (place_alert-Resolved config n k _ _ i apart v room r)
      ]

  merge_into-own :
      (n : ℕ) (event : AlertEvent V) (source : Source) (i : InstanceAlerts V)
      → IsValid config i
      → 1 ≤ config.recent_alert_limit
      → Resolved n event.alert_id i
      → Resolved n event.alert_id (merge_into config event source i)
  unfolding merge_into
  merge_into-own n event source i v room r =
      let known = found event.alert_id i (lookup-absent _ i.active r.not_active) r.stored r.there in
      rw (merge_into, known)
        (merge_known-own n event source i r.stored v (find-short config _ i r.stored v known) room
          r.status r)

  pub merge_into-Resolved :
      (n : ℕ) (k : String) (event : AlertEvent V) (source : Source) (i : InstanceAlerts V)
      → IsValid config i
      → n + 1 < config.recent_alert_limit
      → Resolved n k i
      → Resolved (n + 1) k (merge_into config event source i)
  unfolding merge_into
  merge_into-Resolved n k event source i v room r = elim (Bool-cases (k == event.alert_id)) [
    | inl same ↦
        let e : k ≡ event.alert_id = (eq_iff k event.alert_id).0 same in
        let r' = subst (λ j. Resolved n j i) e r in
        let kept = merge_into-own n event source i v (omega arith) r' in
        subst (λ j. Resolved (n + 1) j (merge_into config event source i)) (sym e)
          (weaken n (n + 1) event.alert_id _ (omega arith) kept)
    | inr other ↦ elim (Option-cases (find event.alert_id i)) [
      | inl unknown ↦ rw (merge_into, unknown) (merge_new-other n k event source i v room other r)
      | inr (s, known) ↦
          rw (merge_into, known)
            (merge_known-other n k event source i s v (find-short config _ i s v known) room other
              r)
    ]
  ]

  -- The event that resolves an alert puts it at the end of the history.
  pub resolving-Resolved :
      (event : AlertEvent V) (source : Source) (i : InstanceAlerts V)
      → IsValid config i
      → 1 ≤ config.recent_alert_limit
      → event.status ≡ "resolved"
      → Resolved 0 event.alert_id (merge_into config event source i)
  unfolding merge_into merge_new merge_known is_stale
  resolving-Resolved event source i v room done =
      let test = (eq_iff event.status "resolved").1 done in
      elim (Option-cases (find event.alert_id i)) [
        | inl unknown ↦
            rw (merge_into, unknown, merge_new, test)
              (subst
                (λ k. Resolved 0 k (place_alert config (first_stored config event source) false i))
                (first_stored-id config event source)
                (placed-Resolved config (first_stored config event source) i v room
                  (first_stored-status config event source ∙ done)))
        | inr (s, known) ↦
            let next = next_stored config event source s in
            let w = next_stored-Written config event source s (find-short config _ i s v known) in
            let fresh : is_stale config event s ≡ false = ground (arith, test) in
            rw (merge_into, known, merge_known, fresh, ap is_active_status done)
              (subst (λ k. Resolved 0 k (place_alert config next false i)) w.0
                (placed-Resolved config next i v room (w.1 ∙ done)))
      ]
