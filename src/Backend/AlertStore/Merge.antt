-- ===== src/Backend/AlertStore/Merge.antt =====
-- What `merge` writes, and that it keeps the store well formed.
use text.Mathlib.TextEquality.{eq_iff}
use avengers_fyp_is.Common.{
  ◌≤◌, ◌≡◌, refl, ap, ◌∙◌, inl, inr, Bool, true, false, String, Option, some, length, length-trim,
  string_eq, ◌==◌, Bool-cases, Option-cases, if◌then◌else◌,
}
use avengers_fyp_is.Common.Dict.{lookup, insert, lookup-insert}
use avengers_fyp_is.Backend.AlertStore.Records.{
  AlertEvent, Source, AlertStoreConfig, StoredAlert, InstanceAlerts,
}
use avengers_fyp_is.Backend.AlertStore.Defs.{
  AlertStore, is_active_status, find, get_instance, take_out, append_transition, place_alert,
  first_stored, only_delivery, next_stored, is_stale, merge_known, merge_new, merge_into, merge,
}
use mathlib.Core.Path.{subst}
use avengers_fyp_is.Backend.AlertStore.Valid.{
  Fits, IsValid, take_out-Free, put_active-IsValid, put_resolved-IsValid,
}

module _ {V : Type 0} (config : AlertStoreConfig) where
  pub place_alert-IsValid :
      (s : StoredAlert V) (active : Bool) (i : InstanceAlerts V)
      → IsValid config i
      → is_active_status s.alert.status ≡ active
      → length s.transitions ≤ config.max_transitions
      → IsValid config (place_alert config s active i)
  unfolding place_alert
  place_alert-IsValid s true i v a n =
      put_active-IsValid config s (take_out s.alert.alert_id i)
        (take_out-Free config s.alert.alert_id i v) (refl, a, n)
  place_alert-IsValid s false i v a n =
      put_resolved-IsValid config s (take_out s.alert.alert_id i)
        (take_out-Free config s.alert.alert_id i v) (refl, a, n)

  pub first_stored-status :
      (event : AlertEvent V) (source : Source)
      → (first_stored config event source).alert.status ≡ event.status
  unfolding first_stored append_transition
  first_stored-status event source = elim (Bool-cases (event.status == "resolved")) [
    | inl done ↦ rw (first_stored, done)
    | inr live ↦ rw (first_stored, live)
  ]

  pub first_stored-id :
      (event : AlertEvent V) (source : Source)
      → (first_stored config event source).alert.alert_id ≡ event.alert_id
  unfolding first_stored append_transition
  first_stored-id event source = elim (Bool-cases (event.status == "resolved")) [
    | inl done ↦ rw (first_stored, done)
    | inr live ↦ rw (first_stored, live)
  ]

  pub append_transition-short :
      (event : AlertEvent V) (s : StoredAlert V)
      → length (append_transition config event s).transitions ≤ config.max_transitions
  unfolding append_transition
  append_transition-short event s = length-trim config.max_transitions _

  pub first_stored-short :
      (event : AlertEvent V) (source : Source)
      → length (first_stored config event source).transitions ≤ config.max_transitions
  unfolding first_stored
  first_stored-short event source = elim (Bool-cases (event.status == "resolved")) [
    | inl done ↦ rw (first_stored, done) (append_transition-short event _)
    | inr live ↦ rw (first_stored, live) (append_transition-short event _)
  ]

  -- What `merge` writes over an alert has the event's id and status, and no more transitions than the limit.
  pub next_stored-Written :
      (event : AlertEvent V) (source : Source) (s : StoredAlert V)
      → length s.transitions ≤ config.max_transitions
      → let n = next_stored config event source s in
        (n.alert.alert_id ≡ event.alert_id)
        × (n.alert.status ≡ event.status)
        × (length n.transitions ≤ config.max_transitions)
  unfolding next_stored append_transition
  next_stored-Written event source s h = elim (Bool-cases (only_delivery config event s)) [
    | inl only ↦ rw (next_stored, only) (refl, refl, h)
    | inr more ↦ rw (next_stored, more) (refl, refl, length-trim config.max_transitions _)
  ]

  Fits-short :
      (b : Bool) (k : String) (o : Option (StoredAlert V)) (s : StoredAlert V)
      → Fits config b k o
      → o ≡ some s
      → length s.transitions ≤ config.max_transitions
  Fits-short b k o s f e = (subst (Fits config b k) e f).2

  pub find-short :
      (k : String) (i : InstanceAlerts V) (s : StoredAlert V)
      → IsValid config i
      → find k i ≡ some s
      → length s.transitions ≤ config.max_transitions
  unfolding find
  find-short k i s v h = elim (Option-cases (lookup k i.active)) [
    | inl none_active ↦ Fits-short false k _ s (v.resolved_fits k) (rw none_active at h)
    | inr (t, there) ↦ Fits-short true k _ s (v.active_fits k) (there ∙ rw (find, there) at h)
  ]

  merge_new-IsValid :
      (event : AlertEvent V) (source : Source) (i : InstanceAlerts V)
      → IsValid config i
      → IsValid config (merge_new config event source i)
  unfolding merge_new
  merge_new-IsValid event source i v =
      let short = first_stored-short event source in
      let same = ap is_active_status (first_stored-status event source) in
      elim (Bool-cases (event.status == "resolved")) [
        | inl done ↦
            rw (merge_new, done)
              (place_alert-IsValid _ false i v (same ∙ ap is_active_status ((eq_iff _ _).0 done))
                short)
        | inr live ↦ rw (merge_new, live) (place_alert-IsValid _ _ i v same short)
      ]

  merge_known-IsValid :
      (event : AlertEvent V) (source : Source) (i : InstanceAlerts V) (s : StoredAlert V)
      → IsValid config i
      → length s.transitions ≤ config.max_transitions
      → IsValid config (merge_known config event source i s)
  unfolding merge_known
  merge_known-IsValid event source i s v h = elim (Bool-cases (is_stale config event s)) [
    | inl stale ↦ rw (merge_known, stale) v
    | inr current ↦
        let w = next_stored-Written event source s h in
        rw (merge_known, current) (place_alert-IsValid _ _ i v (ap is_active_status w.1) w.2)
  ]

  pub merge_into-IsValid :
      (event : AlertEvent V) (source : Source) (i : InstanceAlerts V)
      → IsValid config i
      → IsValid config (merge_into config event source i)
  unfolding merge_into
  merge_into-IsValid event source i v = elim (Option-cases (find event.alert_id i)) [
    | inl unknown ↦ rw (merge_into, unknown) (merge_new-IsValid event source i v)
    | inr (s, known) ↦
        rw (merge_into, known)
          (merge_known-IsValid event source i s v (find-short event.alert_id i s v known))
  ]

  pub get_instance-insert :
      (j k : String) (i : InstanceAlerts V) (store : AlertStore V)
      → get_instance j (insert k i store) ≡ (if j == k then i else get_instance j store)
  unfolding get_instance
  get_instance-insert j k i store = elim (Bool-cases (j == k)) [
    | inl same ↦ rw (get_instance, lookup-insert j k i store, same)
    | inr other ↦ rw (get_instance, lookup-insert j k i store, other)
  ]

  -- Every instance's alerts are well formed.
  abbrev pub AreValid : AlertStore V → Type 0
  AreValid store = (instance_id : String) → IsValid config (get_instance instance_id store)

  -- `merge` keeps every instance well formed: no alert is both active and resolved, the history of
  -- resolved ids lists exactly the alerts of `resolved_map`, each once, and is no longer than
  -- `recent_alert_limit`, every alert is stored under its own id in the part that its status asks for,
  -- and none has more than `max_transitions` transitions.
  pub merge-AreValid :
      (event : AlertEvent V) (source : Source) (store : AlertStore V)
      → AreValid store
      → AreValid (merge config event source store)
  unfolding merge
  merge-AreValid event source store v j = elim (Bool-cases (j == event.instance_id)) [
    | inl same ↦
        rw (get_instance-insert j event.instance_id _ store, same)
          (merge_into-IsValid event source _ (v event.instance_id))
    | inr other ↦ rw (get_instance-insert j event.instance_id _ store, other) (v j)
  ]
