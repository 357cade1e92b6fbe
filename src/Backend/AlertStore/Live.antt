-- ===== src/Backend/AlertStore/Live.antt =====
-- What an event does to an alert that is not resolved.
use mathlib.Core.Path.{subst}
use text.Mathlib.TextEquality.{eq_iff}
use avengers_fyp_is.Common.{
  ℕ, ◌≡◌, refl, sym, ap, ◌∙◌, inl, inr, Bool, true, false, String, [], ◌∷◌, ◌++◌, Option, none,
  some, ltb, occurrences, string_eq, ◌==◌, Bool-cases, Option-cases,
}
use avengers_fyp_is.Common.Dict.{
  lookup, contains, insert, erase, lookup-insert, lookup-erase, contains-insert, contains-erase,
}
use avengers_fyp_is.Backend.AlertStore.Records.{
  AlertEvent, Source, AlertStoreConfig, StoredAlert, InstanceAlerts,
}
use avengers_fyp_is.Backend.AlertStore.Defs.{
  is_active_status, or_resolved, find, take_out, put_active, put_resolved, place_alert, is_stale,
  merge_new, merge_known, merge_into,
}
use avengers_fyp_is.Backend.AlertStore.History.{evict_resolved-Evicted}
use avengers_fyp_is.Backend.AlertStore.Valid.{Fits, IsValid}
use avengers_fyp_is.Backend.AlertStore.Merge.{first_stored-id, next_stored-Written, find-short}

module _ {V : Type 0} where
  -- The alert is not resolved, and it is active or not.
  pub record Live (active : Bool) (k : String) (i : InstanceAlerts V) : Type 0 where
    pub shown : contains k i.active ≡ active
    pub not_resolved : lookup k i.resolved_map ≡ none

  take_out-Live :
      (b : Bool) (k j : String) (i : InstanceAlerts V)
      → (k == j) ≡ false
      → Live b k i
      → Live b k (take_out j i)
  unfolding take_out
  take_out-Live b k j i other l =
      let shown : contains k (erase j i.active) ≡ b =
        contains-erase k j i.active ∙ rw other l.shown in
      elim (Bool-cases (contains j i.resolved_map)) [
        | inl known ↦
            rw (take_out, known)
              (record {
                shown = shown;
                not_resolved = lookup-erase k j i.resolved_map ∙ rw other l.not_resolved;
              })
        | inr unknown ↦
            rw (take_out, unknown) (record { shown = shown; not_resolved = l.not_resolved })
      ]

  put_active-Live :
      (b : Bool) (k : String) (s : StoredAlert V) (i : InstanceAlerts V)
      → (k == s.alert.alert_id) ≡ false
      → Live b k i
      → Live b k (put_active s i)
  unfolding put_active
  put_active-Live b k s i other l = record {
    shown = contains-insert k s.alert.alert_id s i.active ∙ rw other l.shown;
    not_resolved = l.not_resolved;
  }

  put_resolved-Live :
      (limit : ℕ) (b : Bool) (k : String) (s : StoredAlert V) (i : InstanceAlerts V)
      → (k == s.alert.alert_id) ≡ false
      → Live b k i
      → Live b k (put_resolved limit s i)
  unfolding put_resolved
  put_resolved-Live limit b k s i other l =
      let j = s.alert.alert_id in
      let stored = insert j s i.resolved_map in
      let e = evict_resolved-Evicted limit (i.resolved ++ (j ∷ [])) stored in
      let none_there : lookup k stored ≡ none =
        lookup-insert k j s i.resolved_map ∙ rw other l.not_resolved in
      record {
        shown = l.shown;
        not_resolved = elim (Bool-cases (ltb 0 (occurrences k e.gone))) [
          | inl gone ↦ e.kept k ∙ rw gone refl
          | inr stays ↦ e.kept k ∙ rw stays none_there
        ];
      }

module _ {V : Type 0} where
  only_first : (o p : Option (StoredAlert V)) → p ≡ none → or_resolved o p ≡ o
  only_first none p h = h
  only_first (some s) p h = refl

module _ {V : Type 0} (config : AlertStoreConfig) where
  place_alert-Live :
      (b : Bool) (k : String) (s : StoredAlert V) (active : Bool) (i : InstanceAlerts V)
      → (k == s.alert.alert_id) ≡ false
      → Live b k i
      → Live b k (place_alert config s active i)
  unfolding place_alert
  place_alert-Live b k s true i other l =
      put_active-Live b k s _ other (take_out-Live b k s.alert.alert_id i other l)
  place_alert-Live b k s false i other l =
      put_resolved-Live config.recent_alert_limit b k s _ other
        (take_out-Live b k s.alert.alert_id i other l)

  -- An event for another alert changes nothing for this one.
  pub merge_into-other :
      (b : Bool) (k : String) (event : AlertEvent V) (source : Source) (i : InstanceAlerts V)
      → IsValid config i
      → (k == event.alert_id) ≡ false
      → Live b k i
      → Live b k (merge_into config event source i)
  unfolding merge_into merge_new merge_known
  merge_into-other b k event source i v other l = elim (Option-cases (find event.alert_id i)) [
    | inl unknown ↦
        let apart = ap (λ j. k == j) (first_stored-id config event source) ∙ other in
        elim (Bool-cases (event.status == "resolved")) [
          | inl done ↦
              rw (merge_into, unknown, merge_new, done) (place_alert-Live b k _ false i apart l)
          | inr open_still ↦
              rw (merge_into, unknown, merge_new, open_still) (place_alert-Live b k _ _ i apart l)
        ]
    | inr (s, known) ↦
        let w = next_stored-Written config event source s (find-short config _ i s v known) in
        elim (Bool-cases (is_stale config event s)) [
          | inl stale ↦ rw (merge_into, known, merge_known, stale) l
          | inr current ↦
              rw (merge_into, known, merge_known, current)
                (place_alert-Live b k _ _ i (ap (λ j. k == j) w.0 ∙ other) l)
        ]
  ]

  place_alert-own :
      (k : String) (s : StoredAlert V) (i : InstanceAlerts V)
      → s.alert.alert_id ≡ k
      → lookup k i.resolved_map ≡ none
      → Live true k (place_alert config s true i)
  unfolding place_alert take_out put_active
  place_alert-own k s i own absent =
      let j = s.alert.alert_id in
      let same : (k == j) ≡ true = (eq_iff k j).1 (sym own) in
      elim (Bool-cases (contains j i.resolved_map)) [
        | inl known ↦
            rw (place_alert, put_active, take_out, known)
              (record {
                shown = contains-insert k j s (erase j i.active) ∙ rw same refl;
                not_resolved = lookup-erase k j i.resolved_map ∙ rw same refl;
              })
        | inr unknown ↦
            rw (place_alert, put_active, take_out, unknown)
              (record {
                shown = contains-insert k j s (erase j i.active) ∙ rw same refl;
                not_resolved = absent;
              })
      ]

  Live-not_stale :
      (b : Bool) (event : AlertEvent V) (i : InstanceAlerts V) (s : StoredAlert V)
      → IsValid config i
      → Live b event.alert_id i
      → find event.alert_id i ≡ some s
      → is_stale config event s ≡ false
  unfolding find is_stale
  Live-not_stale b event i s v l known = elim (Bool-cases (s.alert.status == "resolved")) [
    | inl done ↦
        let there : lookup event.alert_id i.active ≡ some s =
          sym (only_first _ _ l.not_resolved) ∙ known in
        let fits : Fits config true event.alert_id (some s) =
          subst (Fits config true event.alert_id) there (v.active_fits event.alert_id) in
        absurd (cc (sym fits.1 ∙ ap is_active_status ((eq_iff _ _).0 done)))
    | inr open_still ↦ rw (is_stale, open_still) refl
  ]

  -- A firing event makes an alert active that is not resolved.
  pub merge_into-firing :
      (b : Bool) (event : AlertEvent V) (source : Source) (i : InstanceAlerts V)
      → IsValid config i
      → event.status ≡ "firing"
      → Live b event.alert_id i
      → Live true event.alert_id (merge_into config event source i)
  unfolding merge_into merge_new merge_known
  merge_into-firing b event source i v fires l =
      let shown = ap is_active_status fires in
      let not_done : (event.status == "resolved") ≡ false = ap (λ t. t == "resolved") fires in
      elim (Option-cases (find event.alert_id i)) [
        | inl unknown ↦
            rw (merge_into, unknown, merge_new, not_done, shown)
              (place_alert-own event.alert_id _ i (first_stored-id config event source)
                l.not_resolved)
        | inr (s, known) ↦
            let w = next_stored-Written config event source s (find-short config _ i s v known) in
            let fresh = Live-not_stale b event i s v l known in
            rw (merge_into, known, merge_known, fresh, shown)
              (place_alert-own event.alert_id _ i w.0 l.not_resolved)
      ]
