-- ===== src/Backend/AlertStore/Valid.antt =====
-- The well-formedness of an instance's alerts, and that `merge` keeps it.
use text.Mathlib.TextEquality.{eq_iff}
use avengers_fyp_is.Common.{
  occurrences, ◌≤◌, ◌≡◌, refl, sym, ◌∙◌, inl, inr, Bool, true, false, String, [], ◌∷◌, ◌++◌, Option,
  none, some, arith, ltb, length, string_eq, ◌==◌, Bool-cases,
}
use avengers_fyp_is.Common.Dict.{
  Dict, lookup, contains, insert, erase, lookup-insert, lookup-erase, contains-erase,
}
use avengers_fyp_is.Backend.AlertStore.Records.{AlertStoreConfig, StoredAlert, InstanceAlerts}
use avengers_fyp_is.Backend.AlertStore.Defs.{
  is_active_status, evict_resolved, take_out, put_active, put_resolved,
}
use avengers_fyp_is.Backend.AlertStore.History.{
  same_id, length-remove, evict_resolved-Evicted, Listed, remove-Listed, append-Listed,
  evicted-Listed, Apart, insert-Apart, evicted-Apart,
}

module _ {V : Type 0} (config : AlertStoreConfig) where
  -- An alert is stored under its own id, in the part that its status asks for, and has no more
  -- transitions than the limit.
  abbrev pub Fits : Bool → String → Option (StoredAlert V) → Type 0
  Fits active k none = Unit
  Fits active k (some s) =
      (s.alert.alert_id ≡ k)
      × (is_active_status s.alert.status ≡ active)
      × (length s.transitions ≤ config.max_transitions)

  -- No alert is both active and resolved, the history lists each resolved alert once and no other, it is
  -- no longer than the limit, and every alert fits its place.
  pub record IsValid (i : InstanceAlerts V) : Type 0 where
    pub separate : Apart i.active i.resolved_map
    pub listed : Listed i.resolved i.resolved_map
    pub bounded : length i.resolved ≤ config.recent_alert_limit
    pub active_fits : (k : String) → Fits true k (lookup k i.active)
    pub resolved_fits : (k : String) → Fits false k (lookup k i.resolved_map)

  pub Fits-erase :
      (b : Bool) (k j : String) (d : Dict String (StoredAlert V))
      → Fits b k (lookup k d)
      → Fits b k (lookup k (erase j d))
  Fits-erase b k j d h = elim (Bool-cases (k == j)) [
    | inl same ↦ rw (lookup-erase k j d, same) tt
    | inr other ↦ rw (lookup-erase k j d, other) h
  ]

  pub Fits-insert :
      (b : Bool) (k j : String) (s : StoredAlert V) (d : Dict String (StoredAlert V))
      → Fits b j (some s)
      → Fits b k (lookup k d)
      → Fits b k (lookup k (insert j s d))
  Fits-insert b k j s d new h = elim (Bool-cases (k == j)) [
    | inl same ↦ rw (lookup-insert k j s d, same) (new.0 ∙ sym ((eq_iff k j).0 same), new.1, new.2)
    | inr other ↦ rw (lookup-insert k j s d, other) h
  ]

  pub record Free (k : String) (i : InstanceAlerts V) : Type 0 where
    pub valid : IsValid i
    pub not_active : contains k i.active ≡ false
    pub not_resolved : contains k i.resolved_map ≡ false

  pub take_out-Free : (k : String) (i : InstanceAlerts V) → IsValid i → Free k (take_out k i)
  unfolding take_out
  take_out-Free k i v = elim (Bool-cases (contains k i.resolved_map)) [
    | inl known ↦
        rw (take_out, known)
          (record {
            valid = record {
              separate = λ j. ground (
                arith,
                v.separate j,
                contains-erase j k i.active,
                contains-erase j k i.resolved_map,
              );
              listed = remove-Listed k i.resolved i.resolved_map v.listed;
              bounded = omega (arith, length-remove k i.resolved, v.bounded);
              active_fits = λ j. Fits-erase true j k i.active (v.active_fits j);
              resolved_fits = λ j. Fits-erase false j k i.resolved_map (v.resolved_fits j);
            };
            not_active = contains-erase k k i.active ∙ rw (same_id k) refl;
            not_resolved = contains-erase k k i.resolved_map ∙ rw (same_id k) refl;
          })
    | inr unknown ↦
        rw (take_out, unknown)
          (record {
            valid = record {
              separate = λ j. ground (arith, v.separate j, contains-erase j k i.active);
              listed = v.listed;
              bounded = v.bounded;
              active_fits = λ j. Fits-erase true j k i.active (v.active_fits j);
              resolved_fits = v.resolved_fits;
            };
            not_active = contains-erase k k i.active ∙ rw (same_id k) refl;
            not_resolved = unknown;
          })
  ]

  pub put_active-IsValid :
      (s : StoredAlert V) (i : InstanceAlerts V)
      → Free s.alert.alert_id i
      → Fits true s.alert.alert_id (some s)
      → IsValid (put_active s i)
  unfolding put_active
  put_active-IsValid s i f new =
      let v = f.valid in
      record {
        separate =
            insert-Apart s.alert.alert_id s i.active i.resolved_map v.separate f.not_resolved;
        listed = v.listed;
        bounded = v.bounded;
        active_fits = λ j. Fits-insert true j s.alert.alert_id s i.active new (v.active_fits j);
        resolved_fits = v.resolved_fits;
      }

  pub put_resolved-IsValid :
      (s : StoredAlert V) (i : InstanceAlerts V)
      → Free s.alert.alert_id i
      → Fits false s.alert.alert_id (some s)
      → IsValid (put_resolved config.recent_alert_limit s i)
  unfolding put_resolved
  put_resolved-IsValid s i f new =
      let v = f.valid in
      let k = s.alert.alert_id in
      let ids = i.resolved ++ (k ∷ []) in
      let stored = insert k s i.resolved_map in
      let r = evict_resolved config.recent_alert_limit ids stored in
      let e = evict_resolved-Evicted config.recent_alert_limit ids stored in
      let listed = append-Listed k s i.resolved i.resolved_map v.listed f.not_resolved in
      record {
        separate = evicted-Apart config.recent_alert_limit ids stored i.active (
            insert-Apart k s i.resolved_map i.active (λ j. ground (arith, v.separate j))
              f.not_active);
        listed = evicted-Listed config.recent_alert_limit ids stored listed;
        bounded = omega (arith, e.size);
        active_fits = v.active_fits;
        resolved_fits = λ j. elim (Bool-cases (ltb 0 (occurrences j e.gone))) [
          | inl gone ↦ rw (e.kept j, gone) tt
          | inr stays ↦
              rw (e.kept j, stays) (Fits-insert false j k s i.resolved_map new (v.resolved_fits j))
        ];
      }
