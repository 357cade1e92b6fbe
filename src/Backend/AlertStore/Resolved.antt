-- ===== src/Backend/AlertStore/Resolved.antt =====
-- A resolved alert stays resolved as long as the history has room for it.
use avengers_fyp_is.Common.{
  ℕ, occurrences, occurrences-append, ◌+◌, ◌≤◌, ◌<◌, ◌≡◌, refl, ◌∙◌, inl, inr, Bool, true, false,
  String, [], ◌∷◌, ◌++◌, some, arith, string_eq, ◌==◌, Bool-cases,
}
use avengers_fyp_is.Common.Dict.{
  lookup, contains, insert, lookup-insert, lookup-erase, contains-insert, contains-erase,
  contains-some,
}
use avengers_fyp_is.Backend.AlertStore.Records.{AlertStoreConfig, StoredAlert, InstanceAlerts}
use avengers_fyp_is.Backend.AlertStore.Defs.{take_out, put_active, put_resolved, place_alert}
use avengers_fyp_is.Backend.AlertStore.History.{
  same_id, newer, newer-remove, newer-append, newer-kept, recent-stays,
}
use avengers_fyp_is.Backend.AlertStore.Valid.{IsValid, Free, take_out-Free}

module _ {V : Type 0} where
  -- The alert is resolved, and at most `n` of the resolved ones are newer.
  pub record Resolved (n : ℕ) (k : String) (i : InstanceAlerts V) : Type 0 where
    pub not_active : contains k i.active ≡ false
    pub stored : StoredAlert V
    pub there : lookup k i.resolved_map ≡ some stored
    pub status : stored.alert.status ≡ "resolved"
    pub recent : newer k i.resolved ≤ n

  pub weaken :
      (n m : ℕ) (k : String) (i : InstanceAlerts V) → n ≤ m → Resolved n k i → Resolved m k i
  weaken n m k i h r = record {
    not_active = r.not_active;
    stored = r.stored;
    there = r.there;
    status = r.status;
    recent = omega (arith, r.recent);
  }

  take_out-Resolved :
      (n : ℕ) (k j : String) (i : InstanceAlerts V)
      → (k == j) ≡ false
      → Resolved n k i
      → Resolved n k (take_out j i)
  unfolding take_out
  take_out-Resolved n k j i other r = elim (Bool-cases (contains j i.resolved_map)) [
    | inl known ↦
        rw (take_out, known)
          (record {
            not_active = contains-erase k j i.active ∙ rw other r.not_active;
            stored = r.stored;
            there = lookup-erase k j i.resolved_map ∙ rw other r.there;
            status = r.status;
            recent = omega (arith, newer-remove k j i.resolved other, r.recent);
          })
    | inr unknown ↦
        rw (take_out, unknown)
          (record {
            not_active = contains-erase k j i.active ∙ rw other r.not_active;
            stored = r.stored;
            there = r.there;
            status = r.status;
            recent = r.recent;
          })
  ]

  put_active-Resolved :
      (n : ℕ) (k : String) (s : StoredAlert V) (i : InstanceAlerts V)
      → (k == s.alert.alert_id) ≡ false
      → Resolved n k i
      → Resolved n k (put_active s i)
  unfolding put_active
  put_active-Resolved n k s i other r = record {
    not_active = contains-insert k s.alert.alert_id s i.active ∙ rw other r.not_active;
    stored = r.stored;
    there = r.there;
    status = r.status;
    recent = r.recent;
  }

module _ {V : Type 0} (config : AlertStoreConfig) where
  put_resolved-Resolved :
      (n : ℕ) (k : String) (s : StoredAlert V) (i : InstanceAlerts V)
      → (k == s.alert.alert_id) ≡ false
      → IsValid config i
      → n + 1 < config.recent_alert_limit
      → Resolved n k i
      → Resolved (n + 1) k (put_resolved config.recent_alert_limit s i)
  unfolding put_resolved
  put_resolved-Resolved n k s i other v room r =
      let j = s.alert.alert_id in
      let more = newer-append k j i.resolved in
      let listed = v.listed k in
      let known = contains-some k r.stored i.resolved_map r.there in
      let there : 0 < occurrences k (i.resolved ++ (j ∷ [])) =
        ground (arith, occurrences-append k i.resolved (j ∷ []), listed, known) in
      let stays =
        recent-stays config.recent_alert_limit k (i.resolved ++ (j ∷ []))
          (insert j s i.resolved_map) there (omega (arith, more, r.recent, room)) in
      record {
        not_active = r.not_active;
        stored = r.stored;
        there = stays.0 ∙ lookup-insert k j s i.resolved_map ∙ rw other r.there;
        status = r.status;
        recent = omega (arith, stays.1, more, r.recent);
      }

  newly-Resolved :
      (s : StoredAlert V) (i : InstanceAlerts V)
      → Free config s.alert.alert_id i
      → 1 ≤ config.recent_alert_limit
      → s.alert.status ≡ "resolved"
      → Resolved 0 s.alert.alert_id (put_resolved config.recent_alert_limit s i)
  unfolding put_resolved
  newly-Resolved s i f room done =
      let k = s.alert.alert_id in
      let ids = i.resolved ++ (k ∷ []) in
      let stored = insert k s i.resolved_map in
      let none_yet : occurrences k i.resolved ≡ 0 =
        ground (arith, f.valid.listed k, f.not_resolved) in
      let same = same_id k in
      let there : 0 < occurrences k ids =
        ground (arith, occurrences-append k i.resolved (k ∷ []), same) in
      let last : newer k ids ≡ 0 = newer-kept k i.resolved (k ∷ []) none_yet ∙ rw same refl in
      let stays = recent-stays config.recent_alert_limit k ids stored there (omega (arith, last)) in
      record {
        not_active = f.not_active;
        stored = s;
        there = stays.0 ∙ lookup-insert k k s i.resolved_map ∙ rw same refl;
        status = done;
        recent = omega (arith, stays.1, last);
      }

  pub placed-Resolved :
      (s : StoredAlert V) (i : InstanceAlerts V)
      → IsValid config i
      → 1 ≤ config.recent_alert_limit
      → s.alert.status ≡ "resolved"
      → Resolved 0 s.alert.alert_id (place_alert config s false i)
  unfolding place_alert
  placed-Resolved s i v room done =
      newly-Resolved s _ (take_out-Free config s.alert.alert_id i v) room done

  pub place_alert-Resolved :
      (n : ℕ) (k : String) (s : StoredAlert V) (active : Bool) (i : InstanceAlerts V)
      → (k == s.alert.alert_id) ≡ false
      → IsValid config i
      → n + 1 < config.recent_alert_limit
      → Resolved n k i
      → Resolved (n + 1) k (place_alert config s active i)
  unfolding place_alert
  place_alert-Resolved n k s true i other v room r =
      weaken n (n + 1) k _ (omega arith)
        (put_active-Resolved n k s _ other (take_out-Resolved n k s.alert.alert_id i other r))
  place_alert-Resolved n k s false i other v room r =
      put_resolved-Resolved n k s _ other (take_out-Free config s.alert.alert_id i v).valid room
        (take_out-Resolved n k s.alert.alert_id i other r)
