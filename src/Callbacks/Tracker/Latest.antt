-- ===== src/Callbacks/Tracker/Latest.antt =====
-- What `status_of` returns after `record`, and how many notifications an alert keeps.
use text.Mathlib.TextEquality.{eq_iff}
use avengers_fyp_is.Common.{
  ℕ, ◌≤◌, ◌≡◌, ◌≢◌, inl, inr, refl, ap, ◌∙◌, true, false, String, [], ◌∷◌, ◌++◌, Option, none, some,
  arith, length, trim, length-trim, trim-append, string_eq, ◌==◌, Bool-cases, if◌then◌else◌,
}
use avengers_fyp_is.Common.Dict.{lookup, insert, erase, lookup-insert, lookup-renewed}
use avengers_fyp_is.Callbacks.Tracker.Defs.{
  DeliveryStatus, DeliveryRecord, Notifications, DeliveryTracker, max_notifications_per_alert,
  notifications_of, next_record, record_status, last_value, status_of,
}

same_key : (k : String) → (k == k) ≡ true
same_key k = ground (arith, eq_iff k k)

other_key : (j k : String) → j ≢ k → (j == k) ≡ false
other_key j k h = ground (arith, eq_iff j k)

last_value-append :
    (k : String) (r : DeliveryRecord) (d : Notifications) → last_value (d ++ ((k, r) ∷ [])) ≡ some r
last_value-append k r [] = refl
last_value-append k r (x ∷ []) = refl
last_value-append k r (x ∷ y ∷ d) = last_value-append k r (y ∷ d)

notifications_of-insert :
    (a b : String) (n : Notifications) (t : DeliveryTracker)
    → notifications_of a (insert b n t) ≡ (if a == b then n else notifications_of a t)
notifications_of-insert a b n t = elim (Bool-cases (a == b)) [
  | inl same ↦ rw (notifications_of, lookup-insert a b n t, same)
  | inr other ↦ rw (notifications_of, lookup-insert a b n t, other)
]

notifications_of-untouched :
    (a b : String) (n : Notifications) (t : DeliveryTracker)
    → a ≢ b
    → notifications_of a (insert b n t) ≡ notifications_of a t
notifications_of-untouched a b n t h = rw (notifications_of-insert a b n t, other_key a b h) refl

-- What a call of `record` leaves of the alert's notifications.
rewritten :
    (k : String) (r : DeliveryRecord) (d : Notifications)
    → let d' = trim max_notifications_per_alert (erase k d ++ ((k, r) ∷ [])) in
      (lookup k d' ≡ some r) × (last_value d' ≡ some r) × (length d' ≤ 8)
rewritten k r d =
    let (gone, kept, split, e) = trim-append 8 (erase k d) ((k, r) ∷ []) (omega arith) in
    (
      lookup-renewed 8 k r d (omega arith),
      rw e (last_value-append k r kept),
      length-trim 8 (erase k d ++ ((k, r) ∷ [])),
    )

-- After `record`, `status_of` returns the record just written, whether it is asked for the
-- notification or for the latest of the alert; that record is computed from the one that `status_of`
-- returned before.
pub status_of-record_status :
    (alert_id : String) (status : DeliveryStatus) (now : ℕ) (error : Option String)
    (notification : String) (delivery_id : Option String) (t : DeliveryTracker)
    → let t' = record_status alert_id status now error notification delivery_id t in
      let r = next_record status now error delivery_id (status_of alert_id (some notification) t) in
      (status_of alert_id (some notification) t' ≡ some r) × (status_of alert_id none t' ≡ some r)
unfolding record_status status_of
status_of-record_status a status now error n did t =
    let d = notifications_of a t in
    let r = next_record status now error did (lookup n d) in
    let w = rewritten n r d in
    let e =
      notifications_of-insert a a (trim max_notifications_per_alert (erase n d ++ ((n, r) ∷ []))) t
      ∙ rw (same_key a) in
    (ap (lookup n) e ∙ w.0, ap last_value e ∙ w.1)

-- A call of `record` for one alert leaves every other alert's records as they were.
pub record_status-others :
    (alert_id other : String) (status : DeliveryStatus) (now : ℕ) (error : Option String)
    (notification : String) (delivery_id : Option String) (asked : Option String)
    (t : DeliveryTracker)
    → other ≢ alert_id
    → status_of other asked (record_status alert_id status now error notification delivery_id t)
      ≡ status_of other asked t
unfolding record_status status_of
record_status-others a b status now error n did none t h =
    ap last_value (notifications_of-untouched b a _ t h)
record_status-others a b status now error n did (some asked) t h =
    ap (lookup asked) (notifications_of-untouched b a _ t h)

-- No alert has more than eight notifications.
abbrev pub IsBounded : DeliveryTracker → Type 0
IsBounded t = (a : String) → length (notifications_of a t) ≤ max_notifications_per_alert

-- `record` keeps at most eight notifications of every alert.
pub record_status-IsBounded :
    (alert_id : String) (status : DeliveryStatus) (now : ℕ) (error : Option String)
    (notification : String) (delivery_id : Option String) (t : DeliveryTracker)
    → IsBounded t
    → IsBounded (record_status alert_id status now error notification delivery_id t)
unfolding record_status
record_status-IsBounded a status now error n did t h b = elim (Bool-cases (b == a)) [
  | inl same ↦ rw (notifications_of-insert b a _ t, same) (rewritten n _ (notifications_of a t)).2
  | inr other ↦ rw (notifications_of-insert b a _ t, other) (h b)
]
