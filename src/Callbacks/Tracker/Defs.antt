-- ===== src/Callbacks/Tracker/Defs.antt =====
-- The records of `DeliveryTracker` and its methods.
use avengers_fyp_is.Common.{ℕ, ◌+◌, String, [], ◌∷◌, ◌++◌, Option, none, some, trim, string_eq}
use avengers_fyp_is.Common.Dict.{Dict, lookup, insert, erase}

pub data DeliveryStatus : Type 0 where
  pending sent retrying delivered failed : DeliveryStatus

pub record DeliveryRecord : Type 0 where
  pub status : DeliveryStatus
  pub updated_at : ℕ
  pub attempt_count : ℕ
  pub last_error : Option String
  pub correlation_id : Option String

-- Notifications of one alert, in the order of their last updates.
abbrev pub Notifications : Type 0
Notifications = Dict String DeliveryRecord

abbrev pub DeliveryTracker : Type 0
DeliveryTracker = Dict String Notifications

abbrev pub max_notifications_per_alert : ℕ
max_notifications_per_alert = 8

-- `self._records.get(alert_id)`, or the empty dict
abbrev pub notifications_of : String → DeliveryTracker → Notifications
notifications_of alert_id t = elim (lookup alert_id t) [ none ↦ [] | some n ↦ n ]

-- `previous` after the check for PENDING.
abbrev pub carried : DeliveryStatus → Option DeliveryRecord → Option DeliveryRecord
carried pending previous = none
carried _ previous = previous

abbrev pub attempts_of : Option DeliveryRecord → ℕ
attempts_of none = 0
attempts_of (some r) = r.attempt_count

abbrev pub counted : DeliveryStatus → ℕ → ℕ
counted sent n = n + 1
counted _ n = n

abbrev pub or_else : Option String → Option String → Option String
or_else (some new) old = some new
or_else none old = old

abbrev pub error_of : Option DeliveryRecord → Option String
error_of none = none
error_of (some r) = r.last_error

abbrev pub correlation_of : Option DeliveryRecord → Option String
correlation_of none = none
correlation_of (some r) = r.correlation_id

-- The record that `record` writes.
unfoldable pub next_record :
    DeliveryStatus → ℕ → Option String → Option String → Option DeliveryRecord → DeliveryRecord
next_record status now error delivery_id previous =
    let before = carried status previous in
    record {
      status = status;
      updated_at = now;
      attempt_count = counted status (attempts_of before);
      last_error = or_else error (error_of before);
      correlation_id = or_else delivery_id (correlation_of before);
    }

-- `record`
unfoldable pub record_status :
    String
    → DeliveryStatus
    → ℕ
    → Option String
    → String
    → Option String
    → DeliveryTracker
    → DeliveryTracker
record_status alert_id status now error notification delivery_id t =
    let notifications = notifications_of alert_id t in
    let r = next_record status now error delivery_id (lookup notification notifications) in
    insert alert_id
      (trim max_notifications_per_alert
        (erase notification notifications ++ ((notification, r) ∷ [])))
      t

abbrev pub last_value : Notifications → Option DeliveryRecord
last_value [] = none
last_value ((n, r) ∷ []) = some r
last_value (_ ∷ x ∷ rest) = last_value (x ∷ rest)

-- `status_of` without and with `notification`
unfoldable pub status_of : String → Option String → DeliveryTracker → Option DeliveryRecord
status_of alert_id none t = last_value (notifications_of alert_id t)
status_of alert_id (some notification) t = lookup notification (notifications_of alert_id t)

-- `snapshot`
unfoldable pub snapshot : DeliveryTracker → Dict String DeliveryRecord
snapshot [] = []
snapshot ((alert_id, notifications) ∷ t) = elim (last_value notifications) [
  | none ↦ snapshot t
  | some r ↦ (alert_id, r) ∷ snapshot t
]
