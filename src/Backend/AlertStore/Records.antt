-- ===== src/Backend/AlertStore/Records.antt =====
-- The records of `AlertStore` and of its wire models: packages/telemetry_shared, `models/alerts.py` and
-- `models/alerts_query.py`. A time is a whole number of microseconds.
use avengers_fyp_is.Common.{ℕ, Bool, String, List, Option}
use avengers_fyp_is.Common.Dict.{Dict}

pub record AlertDelivery : Type 0 where
  pub status : String
  pub attempts : ℕ
  pub last_attempt : Option ℕ
  pub correlation_id : Option String

-- `V` is the type of a number or a text of the wire format.
pub record AlertEvent (V : Type 0) : Type 0 where
  pub alert_id : String
  pub rule_name : String
  pub severity : String
  pub status : String
  pub application : String
  pub instance_id : String
  pub agent_id : String
  pub matched_condition : String
  pub observed_value : Option V
  pub threshold : V
  pub first_observed : ℕ
  pub last_observed : ℕ
  pub resolved_at : Option ℕ
  pub group_by : Dict String String
  pub metric_context : Dict String V
  pub notification_count : ℕ
  pub callback_delivery : Option AlertDelivery

pub data Source : Type 0 where
  agent backend : Source

pub record AlertRecord (V : Type 0) : Type 0 where
  pub alert_id : String
  pub source : Source
  pub synthetic : Bool
  pub agent_id : String
  pub application : String
  pub instance_id : String
  pub rule_name : String
  pub severity : String
  pub status : String
  pub matched_condition : String
  pub observed_value : Option V
  pub threshold : V
  pub first_observed : ℕ
  pub last_observed : ℕ
  pub resolved_at : Option ℕ
  pub notification_count : ℕ
  pub delivery : AlertDelivery
  pub group_by : Dict String String
  pub metric_context : Dict String V
  pub runbook_url : Option String

pub record AlertTransition (V : Type 0) : Type 0 where
  pub status : String
  pub severity : String
  pub observed_value : Option V
  pub threshold : V
  pub timestamp : ℕ
  pub notification_count : ℕ
  pub matched_condition : String

pub record AlertStoreConfig : Type 0 where
  pub recent_alert_limit : ℕ
  pub max_transitions : ℕ

-- `_StoredAlert`
pub record StoredAlert (V : Type 0) : Type 0 where
  pub alert : AlertRecord V
  pub transitions : List (AlertTransition V)
  pub synthetic : Bool

pub record InstanceAlerts (V : Type 0) : Type 0 where
  pub active : Dict String (StoredAlert V)
  pub resolved : List String
  pub resolved_map : Dict String (StoredAlert V)
