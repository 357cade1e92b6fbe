-- ===== src/Metrics/Correlator/Orders.antt =====
-- The records of `LatencyCorrelator` and the equality of its keys.
use text.Mathlib.TextEquality.{eq_iff}
use avengers_fyp_is.Common.{
  ℕ, Bool, true, false, ◌&&◌, ◌||◌, ◌↔◌, ◌≡◌, String, List, Option, none, some, arith, KeyEq,
  string_eq, ◌==◌,
}
use avengers_fyp_is.Common.Dict.{Dict}

-- The key of an order: its session and the hash of its ClOrdID.
pub record OrderKey : Type 0 where
  pub session_id : String
  pub cl_ord_id_hash : String

-- The fields of `ParsedMessageEvent` that the correlator reads.
pub record ParsedMessageEvent : Type 0 where
  pub msg_type : String
  pub session_id : String
  pub cl_ord_id_hash : Option String
  pub orig_cl_ord_id_hash : Option String
  pub exec_type : Option String
  pub event_time : ℕ
  pub transact_time : Option ℕ

pub record OrderContext : Type 0 where
  pub first_seen_at : ℕ
  pub orig_cl_ord_id_hash : Option String
  pub origin_msg_type : String
  pub ack_recorded : Bool
  pub first_fill_recorded : Bool
  pub cancel_recorded : Bool

pub record CorrelatorStats : Type 0 where
  pub ttl_evictions : ℕ
  pub cap_evictions : ℕ
  pub unmatched_orders : ℕ
  pub orphan_responses : ℕ
  pub latency_anomalies : ℕ

pub data LatencyMetric : Type 0 where
  ack_latency exec_latency cancel_latency : LatencyMetric

-- A call of `observe_latency`; the order's key stands for the response event.
pub record Sample : Type 0 where
  pub metric : LatencyMetric
  pub order : OrderKey
  pub value : ℕ
  pub at : ℕ

pub record CorrelatorConfig : Type 0 where
  pub ttl : ℕ
  pub max_entries : ℕ
  pub by_transact_time : Bool
  pub max_plausible : ℕ

pub record LatencyCorrelator : Type 0 where
  pub open_orders : Dict OrderKey OrderContext
  pub stats : CorrelatorStats
  pub samples : List Sample

abbrev pub same_order : OrderKey → OrderKey → Bool
same_order j k = (j.session_id == k.session_id) && (j.cl_ord_id_hash == k.cl_ord_id_hash)

abbrev pub is_new_order : String → Bool
is_new_order msg_type =
    (msg_type == "NewOrderSingle")
    || ((msg_type == "OrderCancelRequest") || (msg_type == "OrderCancelReplaceRequest"))

abbrev pub is_cancel_origin : String → Bool
is_cancel_origin msg_type =
    (msg_type == "OrderCancelRequest") || (msg_type == "OrderCancelReplaceRequest")

abbrev pub is_exec : String → Option String → Bool
is_exec wanted none = false
is_exec wanted (some exec_type) = exec_type == wanted

pub same_order_iff : (j k : OrderKey) → (same_order j k ≡ true) ↔ (j ≡ k)
same_order_iff j k =
    let first = eq_iff j.session_id k.session_id in
    let second = eq_iff j.cl_ord_id_hash k.cl_ord_id_hash in
    (ground (arith, first, second), ground (arith, first, second))

instance abbrev pub order_eq : KeyEq OrderKey
order_eq = record { same = same_order; same_iff = same_order_iff }
