-- ===== src/Metrics/Correlator/Tests.antt =====
-- The theorems on the correlator at concrete inputs.
use avengers_fyp_is.Common.{
  ℕ, ◌≤◌, ◌≡◌, refl, false, String, List, [], ◌∷◌, Option, none, some, arith, sum_by,
}
use avengers_fyp_is.Metrics.Correlator.Orders.{
  OrderKey, ParsedMessageEvent, CorrelatorConfig, LatencyCorrelator, ack_latency,
}
use avengers_fyp_is.Metrics.Correlator.Defs.{
  ingest, evict_expired, expired_keys, evict_if_at_capacity, timestamp_of, track_new_order,
  record_latency, settle, report_metric, handle_response, handle_message,
}
use avengers_fyp_is.Metrics.Correlator.Left.{samples_of}
use avengers_fyp_is.Metrics.Correlator.Once.{opens, run_messages, one_sample_per_order}
use avengers_fyp_is.Metrics.Correlator.Bounds.{IsBounded, ingest-IsBounded}

abbrev config : CorrelatorConfig
config = record { ttl = 900; max_entries = 2; by_transact_time = false; max_plausible = 3600 }

abbrev nothing_open : LatencyCorrelator
nothing_open = record {
  open_orders = [];
  stats = record {
    ttl_evictions = 0;
    cap_evictions = 0;
    unmatched_orders = 0;
    orphan_responses = 0;
    latency_anomalies = 0;
  };
  samples = [];
}

abbrev message : String → String → Option String → ℕ → ParsedMessageEvent
message msg_type cl_ord_id exec_type at = record {
  msg_type = msg_type;
  session_id = "S1";
  cl_ord_id_hash = some cl_ord_id;
  orig_cl_ord_id_hash = none;
  exec_type = exec_type;
  event_time = at;
  transact_time = none;
}

abbrev order : OrderKey
order = record { session_id = "S1"; cl_ord_id_hash = "o-1" }

-- The acknowledgement comes twice.
abbrev messages : List (ℕ × ParsedMessageEvent)
messages =
    (10, message "NewOrderSingle" "o-1" none 10)
    ∷ (12, message "ExecutionReport" "o-1" (some "New") 12)
    ∷ (13, message "ExecutionReport" "o-1" (some "New") 13)
    ∷ (14, message "ExecutionReport" "o-9" (some "New") 14)
    ∷ []

one_sample_per_order_example :
    samples_of ack_latency order (run_messages config messages nothing_open).samples
    ≤ sum_by (λ m. opens order m.1) messages
one_sample_per_order_example =
    one_sample_per_order config ack_latency order messages nothing_open refl refl

acknowledged_once :
    (run_messages config messages nothing_open).samples
    ≡ record { metric = ack_latency; order = order; value = 2; at = 12 } ∷ []
unfolding ingest evict_expired expired_keys evict_if_at_capacity timestamp_of track_new_order
    record_latency settle report_metric handle_response handle_message
acknowledged_once = refl

nothing_open-IsBounded : IsBounded config nothing_open
nothing_open-IsBounded = record { size = omega arith; evictions = refl }

ingest-IsBounded_example :
    IsBounded config (ingest config 10 (message "NewOrderSingle" "o-1" none 10) nothing_open)
ingest-IsBounded_example =
    ingest-IsBounded config 10 (message "NewOrderSingle" "o-1" none 10) nothing_open (omega arith)
      nothing_open-IsBounded
