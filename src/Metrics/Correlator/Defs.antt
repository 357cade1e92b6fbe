-- ===== src/Metrics/Correlator/Defs.antt =====
-- The methods of `LatencyCorrelator`.
use avengers_fyp_is.Common.{
  ℕ, ◌+◌, ◌-◌, Bool, true, false, not, ◌&&◌, ◌||◌, String, List, [], ◌∷◌, Option, none, some, ltb,
  string_eq, length, min, ◌==◌, if◌then◌else◌,
}
use avengers_fyp_is.Common.Dict.{Dict, lookup, insert, erase}
use avengers_fyp_is.Metrics.Correlator.Orders.{
  OrderKey, ParsedMessageEvent, OrderContext, LatencyMetric, ack_latency, exec_latency,
  cancel_latency, CorrelatorConfig, LatencyCorrelator, is_new_order, is_cancel_origin, is_exec,
  order_eq,
}

-- `_evict_expired`: the keys that are too old, then `del` of each.
unfoldable pub expired_keys : ℕ → ℕ → Dict OrderKey OrderContext → List OrderKey
expired_keys now ttl [] = []
expired_keys now ttl ((key, ctx) ∷ orders) =
    let rest = expired_keys now ttl orders in
    if ltb (ctx.first_seen_at + ttl) now then key ∷ rest else rest

abbrev pub erase_all : List OrderKey → Dict OrderKey OrderContext → Dict OrderKey OrderContext
erase_all [] orders = orders
erase_all (key ∷ keys) orders = erase_all keys (erase key orders)

unfoldable pub evict_expired : CorrelatorConfig → ℕ → LatencyCorrelator → LatencyCorrelator
evict_expired config now c =
    let expired = expired_keys now config.ttl c.open_orders in
    record c {
      open_orders = erase_all expired c.open_orders;
      stats = record c.stats {
        ttl_evictions = c.stats.ttl_evictions + length expired;
        unmatched_orders = c.stats.unmatched_orders + length expired;
      };
    }

-- `min(open, key=first_seen_at)`: the first of those seen earliest.
unfoldable pub oldest : OrderKey → OrderContext → Dict OrderKey OrderContext → OrderKey
oldest key ctx [] = key
oldest key ctx ((k, x) ∷ orders) =
    let earlier = ltb x.first_seen_at ctx.first_seen_at in
    oldest (if earlier then k else key) (if earlier then x else ctx) orders

-- `_evict_if_at_capacity`, for a limit of at least 1: the code gives no other than the default, and with a
-- limit of 0 and no open order its `min` would raise.
abbrev pub evict_oldest : LatencyCorrelator → Dict OrderKey OrderContext → LatencyCorrelator
evict_oldest c [] = c
evict_oldest c ((key, ctx) ∷ orders) = record c {
  open_orders = erase (oldest key ctx orders) ((key, ctx) ∷ orders);
  stats = record c.stats {
    cap_evictions = c.stats.cap_evictions + 1;
    unmatched_orders = c.stats.unmatched_orders + 1;
  };
}

unfoldable pub evict_if_at_capacity : CorrelatorConfig → LatencyCorrelator → LatencyCorrelator
evict_if_at_capacity config c =
    if ltb (length c.open_orders) config.max_entries then c else evict_oldest c c.open_orders

-- `_timestamp_of`
abbrev pub or_event_time : ℕ → Option ℕ → ℕ
or_event_time event_time none = event_time
or_event_time event_time (some transact_time) = transact_time

unfoldable pub timestamp_of : CorrelatorConfig → ParsedMessageEvent → ℕ
timestamp_of config event =
    if config.by_transact_time
    then or_event_time event.event_time event.transact_time
    else event.event_time

unfoldable pub track_new_order :
    CorrelatorConfig → ParsedMessageEvent → Option String → LatencyCorrelator → LatencyCorrelator
track_new_order config event none c = c
track_new_order config event (some cl_ord_id_hash) c =
    let c' = evict_if_at_capacity config c in
    let ctx : OrderContext = record {
      first_seen_at = timestamp_of config event;
      orig_cl_ord_id_hash = event.orig_cl_ord_id_hash;
      origin_msg_type = event.msg_type;
      ack_recorded = false;
      first_fill_recorded = false;
      cancel_recorded = false;
    } in
    record c' {
      open_orders =
          insert (record { session_id = event.session_id; cl_ord_id_hash = cl_ord_id_hash }) ctx
            c'.open_orders;
    }

-- `_record_latency`: a negative latency or one above the limit is an anomaly, not a sample.
unfoldable pub record_latency :
    CorrelatorConfig
    → LatencyMetric
    → OrderKey
    → ℕ
    → ParsedMessageEvent
    → LatencyCorrelator
    → LatencyCorrelator
record_latency config metric key started event c =
    let responded = timestamp_of config event in
    if ltb responded started || ltb config.max_plausible (responded - started)
    then record c { stats = record c.stats { latency_anomalies = c.stats.latency_anomalies + 1 } }
    else record c {
      samples =
          record {
            metric = metric;
            order = key;
            value = responded - started;
            at = event.event_time;
          }
          ∷ c.samples;
    }

abbrev pub set_recorded : LatencyMetric → OrderContext → OrderContext
set_recorded ack_latency ctx = record ctx { ack_recorded = true }
set_recorded exec_latency ctx = record ctx { first_fill_recorded = true }
set_recorded cancel_latency ctx = record ctx { cancel_recorded = true }

-- The flag is set in the context, then the latency is recorded.
unfoldable pub settle :
    CorrelatorConfig
    → LatencyMetric
    → OrderKey
    → OrderContext
    → ParsedMessageEvent
    → LatencyCorrelator
    → LatencyCorrelator
settle config metric key ctx event c =
    record_latency config metric key ctx.first_seen_at event
      (record c { open_orders = insert key (set_recorded metric ctx) c.open_orders })

abbrev pub count_orphan : LatencyCorrelator → LatencyCorrelator
count_orphan c = record c {
  stats = record c.stats { orphan_responses = c.stats.orphan_responses + 1 };
}

-- The latency that an execution report is the first response for, if it is one.
unfoldable pub report_metric : ParsedMessageEvent → OrderContext → Option LatencyMetric
report_metric event ctx =
    if ctx.origin_msg_type == "NewOrderSingle"
    then if is_exec "New" event.exec_type && not ctx.ack_recorded
      then some ack_latency
      else if is_exec "Trade" event.exec_type && not ctx.first_fill_recorded
      then some exec_latency
      else none
    else if is_cancel_origin ctx.origin_msg_type
    then if is_exec "Canceled" event.exec_type && not ctx.cancel_recorded
      then some cancel_latency
      else none
    else none

unfoldable pub reject_metric : ParsedMessageEvent → OrderContext → Option LatencyMetric
reject_metric event ctx =
    if is_cancel_origin ctx.origin_msg_type && not ctx.cancel_recorded
    then some cancel_latency
    else none

-- `_handle_execution_report` and `_handle_cancel_reject`, which differ in what they look for.
abbrev pub settle_if :
    CorrelatorConfig
    → OrderKey
    → OrderContext
    → ParsedMessageEvent
    → Option LatencyMetric
    → LatencyCorrelator
    → LatencyCorrelator
settle_if config key ctx event none c = c
settle_if config key ctx event (some metric) c = settle config metric key ctx event c

unfoldable pub handle_response :
    CorrelatorConfig
    → (ParsedMessageEvent → OrderContext → Option LatencyMetric)
    → ParsedMessageEvent
    → Option String
    → LatencyCorrelator
    → LatencyCorrelator
handle_response config metric event none c = c
handle_response config metric event (some cl_ord_id_hash) c =
    let key : OrderKey = record {
      session_id = event.session_id;
      cl_ord_id_hash = cl_ord_id_hash;
    } in
    elim (lookup key c.open_orders) [
      | none ↦ count_orphan c
      | some ctx ↦ settle_if config key ctx event (metric event ctx) c
    ]

unfoldable pub handle_message :
    CorrelatorConfig → ParsedMessageEvent → LatencyCorrelator → LatencyCorrelator
handle_message config event c =
    if is_new_order event.msg_type
    then track_new_order config event event.cl_ord_id_hash c
    else if event.msg_type == "ExecutionReport"
    then handle_response config report_metric event event.cl_ord_id_hash c
    else if event.msg_type == "OrderCancelReject"
    then handle_response config reject_metric event event.cl_ord_id_hash c
    else c

unfoldable pub ingest :
    CorrelatorConfig → ℕ → ParsedMessageEvent → LatencyCorrelator → LatencyCorrelator
ingest config now event c = handle_message config event (evict_expired config now c)

-- `tick`
abbrev pub tick : CorrelatorConfig → ℕ → LatencyCorrelator → LatencyCorrelator
tick config now c = evict_expired config now c

-- `_first_response_seen`
unfoldable pub first_response_seen : OrderContext → Bool
first_response_seen ctx =
    if is_cancel_origin ctx.origin_msg_type then ctx.cancel_recorded else ctx.ack_recorded

abbrev pub count_pending : Dict OrderKey OrderContext → ℕ
count_pending [] = 0
count_pending ((key, ctx) ∷ orders) =
    (if first_response_seen ctx then 0 else 1) + count_pending orders

unfoldable pub pending_order_count :
    CorrelatorConfig → ℕ → LatencyCorrelator → ℕ × LatencyCorrelator
pending_order_count config now c =
    let c' = evict_expired config now c in (count_pending c'.open_orders, c')

abbrev pub earlier_of : ℕ → Option ℕ → ℕ
earlier_of at none = at
earlier_of at (some first) = min at first

abbrev pub earliest_pending : Dict OrderKey OrderContext → Option ℕ
earliest_pending [] = none
earliest_pending ((key, ctx) ∷ orders) =
    if first_response_seen ctx
    then earliest_pending orders
    else some (earlier_of ctx.first_seen_at (earliest_pending orders))

-- `oldest_pending_age_seconds`: when the order was seen that has been pending longest. The age, the
-- greatest of all, is the clock's reading less this time.
unfoldable pub oldest_pending :
    CorrelatorConfig → ℕ → LatencyCorrelator → Option ℕ × LatencyCorrelator
oldest_pending config now c =
    let c' = evict_expired config now c in (earliest_pending c'.open_orders, c')
