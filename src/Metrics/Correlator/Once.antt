-- ===== src/Metrics/Correlator/Once.antt =====
-- How often a latency is recorded for an order.
use mathlib.Core.Path.{subst}
use avengers_fyp_is.Common.{
  ℕ, ◌+◌, ◌≤◌, ◌≡◌, refl, ap, inl, inr, Bool, false, not, ◌&&◌, String, List, [], ◌∷◌, Option, none,
  some, arith, string_eq, sum_by, ◌==◌, Bool-cases, Option-cases, if◌then◌else◌,
}
use avengers_fyp_is.Common.Dict.{lookup, lookup-insert}
use avengers_fyp_is.Metrics.Correlator.Orders.{
  OrderKey, ParsedMessageEvent, OrderContext, LatencyMetric, ack_latency, exec_latency,
  cancel_latency, CorrelatorConfig, LatencyCorrelator, is_new_order, is_cancel_origin, is_exec,
  same_order, order_eq,
}
use avengers_fyp_is.Metrics.Correlator.Defs.{
  evict_expired, evict_if_at_capacity, track_new_order, report_metric, reject_metric, settle_if,
  handle_response, handle_message, ingest,
}
use avengers_fyp_is.Metrics.Correlator.Left.{
  is_recorded, samples_of, room, total, room_some, total-evict_expired, total-evict_if_at_capacity,
  total-settle,
}

guarded :
    (b : Bool) (found metric : LatencyMetric) (ctx : OrderContext) (rest : Option LatencyMetric)
    → (if b && not (is_recorded found ctx) then some found else rest) ≡ some metric
    → (rest ≡ some metric → is_recorded metric ctx ≡ false)
    → is_recorded metric ctx ≡ false
guarded b found metric ctx rest h otherwise = elim (Bool-cases (b && not (is_recorded found ctx))) [
  | inl ready ↦
      let same : found ≡ metric = cc (rw ready at h) in
      let fresh : is_recorded found ctx ≡ false = ground (arith, ready) in
      subst (λ n. is_recorded n ctx ≡ false) same fresh
  | inr not_ready ↦ otherwise (rw not_ready at h)
]

no_metric : (metric : LatencyMetric) → none ≡ some metric → ⊥
no_metric metric e = cc e

fresh_report :
    (event : ParsedMessageEvent) (ctx : OrderContext) (metric : LatencyMetric)
    → report_metric event ctx ≡ some metric
    → is_recorded metric ctx ≡ false
unfolding report_metric
fresh_report event ctx metric h = elim (Bool-cases (ctx.origin_msg_type == "NewOrderSingle")) [
  | inl new ↦
      guarded (is_exec "New" event.exec_type) ack_latency metric ctx _
        (rw (report_metric, new) at h)
        (λ later.
          guarded (is_exec "Trade" event.exec_type) exec_latency metric ctx none later
            (λ e. absurd (no_metric metric e)))
  | inr old ↦
      let g = rw (report_metric, old) at h in
      elim (Bool-cases (is_cancel_origin ctx.origin_msg_type)) [
        | inl cancel ↦
            guarded (is_exec "Canceled" event.exec_type) cancel_latency metric ctx none
              (rw cancel at g) (λ e. absurd (no_metric metric e))
        | inr unrelated ↦ absurd (no_metric metric (rw unrelated at g))
      ]
]

fresh_reject :
    (event : ParsedMessageEvent) (ctx : OrderContext) (metric : LatencyMetric)
    → reject_metric event ctx ≡ some metric
    → is_recorded metric ctx ≡ false
unfolding reject_metric
fresh_reject event ctx metric h =
    guarded (is_cancel_origin ctx.origin_msg_type) cancel_latency metric ctx none h
      (λ e. absurd (no_metric metric e))

abbrev order_of : ParsedMessageEvent → String → OrderKey
order_of event h = record { session_id = event.session_id; cl_ord_id_hash = h }

-- The message opens the order.
abbrev pub is_opened : OrderKey → ParsedMessageEvent → Option String → Bool
is_opened k event none = false
is_opened k event (some h) = same_order k (order_of event h)

abbrev pub opens : OrderKey → ParsedMessageEvent → ℕ
opens k event =
    if is_new_order event.msg_type && is_opened k event event.cl_ord_id_hash then 1 else 0

module _ (config : CorrelatorConfig) where
  -- Messages in their order, each with the clock's reading.
  abbrev pub run_messages : List (ℕ × ParsedMessageEvent) → LatencyCorrelator → LatencyCorrelator
  run_messages [] c = c
  run_messages ((now, event) ∷ later) c = run_messages later (ingest config now event c)

module _ (config : CorrelatorConfig) (m : LatencyMetric) (k : OrderKey) where
  total-settle_if :
      (key : OrderKey) (ctx : OrderContext) (event : ParsedMessageEvent)
      (found : Option LatencyMetric) (c : LatencyCorrelator)
      → lookup key c.open_orders ≡ some ctx
      → ((metric : LatencyMetric) → found ≡ some metric → is_recorded metric ctx ≡ false)
      → total m k (settle_if config key ctx event found c) ≤ total m k c
  total-settle_if key ctx event none c there fresh = omega arith
  total-settle_if key ctx event (some metric) c there fresh =
      total-settle config m k metric key ctx event c there (fresh metric refl)

  total-handle_response :
      (metric : ParsedMessageEvent → OrderContext → Option LatencyMetric)
      (event : ParsedMessageEvent) (h : Option String) (c : LatencyCorrelator)
      → ((ctx : OrderContext) (found : LatencyMetric)
          → metric event ctx ≡ some found
          → is_recorded found ctx ≡ false)
      → total m k (handle_response config metric event h c) ≤ total m k c
  unfolding handle_response
  total-handle_response metric event none c fresh = omega arith
  total-handle_response metric event (some h) c fresh =
      elim (Option-cases (lookup (order_of event h) c.open_orders)) [
        | inl orphan ↦ rw (handle_response, orphan) (omega arith)
        | inr (ctx, there) ↦
            rw (handle_response, there)
              (total-settle_if (order_of event h) ctx event (metric event ctx) c there (fresh ctx))
      ]

  total-track_new_order :
      (event : ParsedMessageEvent) (h : Option String) (c : LatencyCorrelator)
      → total m k (track_new_order config event h c)
        ≤ total m k c + (if is_opened k event h then 1 else 0)
  unfolding track_new_order
  total-track_new_order event none c = omega arith
  total-track_new_order event (some h) c =
      let c' = evict_if_at_capacity config c in
      let less = total-evict_if_at_capacity config m k c in
      let after = λ (ctx : OrderContext). lookup-insert k (order_of event h) ctx c'.open_orders in
      elim (Bool-cases (same_order k (order_of event h))) [
        | inl same ↦ rw (track_new_order, after _, same) (omega (arith, less, room_some m _))
        | inr other ↦ rw (track_new_order, after _, other) (omega (arith, less))
      ]

  total-handle_message :
      (event : ParsedMessageEvent) (c : LatencyCorrelator)
      → total m k (handle_message config event c) ≤ total m k c + opens k event
  unfolding handle_message
  total-handle_message event c = elim (Bool-cases (is_new_order event.msg_type)) [
    | inl new ↦ rw (handle_message, new) (total-track_new_order event event.cl_ord_id_hash c)
    | inr response ↦ elim (Bool-cases (event.msg_type == "ExecutionReport")) [
      | inl report ↦
          rw (handle_message, response, report)
            (omega (
              arith,
              total-handle_response report_metric event event.cl_ord_id_hash c (fresh_report event),
            ))
      | inr rest ↦ elim (Bool-cases (event.msg_type == "OrderCancelReject")) [
        | inl reject ↦
            rw (handle_message, response, rest, reject)
              (omega (
                arith,
                total-handle_response reject_metric event event.cl_ord_id_hash c
                    (fresh_reject event),
              ))
        | inr other ↦ rw (handle_message, response, rest, other) (omega arith)
      ]
    ]
  ]

  run_messages-total :
      (messages : List (ℕ × ParsedMessageEvent)) (c : LatencyCorrelator)
      → total m k (run_messages config messages c)
        ≤ total m k c + sum_by (λ message. opens k message.1) messages
  unfolding ingest
  run_messages-total [] c = omega arith
  run_messages-total ((now, event) ∷ later) c = omega (
    arith,
    run_messages-total later (ingest config now event c),
    total-handle_message event (evict_expired config now c),
    total-evict_expired config m k now c,
  )

  -- A correlator that starts empty records each of the three latencies of an order at most as often as
  -- the order was opened: however often its acknowledgement, its fills or its cancellation are repeated,
  -- in whatever order, and whatever is evicted in between, one new order gives at most one sample of each.
  pub one_sample_per_order :
      (messages : List (ℕ × ParsedMessageEvent)) (c : LatencyCorrelator)
      → c.open_orders ≡ []
      → c.samples ≡ []
      → samples_of m k (run_messages config messages c).samples
        ≤ sum_by (λ message. opens k message.1) messages
  one_sample_per_order messages c no_orders no_samples = omega (
    arith,
    run_messages-total messages c,
    ap (samples_of m k) no_samples,
    ap (λ d. room m (lookup k d)) no_orders,
  )
