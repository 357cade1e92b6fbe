-- ===== src/Metrics/Correlator/Bounds.antt =====
-- How many orders are tracked, and what the counters of evictions say.
use avengers_fyp_is.Common.{
  ℕ, ◌+◌, ◌-◌, ◌≤◌, ◌<◌, ltb→lt, ◌⊎◌, ◌≡◌, refl, ap, ◌∙◌, inl, inr, true, ◌||◌, String, List, [],
  ◌∷◌, Option, none, some, ltb, arith, string_eq, length, ◌==◌, Bool-cases, Option-cases,
}
use avengers_fyp_is.Common.Dict.{
  Dict, lookup, erase, contains, contains-cons, contains-some, length-erase, length-erase-contains,
  length-insert, length-insert-contains,
}
use avengers_fyp_is.Metrics.Correlator.Orders.{
  OrderKey, ParsedMessageEvent, OrderContext, LatencyMetric, CorrelatorConfig, LatencyCorrelator,
  is_new_order, same_order_iff, order_eq,
}
use avengers_fyp_is.Metrics.Correlator.Defs.{
  expired_keys, erase_all, evict_expired, oldest, evict_oldest, evict_if_at_capacity, timestamp_of,
  track_new_order, record_latency, set_recorded, settle, report_metric, reject_metric, settle_if,
  handle_response, handle_message, ingest,
}

oldest-contained :
    (key : OrderKey) (ctx : OrderContext) (orders : Dict OrderKey OrderContext)
    → (oldest key ctx orders ≡ key) ⊎ (contains (oldest key ctx orders) orders ≡ true)
unfolding oldest
oldest-contained key ctx [] = inl refl
oldest-contained key ctx ((k, x) ∷ orders) =
    elim (Bool-cases (ltb x.first_seen_at ctx.first_seen_at)) [
      | inl earlier ↦ elim (oldest-contained k x orders) [
        | inl own ↦ rw earlier (
            inr (
              contains-cons (oldest k x orders) k x orders
              ∙ rw ((same_order_iff (oldest k x orders) k).1 own) refl))
        | inr later ↦ rw earlier (inr (further k x (oldest k x orders) orders later))
      ]
      | inr later ↦ elim (oldest-contained key ctx orders) [
        | inl own ↦ rw later (inl own)
        | inr further_on ↦ rw later (inr (further k x (oldest key ctx orders) orders further_on))
      ]
    ]
  where
    further :
        (k : OrderKey) (x : OrderContext) (j : OrderKey) (orders : Dict OrderKey OrderContext)
        → contains j orders ≡ true
        → contains j ((k, x) ∷ orders) ≡ true
    further k x j orders h = contains-cons j k x orders ∙ ground (arith, h)

oldest-is_in :
    (key : OrderKey) (ctx : OrderContext) (orders : Dict OrderKey OrderContext)
    → contains (oldest key ctx orders) ((key, ctx) ∷ orders) ≡ true
oldest-is_in key ctx orders =
    let o = oldest key ctx orders in
    elim (oldest-contained key ctx orders) [
      | inl own ↦ contains-cons o key ctx orders ∙ rw ((same_order_iff o key).1 own) refl
      | inr later ↦ contains-cons o key ctx orders ∙ ground (arith, later)
    ]

length-erase_all :
    (keys : List OrderKey) (orders : Dict OrderKey OrderContext)
    → length (erase_all keys orders) ≤ length orders
length-erase_all [] orders = omega arith
length-erase_all (k ∷ keys) orders =
    omega (arith, length-erase_all keys (erase k orders), length-erase k orders)

module _ (config : CorrelatorConfig) where
  -- No more orders are tracked than the limit allows, and every eviction is counted as an unmatched order.
  pub record IsBounded (c : LatencyCorrelator) : Type 0 where
    pub size : length c.open_orders ≤ config.max_entries
    pub evictions : c.stats.unmatched_orders ≡ c.stats.ttl_evictions + c.stats.cap_evictions

  evict_expired-IsBounded :
      (now : ℕ) (c : LatencyCorrelator) → IsBounded c → IsBounded (evict_expired config now c)
  unfolding evict_expired
  evict_expired-IsBounded now c b =
      let expired = expired_keys now config.ttl c.open_orders in
      record {
        size = omega (arith, length-erase_all expired c.open_orders, b.size);
        evictions = omega (arith, b.evictions);
      }

  -- There is room for one more order.
  record HasRoom (c : LatencyCorrelator) : Type 0 where
    size : length c.open_orders < config.max_entries
    evictions : c.stats.unmatched_orders ≡ c.stats.ttl_evictions + c.stats.cap_evictions

  evict_oldest-HasRoom :
      (c : LatencyCorrelator) (orders : Dict OrderKey OrderContext)
      → 1 ≤ config.max_entries
      → c.open_orders ≡ orders
      → IsBounded c
      → HasRoom (evict_oldest c orders)
  evict_oldest-HasRoom c [] some_room e b = record {
    size = omega (arith, ap length e);
    evictions = b.evictions;
  }
  evict_oldest-HasRoom c ((key, ctx) ∷ orders) some_room e b =
      let less =
        length-erase-contains (oldest key ctx orders) ((key, ctx) ∷ orders)
          (oldest-is_in key ctx orders) in
      record {
        size = omega (arith, less, ap length e, b.size);
        evictions = omega (arith, b.evictions);
      }

  evict_if_at_capacity-HasRoom :
      (c : LatencyCorrelator)
      → 1 ≤ config.max_entries
      → IsBounded c
      → HasRoom (evict_if_at_capacity config c)
  unfolding evict_if_at_capacity
  evict_if_at_capacity-HasRoom c some_room b =
      elim (Bool-cases (ltb (length c.open_orders) config.max_entries)) [
        | inl free ↦
            rw (evict_if_at_capacity, free)
              (record { size = ltb→lt _ _ free; evictions = b.evictions })
        | inr full ↦
            rw (evict_if_at_capacity, full) (evict_oldest-HasRoom c c.open_orders some_room refl b)
      ]

  track_new_order-IsBounded :
      (event : ParsedMessageEvent) (h : Option String) (c : LatencyCorrelator)
      → 1 ≤ config.max_entries
      → IsBounded c
      → IsBounded (track_new_order config event h c)
  unfolding track_new_order
  track_new_order-IsBounded event none c some_room b = b
  track_new_order-IsBounded event (some h) c some_room b =
      let r = evict_if_at_capacity-HasRoom c some_room b in
      let key : OrderKey = record { session_id = event.session_id; cl_ord_id_hash = h } in
      record {
        size =
            omega (arith, length-insert key _ (evict_if_at_capacity config c).open_orders, r.size);
        evictions = r.evictions;
      }

  settle-IsBounded :
      (metric : LatencyMetric) (key : OrderKey) (ctx : OrderContext) (event : ParsedMessageEvent)
      (c : LatencyCorrelator)
      → contains key c.open_orders ≡ true
      → IsBounded c
      → IsBounded (settle config metric key ctx event c)
  unfolding settle record_latency
  settle-IsBounded metric key ctx event c there b =
      let responded = timestamp_of config event in
      let same = length-insert-contains key (set_recorded metric ctx) c.open_orders there in
      elim (Bool-cases (
        ltb responded ctx.first_seen_at
        || ltb config.max_plausible (responded - ctx.first_seen_at))) [
          | inl anomaly ↦
              rw (settle, record_latency, anomaly)
                (record { size = omega (arith, same, b.size); evictions = b.evictions })
          | inr plausible ↦
              rw (settle, record_latency, plausible)
                (record { size = omega (arith, same, b.size); evictions = b.evictions })
        ]

  settle_if-IsBounded :
      (key : OrderKey) (ctx : OrderContext) (event : ParsedMessageEvent)
      (found : Option LatencyMetric) (c : LatencyCorrelator)
      → contains key c.open_orders ≡ true
      → IsBounded c
      → IsBounded (settle_if config key ctx event found c)
  settle_if-IsBounded key ctx event none c there b = b
  settle_if-IsBounded key ctx event (some metric) c there b =
      settle-IsBounded metric key ctx event c there b

  handle_response-IsBounded :
      (metric : ParsedMessageEvent → OrderContext → Option LatencyMetric)
      (event : ParsedMessageEvent) (h : Option String) (c : LatencyCorrelator)
      → IsBounded c
      → IsBounded (handle_response config metric event h c)
  unfolding handle_response
  handle_response-IsBounded metric event none c b = b
  handle_response-IsBounded metric event (some h) c b =
      let key : OrderKey = record { session_id = event.session_id; cl_ord_id_hash = h } in
      elim (Option-cases (lookup key c.open_orders)) [
        | inl orphan ↦
            rw (handle_response, orphan) (record { size = b.size; evictions = b.evictions })
        | inr (ctx, there) ↦
            rw (handle_response, there)
              (settle_if-IsBounded key ctx event (metric event ctx) c
                (contains-some key ctx c.open_orders there) b)
      ]

  -- With a limit of at least one, `ingest` keeps the number of tracked orders within the limit, and the
  -- number of unmatched orders at that of the evictions by age and by capacity, whatever the message.
  pub ingest-IsBounded :
      (now : ℕ) (event : ParsedMessageEvent) (c : LatencyCorrelator)
      → 1 ≤ config.max_entries
      → IsBounded c
      → IsBounded (ingest config now event c)
  unfolding ingest handle_message
  ingest-IsBounded now event c some_room b =
      let d = evict_expired config now c in
      let b' = evict_expired-IsBounded now c b in
      elim (Bool-cases (is_new_order event.msg_type)) [
        | inl new ↦
            rw (ingest, handle_message, new)
              (track_new_order-IsBounded event event.cl_ord_id_hash d some_room b')
        | inr response ↦ elim (Bool-cases (event.msg_type == "ExecutionReport")) [
          | inl report ↦
              rw (ingest, handle_message, response, report)
                (handle_response-IsBounded report_metric event event.cl_ord_id_hash d b')
          | inr rest ↦ elim (Bool-cases (event.msg_type == "OrderCancelReject")) [
            | inl reject ↦
                rw (ingest, handle_message, response, rest, reject)
                  (handle_response-IsBounded reject_metric event event.cl_ord_id_hash d b')
            | inr other ↦ rw (ingest, handle_message, response, rest, other) b'
          ]
        ]
      ]
