-- ===== src/Metrics/Correlator/Left.antt =====
-- What an order has left of a latency, and how evictions and recordings use it up.
use avengers_fyp_is.Common.{
  ℕ, ◌+◌, ◌-◌, ◌≤◌, ◌≡◌, refl, ap, ◌∙◌, inl, inr, Bool, true, false, ◌&&◌, ◌||◌, List, [], ◌∷◌,
  Option, none, some, ltb, arith, string_eq, length, sum_by, Bool-cases, if◌then◌else◌,
}
use avengers_fyp_is.Common.Dict.{Dict, lookup, insert, erase, lookup-insert, lookup-erase}
use avengers_fyp_is.Metrics.Correlator.Orders.{
  OrderKey, ParsedMessageEvent, OrderContext, LatencyMetric, ack_latency, exec_latency,
  cancel_latency, Sample, CorrelatorConfig, LatencyCorrelator, same_order, same_order_iff, order_eq,
}
use avengers_fyp_is.Metrics.Correlator.Defs.{
  expired_keys, erase_all, evict_expired, oldest, evict_oldest, evict_if_at_capacity, timestamp_of,
  record_latency, set_recorded, settle,
}

abbrev pub is_recorded : LatencyMetric → OrderContext → Bool
is_recorded ack_latency ctx = ctx.ack_recorded
is_recorded exec_latency ctx = ctx.first_fill_recorded
is_recorded cancel_latency ctx = ctx.cancel_recorded

abbrev pub same_metric : LatencyMetric → LatencyMetric → Bool
same_metric ack_latency ack_latency = true
same_metric exec_latency exec_latency = true
same_metric cancel_latency cancel_latency = true
same_metric _ _ = false

-- The samples of a metric that an order has, and how many more it can have while it is open.
abbrev pub samples_of : LatencyMetric → OrderKey → List Sample → ℕ
samples_of m k samples =
    sum_by (λ s. if same_metric m s.metric && same_order k s.order then 1 else 0) samples

abbrev pub room : LatencyMetric → Option OrderContext → ℕ
room m none = 0
room m (some ctx) = if is_recorded m ctx then 0 else 1

abbrev pub total : LatencyMetric → OrderKey → LatencyCorrelator → ℕ
total m k c = samples_of m k c.samples + room m (lookup k c.open_orders)

room-erase :
    (m : LatencyMetric) (k j : OrderKey) (orders : Dict OrderKey OrderContext)
    → room m (lookup k (erase j orders)) ≤ room m (lookup k orders)
room-erase m k j orders = elim (Bool-cases (same_order k j)) [
  | inl same ↦ rw (lookup-erase k j orders, same) (omega arith)
  | inr other ↦ rw (lookup-erase k j orders, other) (omega arith)
]

room-erase_all :
    (m : LatencyMetric) (k : OrderKey) (keys : List OrderKey) (orders : Dict OrderKey OrderContext)
    → room m (lookup k (erase_all keys orders)) ≤ room m (lookup k orders)
room-erase_all m k [] orders = omega arith
room-erase_all m k (j ∷ keys) orders =
    omega (arith, room-erase_all m k keys (erase j orders), room-erase m k j orders)

pub room_some : (m : LatencyMetric) (ctx : OrderContext) → room m (some ctx) ≤ 1
room_some m ctx = elim (Bool-cases (is_recorded m ctx)) [
  | inl done ↦ rw done (omega arith)
  | inr open_yet ↦ rw open_yet (omega arith)
]

room-set_recorded :
    (m metric : LatencyMetric) (ctx : OrderContext)
    → is_recorded metric ctx ≡ false
    → room m (some (set_recorded metric ctx)) + (if same_metric m metric then 1 else 0)
      ≤ room m (some ctx)
room-set_recorded ack_latency ack_latency ctx h = ground (arith, h)
room-set_recorded ack_latency exec_latency ctx h = omega arith
room-set_recorded ack_latency cancel_latency ctx h = omega arith
room-set_recorded exec_latency ack_latency ctx h = omega arith
room-set_recorded exec_latency exec_latency ctx h = ground (arith, h)
room-set_recorded exec_latency cancel_latency ctx h = omega arith
room-set_recorded cancel_latency ack_latency ctx h = omega arith
room-set_recorded cancel_latency exec_latency ctx h = omega arith
room-set_recorded cancel_latency cancel_latency ctx h = ground (arith, h)

abbrev pub counts_for : LatencyMetric → OrderKey → LatencyMetric → OrderKey → ℕ
counts_for m k metric key = if same_metric m metric && same_order k key then 1 else 0

room-settled :
    (m metric : LatencyMetric) (k key : OrderKey) (ctx : OrderContext)
    (orders : Dict OrderKey OrderContext)
    → lookup key orders ≡ some ctx
    → is_recorded metric ctx ≡ false
    → room m (lookup k (insert key (set_recorded metric ctx) orders)) + counts_for m k metric key
      ≤ room m (lookup k orders)
room-settled m metric k key ctx orders there fresh =
    let after = lookup-insert k key (set_recorded metric ctx) orders in
    elim (Bool-cases (same_order k key)) [
      | inl same ↦
          let e : k ≡ key = (same_order_iff k key).0 same in
          let now : lookup k (insert key (set_recorded metric ctx) orders)
              ≡ some (set_recorded metric ctx) =
            after ∙ rw same refl in
          let before : lookup k orders ≡ some ctx = ap (λ j. lookup j orders) e ∙ there in
          let used = room-set_recorded m metric ctx fresh in
          elim (Bool-cases (same_metric m metric)) [
            | inl own ↦ rw (same, own, now, before) (rw own at used)
            | inr apart ↦ rw (same, apart, now, before) (rw apart at used)
          ]
      | inr other ↦
          let now : lookup k (insert key (set_recorded metric ctx) orders) ≡ lookup k orders =
            after ∙ rw other refl in
          elim (Bool-cases (same_metric m metric)) [
            | inl own ↦ rw (other, own, now) (omega arith)
            | inr apart ↦ rw (other, apart, now) (omega arith)
          ]
    ]

module _ (config : CorrelatorConfig) (m : LatencyMetric) (k : OrderKey) where
  pub total-evict_expired :
      (now : ℕ) (c : LatencyCorrelator) → total m k (evict_expired config now c) ≤ total m k c
  unfolding evict_expired
  total-evict_expired now c =
      omega (arith, room-erase_all m k (expired_keys now config.ttl c.open_orders) c.open_orders)

  total-evict_oldest :
      (c : LatencyCorrelator) (orders : Dict OrderKey OrderContext)
      → c.open_orders ≡ orders
      → total m k (evict_oldest c orders) ≤ total m k c
  total-evict_oldest c [] e = omega arith
  total-evict_oldest c ((key, ctx) ∷ orders) e = omega (
    arith,
    room-erase m k (oldest key ctx orders) ((key, ctx) ∷ orders),
    ap (λ d. room m (lookup k d)) e,
  )

  pub total-evict_if_at_capacity :
      (c : LatencyCorrelator) → total m k (evict_if_at_capacity config c) ≤ total m k c
  unfolding evict_if_at_capacity
  total-evict_if_at_capacity c = elim (Bool-cases (ltb (length c.open_orders) config.max_entries)) [
    | inl free ↦ rw (evict_if_at_capacity, free) (omega arith)
    | inr full ↦ rw (evict_if_at_capacity, full) (total-evict_oldest c c.open_orders refl)
  ]

  -- Settling a metric that is not recorded yet uses up what the order had left.
  pub total-settle :
      (metric : LatencyMetric) (key : OrderKey) (ctx : OrderContext) (event : ParsedMessageEvent)
      (c : LatencyCorrelator)
      → lookup key c.open_orders ≡ some ctx
      → is_recorded metric ctx ≡ false
      → total m k (settle config metric key ctx event c) ≤ total m k c
  unfolding settle record_latency
  total-settle metric key ctx event c there fresh =
      let used = room-settled m metric k key ctx c.open_orders there fresh in
      let responded = timestamp_of config event in
      elim (Bool-cases (
        ltb responded ctx.first_seen_at
        || ltb config.max_plausible (responded - ctx.first_seen_at))) [
          | inl anomaly ↦ rw (settle, record_latency, anomaly) (omega (arith, used))
          | inr plausible ↦ rw (settle, record_latency, plausible) (omega (arith, used))
        ]
