-- ===== src/Backend/HeartbeatMonitor/Events.antt =====
-- What `evaluate_once` and `on_heartbeat` write to the alert store, as the events that they merge.
use avengers_fyp_is.Common.{
  ℕ, ◌+◌, ◌-◌, ◌≤◌, ◌≡◌, refl, sym, ap, ◌∙◌, inl, inr, String, List, [], ◌∷◌, ◌++◌, Option, none,
  some, arith, length, length-append, string_eq, Option-cases,
}
use avengers_fyp_is.Backend.Registry.Defs.{AgentRecord, AgentRegistry, get, stale_agents}
use avengers_fyp_is.Backend.AlertStore.Records.{AlertEvent, Source, backend}
use avengers_fyp_is.Backend.AlertStore.Runs.{run_merges, run_merges-append}
use avengers_fyp_is.Backend.HeartbeatMonitor.Defs.{
  MonitorConfig, HeartbeatMonitor, minus, instance_id_of, build_firing_event, build_resolved_event,
  report_stale, report_all, resolve, resolve_all, evaluate_once,
}

module _ {P V : Type 0} (config : MonitorConfig V) where
  abbrev pub firing_event : ℕ → String → Option (AgentRecord P) → List (AlertEvent V × Source)
  firing_event now a none = []
  firing_event now a (some r) =
      (build_firing_event config a (instance_id_of a r) (now - r.received_at) now, backend) ∷ []

  abbrev pub firing_events : ℕ → List String → AgentRegistry P → List (AlertEvent V × Source)
  firing_events now [] g = []
  firing_events now (a ∷ ids) g = firing_event now a (get a g) ++ firing_events now ids g

  abbrev pub resolved_event : ℕ → String → Option (AgentRecord P) → List (AlertEvent V × Source)
  resolved_event now a none = []
  resolved_event now a (some r) =
      (build_resolved_event config a (instance_id_of a r) now, backend) ∷ []

  abbrev pub resolved_events : ℕ → List String → AgentRegistry P → List (AlertEvent V × Source)
  resolved_events now [] g = []
  resolved_events now (a ∷ ids) g = resolved_event now a (get a g) ++ resolved_events now ids g

  report_stale-merges :
      (now : ℕ) (a : String) (m : HeartbeatMonitor P V)
      → ((report_stale config now a m).registry ≡ m.registry)
        × ((report_stale config now a m).alert_store
            ≡ run_merges config.alerts (firing_event now a (get a m.registry)) m.alert_store)
  unfolding report_stale
  report_stale-merges now a m = elim (Option-cases (get a m.registry)) [
    | inl unknown ↦ rw (report_stale, unknown) (refl, refl)
    | inr (r, known) ↦ rw (report_stale, known) (refl, refl)
  ]

  pub report_all-merges :
      (now : ℕ) (ids : List String) (m : HeartbeatMonitor P V)
      → ((report_all config now ids m).registry ≡ m.registry)
        × ((report_all config now ids m).alert_store
            ≡ run_merges config.alerts (firing_events now ids m.registry) m.alert_store)
  unfolding report_all
  report_all-merges now [] m = (refl, refl)
  report_all-merges now (a ∷ ids) m =
      let first = report_stale-merges now a m in
      let rest = report_all-merges now ids (report_stale config now a m) in
      (
        rest.0 ∙ first.0,
        rest.1
            ∙ ap
                (λ g.
                  run_merges config.alerts (firing_events now ids g)
                    (report_stale config now a m).alert_store)
                first.0
            ∙ ap (run_merges config.alerts (firing_events now ids m.registry)) first.1
            ∙ sym (
                run_merges-append config.alerts (firing_event now a (get a m.registry)) _
                  m.alert_store),
      )

  pub resolve-merges :
      (now : ℕ) (a : String) (m : HeartbeatMonitor P V)
      → ((resolve config now a m).registry ≡ m.registry)
        × ((resolve config now a m).alert_store
            ≡ run_merges config.alerts (resolved_event now a (get a m.registry)) m.alert_store)
  unfolding resolve
  resolve-merges now a m = elim (Option-cases (get a m.registry)) [
    | inl unknown ↦ rw (resolve, unknown) (refl, refl)
    | inr (r, known) ↦ rw (resolve, known) (refl, refl)
  ]

  pub resolve_all-merges :
      (now : ℕ) (ids : List String) (m : HeartbeatMonitor P V)
      → ((resolve_all config now ids m).registry ≡ m.registry)
        × ((resolve_all config now ids m).alert_store
            ≡ run_merges config.alerts (resolved_events now ids m.registry) m.alert_store)
  unfolding resolve_all
  resolve_all-merges now [] m = (refl, refl)
  resolve_all-merges now (a ∷ ids) m =
      let first = resolve-merges now a m in
      let rest = resolve_all-merges now ids (resolve config now a m) in
      (
        rest.0 ∙ first.0,
        rest.1
            ∙ ap
                (λ g.
                  run_merges config.alerts (resolved_events now ids g)
                    (resolve config now a m).alert_store)
                first.0
            ∙ ap (run_merges config.alerts (resolved_events now ids m.registry)) first.1
            ∙ sym (
                run_merges-append config.alerts (resolved_event now a (get a m.registry)) _
                  m.alert_store),
      )

  -- The agents that have recovered when `evaluate_once` looks.
  abbrev pub recovered : ℕ → HeartbeatMonitor P V → List String
  recovered now m =
      let stale = stale_agents m.registry now in
      minus (report_all config now (config.outside.set_order stale) m).firing stale

  abbrev pub evaluation : ℕ → HeartbeatMonitor P V → List (AlertEvent V × Source)
  evaluation now m =
      firing_events now (config.outside.set_order (stale_agents m.registry now)) m.registry
      ++ resolved_events now (config.outside.set_order (recovered now m)) m.registry

  pub evaluate_once-merges :
      (now : ℕ) (m : HeartbeatMonitor P V)
      → (evaluate_once config now m).alert_store
        ≡ run_merges config.alerts (evaluation now m) m.alert_store
  unfolding evaluate_once
  evaluate_once-merges now m =
      let ids = config.outside.set_order (stale_agents m.registry now) in
      let back = config.outside.set_order (recovered now m) in
      let first = report_all-merges now ids m in
      let rest = resolve_all-merges now back (report_all config now ids m) in
      rest.1
      ∙ ap
          (λ g.
            run_merges config.alerts (resolved_events now back g)
              (report_all config now ids m).alert_store)
          first.0
      ∙ ap (run_merges config.alerts (resolved_events now back m.registry)) first.1
      ∙ sym (run_merges-append config.alerts (firing_events now ids m.registry) _ m.alert_store)

  length-firing_events :
      (now : ℕ) (ids : List String) (g : AgentRegistry P)
      → length (firing_events now ids g) ≤ length ids
  length-firing_events now [] g = omega arith
  length-firing_events now (a ∷ ids) g = elim (Option-cases (get a g)) [
    | inl unknown ↦ rw unknown (omega (arith, length-firing_events now ids g))
    | inr (r, known) ↦ rw known (omega (arith, length-firing_events now ids g))
  ]

  length-resolved_events :
      (now : ℕ) (ids : List String) (g : AgentRegistry P)
      → length (resolved_events now ids g) ≤ length ids
  length-resolved_events now [] g = omega arith
  length-resolved_events now (a ∷ ids) g = elim (Option-cases (get a g)) [
    | inl unknown ↦ rw unknown (omega (arith, length-resolved_events now ids g))
    | inr (r, known) ↦ rw known (omega (arith, length-resolved_events now ids g))
  ]

  pub length-evaluation :
      (now : ℕ) (m : HeartbeatMonitor P V)
      → ((ids : List String) → length (config.outside.set_order ids) ≤ length ids)
      → length (evaluation now m) ≤ length (stale_agents m.registry now) + length (recovered now m)
  length-evaluation now m order = omega (
    arith,
    length-append {0}
        (firing_events now (config.outside.set_order (stale_agents m.registry now)) m.registry)
        (resolved_events now (config.outside.set_order (recovered now m)) m.registry),
    length-firing_events now (config.outside.set_order (stale_agents m.registry now)) m.registry,
    length-resolved_events now (config.outside.set_order (recovered now m)) m.registry,
    order (stale_agents m.registry now),
    order (recovered now m),
  )
