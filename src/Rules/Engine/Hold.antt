-- ===== src/Rules/Engine/Hold.antt =====
-- How long a condition has held when its alert fires or resolves, over any history of ticks.
use avengers_fyp_is.Common.{◌≡◌, sym, true, false, List, [], ◌∷◌, none}
use mathlib.Core.Path.{subst}
use avengers_fyp_is.Rules.Tiers.{RuleConfig}
use avengers_fyp_is.Rules.Engine.Defs.{EngineConfig, RuleEngine}
use avengers_fyp_is.Rules.Engine.Lifecycle.{
  Tick, state_of, run_ticks, IsTimed, active_state, HeldFor, Stepped,
}
use avengers_fyp_is.Rules.Engine.Steps.{transition-Stepped}

module _ {V : Type 0} (config : EngineConfig) (rule : RuleConfig V) where
  run_ticks-IsTimed :
      (history : List (Tick V)) (e : RuleEngine)
      → state_of config rule e ≡ none
      → IsTimed config rule history (state_of config rule (run_ticks config rule history e))
  unfolding run_ticks
  run_ticks-IsTimed [] e absent = subst (IsTimed config rule []) (sym absent) tt
  run_ticks-IsTimed (t ∷ older) e absent =
      (transition-Stepped config rule t.now t.fresh older t.tier (run_ticks config rule older e)
        (run_ticks-IsTimed older e absent)).timed

  last_step :
      (t : Tick V) (older : List (Tick V)) (e : RuleEngine)
      → state_of config rule e ≡ none
      → Stepped config rule t older
          (active_state config rule (state_of config rule (run_ticks config rule older e)))
          (state_of config rule (run_ticks config rule (t ∷ older) e))
  unfolding run_ticks
  last_step t older e absent =
      transition-Stepped config rule t.now t.fresh older t.tier (run_ticks config rule older e)
        (run_ticks-IsTimed older e absent)

  -- From an engine that does not track the rule, over any history of ticks: a tick makes the rule's
  -- alert fire only if the condition has been met at this tick and at all before it back to one that
  -- lies at least `for_seconds` in the past.
  pub fires_after_hold :
      (t : Tick V) (older : List (Tick V)) (e : RuleEngine)
      → state_of config rule e ≡ none
      → active_state config rule (state_of config rule (run_ticks config rule older e)) ≡ false
      → active_state config rule (state_of config rule (run_ticks config rule (t ∷ older) e)) ≡ true
      → HeldFor config rule true rule.for_time t older
  fires_after_hold t older e absent off on = (last_step t older e absent).fires off on

  -- From an engine that does not track the rule, over any history of ticks: a tick ends the alert only if the condition has not been met at this tick
  -- and at all before it back to one that lies at least `resolve_after_seconds` in the past.
  pub resolves_after_hold :
      (t : Tick V) (older : List (Tick V)) (e : RuleEngine)
      → state_of config rule e ≡ none
      → active_state config rule (state_of config rule (run_ticks config rule older e)) ≡ true
      → active_state config rule (state_of config rule (run_ticks config rule (t ∷ older) e))
        ≡ false
      → HeldFor config rule false rule.resolve_after t older
  resolves_after_hold t older e absent on off = (last_step t older e absent).resolves on off
