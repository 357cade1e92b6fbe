-- ===== src/Rules/Engine/Tests.antt =====
-- The theorems on tiers and on the lifecycle at a concrete rule: `value > 5` for 60 s.
use avengers_fyp_is.Common.{
  ℕ, refl, ltb, leb, nat_beq, Bool, true, false, List, [], ◌∷◌, Option, none, some,
}
use avengers_fyp_is.Rules.Tiers.{Operator, gt, ge, lt, le, eq, SeverityTier, RuleConfig}
use avengers_fyp_is.Rules.Engine.Defs.{
  EngineConfig, RuleEngine, dedup_key, active_in, fire, from_inactive, from_pending, from_firing,
  from_resolving, transition,
}
use avengers_fyp_is.Rules.Engine.Lifecycle.{Tick, run_ticks, HeldFor}
use avengers_fyp_is.Rules.Engine.Hold.{fires_after_hold, resolves_after_hold}

abbrev compare : Operator → ℕ → ℕ → Bool
compare gt a b = ltb b a
compare ge a b = leb b a
compare lt a b = ltb a b
compare le a b = leb a b
compare eq a b = nat_beq a b

abbrev warning : SeverityTier ℕ
warning = record { severity = "warning"; threshold = 5 }

abbrev critical : SeverityTier ℕ
critical = record { severity = "critical"; threshold = 20 }

abbrev rule : RuleConfig ℕ
rule = record {
  name = "HighRejects";
  operator = gt;
  tiers = warning ∷ critical ∷ [];
  for_time = 60;
  resolve_after = 300;
}

abbrev config : EngineConfig
config = record { instance_id = "i-1"; renotify_interval = 1800; max_active_alerts = 2 }

abbrev engine : RuleEngine
engine = record { states = []; silences = []; storm_active = false }

abbrev at : ℕ → Option (SeverityTier ℕ) → Tick ℕ
at now tier = record { now = now; tier = tier; fresh = "id" }

abbrev two_ticks : List (Tick ℕ)
two_ticks = at 130 (some warning) ∷ at 100 (some warning) ∷ []

abbrev fading : List (Tick ℕ)
fading = at 200 none ∷ at 170 (some critical) ∷ two_ticks

fires_after_hold_example : HeldFor config rule true 60 (at 170 (some critical)) two_ticks
unfolding run_ticks transition from_inactive from_pending from_firing fire dedup_key active_in
fires_after_hold_example =
    fires_after_hold config rule (at 170 (some critical)) two_ticks engine refl refl refl

resolves_after_hold_example : HeldFor config rule false 300 (at 500 none) fading
unfolding run_ticks transition from_inactive from_pending from_firing from_resolving fire dedup_key
    active_in
resolves_after_hold_example =
    resolves_after_hold config rule (at 500 none) fading engine refl refl refl
