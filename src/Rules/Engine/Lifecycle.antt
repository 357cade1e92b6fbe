-- ===== src/Rules/Engine/Lifecycle.antt =====
-- How long a condition has held when its alert fires or resolves.
use avengers_fyp_is.Common.{
  ℕ, ◌+◌, ◌≤◌, ◌≡◌, refl, sym, ◌∙◌, Bool, true, false, String, List, [], ◌∷◌, Option, none, some,
  arith, string_eq, ◌==◌,
}
use avengers_fyp_is.Common.Dict.{lookup, lookup-insert, lookup-erase}
use avengers_fyp_is.Rules.Tiers.{SeverityTier, RuleConfig}
use avengers_fyp_is.Rules.Engine.Defs.{
  AlertStatus, pending, resolving, AlertState, EngineConfig, RuleEngine, is_active, dedup_key,
  store, remove, transition,
}
use mathlib.Core.Path.{subst}
use text.Mathlib.TextEquality.{eq_iff}

-- One call of `_transition` for a rule.
pub record Tick (V : Type 0) : Type 0 where
  pub now : ℕ
  pub tier : Option (SeverityTier V)
  pub fresh : String

abbrev pub is_met : {V : Type 0} → Option (SeverityTier V) → Bool
is_met none = false
is_met (some tier) = true

-- In a history, newest first, the condition has been met (or unmet) at every tick from time `t0` on.
pub data Since {V : Type 0} (met : Bool) (t0 : ℕ) : List (Tick V) → Type 0 where
  since_first :
      (t : Tick V) (older : List (Tick V))
      → t.now ≡ t0
      → is_met t.tier ≡ met
      → Since met t0 (t ∷ older)
  since_more :
      (t : Tick V) (older : List (Tick V))
      → is_met t.tier ≡ met
      → Since met t0 older
      → Since met t0 (t ∷ older)

module _ {V : Type 0} (config : EngineConfig) (rule : RuleConfig V) where
  abbrev pub state_of : RuleEngine → Option AlertState
  state_of e = lookup (dedup_key config rule.name) e.states

  -- The ticks of a history, newest first.
  unfoldable pub run_ticks : List (Tick V) → RuleEngine → RuleEngine
  run_ticks [] e = e
  run_ticks (t ∷ older) e = (transition config rule t.now t.tier t.fresh (run_ticks older e)).0

  -- A pending state knows since when the condition has been met, a resolving one since when not.
  abbrev pub Timed : AlertStatus → ℕ → List (Tick V) → Type 0
  Timed pending t0 history = Since true t0 history
  Timed resolving t0 history = Since false t0 history
  Timed _ t0 history = Unit

  abbrev pub IsTimed : List (Tick V) → Option AlertState → Type 0
  IsTimed history none = Unit
  IsTimed history (some s) = Timed s.status s.condition_since history

  abbrev pub active_state : Option AlertState → Bool
  active_state none = false
  active_state (some s) = is_active s.status

  -- The condition has been met (or unmet) at each tick of the last `time`, up to the newest.
  pub record HeldFor (met : Bool) (time : ℕ) (t : Tick V) (older : List (Tick V)) : Type 0 where
    pub t0 : ℕ
    pub since : Since met t0 (t ∷ older)
    pub long_enough : t0 + time ≤ t.now

  pub record Stepped (t : Tick V) (older : List (Tick V)) (was : Bool) (after : Option AlertState)
      : Type 0 where
    pub timed : IsTimed (t ∷ older) after
    pub fires : was ≡ false → active_state after ≡ true → HeldFor true rule.for_time t older
    pub resolves :
        was ≡ true → active_state after ≡ false → HeldFor false rule.resolve_after t older

  same_key : (k : String) → (k == k) ≡ true
  same_key k = ground (arith, eq_iff k k)

  pub state_of-store :
      (now : ℕ) (s : AlertState) (e : RuleEngine) → state_of (store config rule now s e) ≡ some s
  state_of-store now s e =
      lookup-insert (dedup_key config rule.name) (dedup_key config rule.name) s e.states
      ∙ rw (same_key (dedup_key config rule.name)) refl

  pub state_of-remove : (now : ℕ) (e : RuleEngine) → state_of (remove config rule now e) ≡ none
  state_of-remove now e =
      lookup-erase (dedup_key config rule.name) (dedup_key config rule.name) e.states
      ∙ rw (same_key (dedup_key config rule.name)) refl

  pub reaches :
      (t : Tick V) (older : List (Tick V)) (was : Bool) (after after' : Option AlertState)
      → after' ≡ after
      → Stepped t older was after
      → Stepped t older was after'
  reaches t older was after after' e v = subst (Stepped t older was) (sym e) v

  -- A step between states of which both are active, or neither is.
  pub level :
      (t : Tick V) (older : List (Tick V)) (was : Bool) (after : Option AlertState)
      → was ≡ active_state after
      → IsTimed (t ∷ older) after
      → Stepped t older was after
  level t older was after same timed = record {
    timed = timed;
    fires = λ off on. absurd (cc (same, off, on));
    resolves = λ on off. absurd (cc (same, off, on));
  }

  pub still :
      (status status' : AlertStatus) (t0 : ℕ) (history : List (Tick V))
      → status' ≡ status
      → Timed status t0 history
      → Timed status' t0 history
  still status status' t0 history e timed = subst (λ st. Timed st t0 history) (sym e) timed
