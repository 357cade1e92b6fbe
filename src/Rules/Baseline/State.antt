-- ===== src/Rules/Baseline/State.antt =====
-- The baseline of one rule: `_promote`, `_offer`, and the state's part of `assess` and `settle`.
use avengers_fyp_is.Common.{
  ℕ, ◌+◌, Bool, true, false, not, ◌&&◌, ◌||◌, String, List, [], ◌∷◌, ◌++◌, Option, none, some, ltb,
  leb, nat_beq, length, string_eq, ◌==◌, if◌then◌else◌,
}
use avengers_fyp_is.Common.Dict.{Dict, lookup}

-- `V` is the type of Python's `Decimal`.
pub record Sample (V : Type 0) : Type 0 where
  pub at : ℕ
  pub value : V
  pub weight : V

-- What a rule measures: its metric, the window and the length of the baseline.
pub record Shape : Type 0 where
  pub metric : String
  pub window : ℕ
  pub baseline : ℕ

pub record RuleBaseline (V : Type 0) : Type 0 where
  pub shape : Shape
  pub history : List (Sample V)
  pub pending : Option (Sample V)
  pub last_anomalous_at : Option ℕ

abbrev pub min_baseline_windows : ℕ
min_baseline_windows = 3

abbrev pub same_shape : Shape → Shape → Bool
same_shape a b =
    (a.metric == b.metric) && (nat_beq a.window b.window && nat_beq a.baseline b.baseline)

-- Part of an anomaly lies in the window that ends now.
abbrev pub still_in_window : ℕ → ℕ → Option ℕ → Bool
still_in_window now window none = false
still_in_window now window (some last) = ltb now (last + window)

-- `rule.name in names`
abbrev pub is_name : String → List String → Bool
is_name name [] = false
is_name name (n ∷ names) = (name == n) || is_name name names

module _ {V : Type 0} where
  -- The loop of `_promote`: the oldest samples go while more than the minimum are left.
  unfoldable pub expire_history : ℕ → ℕ → List (Sample V) → List (Sample V)
  expire_history now baseline [] = []
  expire_history now baseline (s ∷ history) =
      let rest = expire_history now baseline history in
      if ltb min_baseline_windows (length (s ∷ history)) && ltb (s.at + baseline) now
      then rest
      else s ∷ history

  -- The pending sample joins the history once its window is over.
  unfoldable pub join : ℕ → ℕ → Option (Sample V) → RuleBaseline V → RuleBaseline V
  join now window none b = b
  join now window (some p) b =
      if leb (p.at + window) now
      then record b { history = b.history ++ (p ∷ []); pending = none }
      else b

  unfoldable pub promote : ℕ → ℕ → ℕ → RuleBaseline V → RuleBaseline V
  promote now window baseline b =
      let b' = join now window b.pending b in
      record b' { history = expire_history now baseline b'.history }

  abbrev pub is_pending : Option (Sample V) → Bool
  is_pending none = false
  is_pending (some p) = true

  unfoldable pub offer : Sample V → ℕ → ℕ → Bool → Bool → RuleBaseline V → RuleBaseline V
  offer sample now window warm anomalous b =
      if anomalous || (not warm || is_pending b.pending)
      then b
      else if still_in_window now window b.last_anomalous_at
      then b
      else record b {
        pending = some (record { at = now; value = sample.value; weight = sample.weight });
      }

  -- `settle`, on the rule's state
  unfoldable pub settle_state : Sample V → ℕ → ℕ → Bool → RuleBaseline V → RuleBaseline V
  settle_state sample now window anomalous b =
      offer sample now window true anomalous
        (if anomalous then record b { last_anomalous_at = some now } else b)

  abbrev pub new_baseline : Shape → RuleBaseline V
  new_baseline shape = record {
    shape = shape;
    history = [];
    pending = none;
    last_anomalous_at = none;
  }

  -- A rule that measures something else starts anew.
  abbrev pub or_new : Shape → Option (RuleBaseline V) → RuleBaseline V
  or_new shape none = new_baseline shape
  or_new shape (some b) = if same_shape b.shape shape then b else new_baseline shape

  -- `_state`
  unfoldable pub state_of : String → Shape → Dict String (RuleBaseline V) → RuleBaseline V
  state_of name shape rules = or_new shape (lookup name rules)

  -- `retain`
  unfoldable pub retain : List String → Dict String (RuleBaseline V) → Dict String (RuleBaseline V)
  retain names [] = []
  retain names ((name, b) ∷ rules) =
      let rest = retain names rules in if is_name name names then (name, b) ∷ rest else rest

-- One evaluation of a rule, after its window's sample has been looked at: there is none that can be
-- judged or learned from, there is one but no baseline yet, or the sample was judged.
pub data Tick (V : Type 0) : Type 0 where
  too_thin : ℕ → Tick V
  learning : ℕ → Sample V → Bool → Tick V
  judged : ℕ → Sample V → Bool → Tick V

module _ {V : Type 0} (window baseline : ℕ) where
  -- The state's part of `assess` and of the `settle` that the engine calls behind it.
  unfoldable pub tick : Tick V → RuleBaseline V → RuleBaseline V
  tick (too_thin now) b = promote now window baseline b
  tick (learning now sample warm) b =
      offer sample now window warm false (promote now window baseline b)
  tick (judged now sample anomalous) b =
      settle_state sample now window anomalous (promote now window baseline b)

  abbrev pub run_ticks : List (Tick V) → RuleBaseline V → RuleBaseline V
  run_ticks [] b = b
  run_ticks (t ∷ ticks) b = run_ticks ticks (tick t b)
