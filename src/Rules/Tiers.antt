-- ===== src/Rules/Tiers.antt =====
-- rules/types.py: the rule's types, and `_matched_tier` of rules/engine.py. Values are Python's
-- `Decimal`s, a type that is given with its comparisons.
use mathlib.Core.Path.{subst}
use avengers_fyp_is.Common.{
  ℕ, ◌≡◌, inl, inr, refl, sym, ap, ◌∙◌, Bool, true, false, String, List, [], ◌∷◌, ◌++◌, Option,
  none, some, All, Bool-cases, if◌then◌else◌,
}

-- The keys of `_OPERATORS`.
pub data Operator : Type 0 where
  gt ge lt le eq : Operator

pub record SeverityTier (V : Type 0) : Type 0 where
  pub severity : String
  pub threshold : V

-- The fields of `RuleConfig` that the lifecycle reads. Times are whole microseconds.
pub record RuleConfig (V : Type 0) : Type 0 where
  pub name : String
  pub operator : Operator
  pub tiers : List (SeverityTier V)
  pub for_time : ℕ
  pub resolve_after : ℕ

module _ {V : Type 0} (compare : Operator → V → V → Bool) where
  -- The loop of `_matched_tier`.
  unfoldable pub matched_from :
      V → List (SeverityTier V) → Operator → Option (SeverityTier V) → Option (SeverityTier V)
  matched_from observed [] operator matched = matched
  matched_from observed (tier ∷ tiers) operator matched =
      matched_from observed tiers operator
        (if compare operator observed tier.threshold then some tier else matched)

  unfoldable pub matched_tier :
      Option V → List (SeverityTier V) → Operator → Option (SeverityTier V)
  matched_tier none tiers operator = none
  matched_tier (some observed) tiers operator = matched_from observed tiers operator none

  abbrev pub Fails : Operator → V → SeverityTier V → Type 0
  Fails operator observed tier = compare operator observed tier.threshold ≡ false

  -- `found` is the last tier whose condition holds, if there is one.
  pub data IsLastMatch (operator : Operator) (observed : V) (tiers : List (SeverityTier V))
      : Option (SeverityTier V) → Type 0 where
    no_match : All (Fails operator observed) tiers → IsLastMatch operator observed tiers none
    matched_at :
        (milder : List (SeverityTier V)) (tier : SeverityTier V) (stricter : List (SeverityTier V))
        → milder ++ (tier ∷ stricter) ≡ tiers
        → compare operator observed tier.threshold ≡ true
        → All (Fails operator observed) stricter
        → IsLastMatch operator observed tiers (some tier)

  -- What the loop returns when it starts from `matched`.
  abbrev or_before : Option (SeverityTier V) → Option (SeverityTier V) → Option (SeverityTier V)
  or_before matched none = matched
  or_before matched (some tier) = some tier

  or_before-none : (o : Option (SeverityTier V)) → or_before none o ≡ o
  or_before-none none = refl
  or_before-none (some tier) = refl

  matched_from_lem :
      (observed : V) (tiers : List (SeverityTier V)) (operator : Operator)
      (matched : Option (SeverityTier V))
      → (found : Option (SeverityTier V)) × IsLastMatch operator observed tiers found
        × (matched_from observed tiers operator matched ≡ or_before matched found)
  unfolding matched_from
  matched_from_lem observed [] operator matched = (none, no_match tt, refl)
  matched_from_lem observed (tier ∷ tiers) operator matched =
      let b = compare operator observed tier.threshold in
      let (found, last, e) =
        matched_from_lem observed tiers operator (if b then some tier else matched) in
      extend found last e
    where
      extend :
          (found : Option (SeverityTier V))
          → IsLastMatch operator observed tiers found
          → matched_from observed tiers operator
              (if compare operator observed tier.threshold then some tier else matched)
            ≡ or_before
                (if compare operator observed tier.threshold then some tier else matched)
                found
          → (found' : Option (SeverityTier V)) × IsLastMatch operator observed (tier ∷ tiers) found'
            × (matched_from observed (tier ∷ tiers) operator matched ≡ or_before matched found')
      extend none (no_match fails) e =
          elim (Bool-cases (compare operator observed tier.threshold)) [
            | inl holds ↦ (some tier, matched_at [] tier tiers refl holds fails, e ∙ rw holds)
            | inr not_met ↦ (none, no_match (not_met, fails), e ∙ rw not_met)
          ]
      extend (some t) (matched_at milder _ stricter split holds fails) e =
          (some t, matched_at (tier ∷ milder) t stricter (ap (λ l. tier ∷ l) split) holds fails, e)

  -- `_matched_tier` returns the last of the tiers whose condition holds, and none exactly if no
  -- condition does.
  pub matched_tier-IsLastMatch :
      (observed : V) (tiers : List (SeverityTier V)) (operator : Operator)
      → IsLastMatch operator observed tiers (matched_tier (some observed) tiers operator)
  unfolding matched_tier
  matched_tier-IsLastMatch observed tiers operator =
      let (found, last, e) = matched_from_lem observed tiers operator none in
      subst (IsLastMatch operator observed tiers) (sym (e ∙ or_before-none found)) last
