-- ===== src/Backend/IngestGuard/Defs.antt =====
-- The state and the methods of `IngestGuard`.
use avengers_fyp_is.Common.{
  ℕ, ◌+◌, ◌-◌, ◌/◌, String, List, [], ◌∷◌, ◌++◌, Option, none, some, leb, ltb, length, max, trim,
  string_eq, if◌then◌else◌,
}
use avengers_fyp_is.Common.Dict.{Dict, lookup, contains, insert, erase}

pub record IngestGuardConfig : Type 0 where
  pub dedupe_ttl : ℕ
  pub dedupe_cache_size : ℕ
  pub max_batches_per_minute : ℕ

pub data Verdict : Type 0 where
  accept duplicate : Verdict
  rate_limited : ℕ → Verdict

-- 60 seconds
abbrev pub rate_window : ℕ
rate_window = 60000000

pub record IngestGuard : Type 0 where
  pub seen : Dict String (Dict String ℕ)
  pub accepted : Dict String (List ℕ)

-- `_expire`: `now - accepted_at < ttl`, with the subtraction on the other side.
unfoldable pub expire_seen : ℕ → ℕ → Dict String ℕ → Dict String ℕ
expire_seen now ttl [] = []
expire_seen now ttl ((batch_id, at) ∷ seen) =
    let rest = expire_seen now ttl seen in
    if ltb now (at + ttl) then (batch_id, at) ∷ seen else rest

-- `_slide`
unfoldable pub slide : ℕ → List ℕ → List ℕ
slide now [] = []
slide now (at ∷ times) =
    let rest = slide now times in if leb (at + rate_window) now then rest else at ∷ times

-- `max(1, math.ceil(wait))` for a wait in microseconds
abbrev pub whole_seconds : ℕ → ℕ
whole_seconds wait = max 1 ((wait + 999999) / 1000000)

-- `times[0]`; the limit is at least 1, so there is one.
abbrev pub first_of : List ℕ → ℕ
first_of [] = 0
first_of (at ∷ times) = at

-- `setdefault` with an empty collection
abbrev pub or_empty : {A : Type 0} → Option (List A) → List A
or_empty none = []
or_empty (some xs) = xs

module _ (config : IngestGuardConfig) where
  -- The second half of `check`.
  unfoldable pub check_rate : String → ℕ → IngestGuard → Verdict × IngestGuard
  check_rate agent_id now g = elim (lookup agent_id g.accepted) [
    | none ↦ (accept, g)
    | some times ↦
        let recent = slide now times in
        let g' = record g { accepted = insert agent_id recent g.accepted } in
        if leb config.max_batches_per_minute (length recent)
        then (rate_limited (whole_seconds (first_of recent + rate_window - now)), g')
        else (accept, g')
  ]

  unfoldable pub check : String → String → ℕ → IngestGuard → Verdict × IngestGuard
  check agent_id batch_id now g = elim (lookup agent_id g.seen) [
    | none ↦ check_rate agent_id now g
    | some seen ↦
        let fresh = expire_seen now config.dedupe_ttl seen in
        let g' = record g { seen = insert agent_id fresh g.seen } in
        if contains batch_id fresh then (duplicate, g') else check_rate agent_id now g'
  ]

  -- An assignment followed by `move_to_end` puts the entry last, whether it was there or not.
  unfoldable pub commit : String → String → ℕ → IngestGuard → IngestGuard
  commit agent_id batch_id now g =
      let seen = or_empty (lookup agent_id g.seen) in
      let times = or_empty (lookup agent_id g.accepted) in
      record g {
        seen =
            insert agent_id
              (trim config.dedupe_cache_size (erase batch_id seen ++ ((batch_id, now) ∷ [])))
              g.seen;
        accepted = insert agent_id (slide now times ++ (now ∷ [])) g.accepted;
      }
