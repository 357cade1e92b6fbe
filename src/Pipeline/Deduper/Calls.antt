-- ===== src/Pipeline/Deduper/Calls.antt =====
-- Sequences of calls on one deduper, as the committer makes them.
use avengers_fyp_is.Common.{ℕ, ◌≤◌, ◌≡◌, refl, ◌∙◌, List, [], ◌∷◌, arith, length}
use avengers_fyp_is.Common.Dict.{Dict, erase}
use avengers_fyp_is.Pipeline.Deduper.Defs.{
  LinePosition, position_eq, ProcessedLineDeduper, is_duplicate, mark_processed,
}

pub data Call : Type 0 where
  check mark : LinePosition → ℕ → Call

unfoldable pub apply : Call → ProcessedLineDeduper → ProcessedLineDeduper
apply (check p now) d = (is_duplicate p now d).1
apply (mark p now) d = mark_processed p now d

unfoldable pub run : List Call → ProcessedLineDeduper → ProcessedLineDeduper
run [] d = d
run (c ∷ cs) d = run cs (apply c d)

abbrev pub time_of : Call → ℕ
time_of (check p now) = now
time_of (mark p now) = now

-- The settings do not change.
pub apply-settings :
    (c : Call) (d : ProcessedLineDeduper)
    → ((apply c d).capacity ≡ d.capacity) × ((apply c d).ttl_seconds ≡ d.ttl_seconds)
unfolding apply is_duplicate mark_processed
apply-settings (check p now) d = ground arith
apply-settings (mark p now) d = (refl, refl)

pub run-settings :
    (cs : List Call) (d : ProcessedLineDeduper)
    → ((run cs d).capacity ≡ d.capacity) × ((run cs d).ttl_seconds ≡ d.ttl_seconds)
unfolding run
run-settings [] d = (refl, refl)
run-settings (c ∷ cs) d =
    let s = apply-settings c d in let r = run-settings cs (apply c d) in (r.0 ∙ s.0, r.1 ∙ s.1)

pub length-erase : (j : LinePosition) (xs : Dict LinePosition ℕ) → length (erase j xs) ≤ length xs
length-erase j [] = omega arith
length-erase j ((i, v) ∷ xs) = ground (arith, length-erase j xs)
