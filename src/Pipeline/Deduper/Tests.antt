-- ===== src/Pipeline/Deduper/Tests.antt =====
-- The theorems on the deduper at concrete inputs.
use avengers_fyp_is.Common.{ℕ, ◌≡◌, refl, true, false, List, [], ◌∷◌, arith}
use avengers_fyp_is.Pipeline.Deduper.Defs.{
  LinePosition, ProcessedLineDeduper, is_duplicate, mark_processed,
}
use avengers_fyp_is.Pipeline.Deduper.Calls.{Call, check, mark, run}
use avengers_fyp_is.Pipeline.Deduper.Once.{processed_is_duplicate}
use avengers_fyp_is.Pipeline.Deduper.Sound.{unseen_not_duplicate}
use avengers_fyp_is.Pipeline.Deduper.Expiry.{stale_duplicate}

abbrev fresh : ProcessedLineDeduper
fresh = record { capacity = 3; ttl_seconds = 100; seen = []; duplicates_suppressed = 0 }

abbrev line : ℕ → LinePosition
line n = record { dev = 1; inode = 7; byte_offset = n }

abbrev traffic : List Call
traffic = mark (line 20) 12 ∷ check (line 30) 15 ∷ []

processed_is_duplicate_example :
    (is_duplicate (line 10) 110 (run traffic (mark_processed (line 10) 10 fresh))).0 ≡ true
processed_is_duplicate_example =
    processed_is_duplicate (line 10) 10 110 traffic fresh (omega arith)
      ((omega arith, omega arith), ((omega arith, omega arith), tt)) (omega arith)

unseen_not_duplicate_example : (is_duplicate (line 30) 16 (run traffic fresh)).0 ≡ false
unseen_not_duplicate_example = unseen_not_duplicate (line 30) 16 traffic fresh refl refl

stale_duplicate_example :
    (is_duplicate
      (line 10)
      111
      (run (mark (line 10) 10 ∷ mark (line 20) 20 ∷ check (line 10) 30 ∷ []) fresh)).0
    ≡ true
stale_duplicate_example =
    stale_duplicate (line 10) (line 20) 10 20 30 111 fresh (λ e. ground arith) refl (omega arith)
      (omega arith) (omega arith) (omega arith) (omega arith) (omega arith)
