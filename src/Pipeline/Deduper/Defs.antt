-- ===== src/Pipeline/Deduper/Defs.antt =====
-- `LinePosition` and the methods of `ProcessedLineDeduper`.
use avengers_fyp_is.Common.{
  ℕ, ◌+◌, ◌≡◌, ◌↔◌, Bool, true, false, ◌&&◌, [], ◌∷◌, ◌++◌, none, some, arith, leb, trim, KeyEq,
  nat_beq, if◌then◌else◌,
}
use avengers_fyp_is.Common.Dict.{Dict, lookup, contains, erase}

pub record LinePosition : Type 0 where
  pub dev : ℕ
  pub inode : ℕ
  pub byte_offset : ℕ

abbrev pub same_position : LinePosition → LinePosition → Bool
same_position p q =
    nat_beq p.dev q.dev && nat_beq p.inode q.inode && nat_beq p.byte_offset q.byte_offset

pub same_position_iff : (p q : LinePosition) → (same_position p q ≡ true) ↔ (p ≡ q)
same_position_iff p q = (ground arith, ground arith)

instance abbrev pub position_eq : KeyEq LinePosition
position_eq = record { same = same_position; same_iff = same_position_iff }

pub record ProcessedLineDeduper : Type 0 where
  pub capacity : ℕ
  pub ttl_seconds : ℕ
  pub seen : Dict LinePosition ℕ
  pub duplicates_suppressed : ℕ

-- The loop of `_evict_expired`, from the oldest entry on.
unfoldable pub expire_from : ℕ → ℕ → Dict LinePosition ℕ → Dict LinePosition ℕ
expire_from now ttl [] = []
expire_from now ttl ((k, at) ∷ seen) =
    let rest = expire_from now ttl seen in if leb now (at + ttl) then (k, at) ∷ seen else rest

abbrev pub evict_expired : ℕ → ProcessedLineDeduper → ProcessedLineDeduper
evict_expired now d = record d { seen = expire_from now d.ttl_seconds d.seen }

-- `self._seen.move_to_end(key)`
abbrev pub move_to_end : LinePosition → Dict LinePosition ℕ → Dict LinePosition ℕ
move_to_end k seen = elim (lookup k seen) [ none ↦ seen | some at ↦ erase k seen ++ ((k, at) ∷ []) ]

unfoldable pub is_duplicate : LinePosition → ℕ → ProcessedLineDeduper → Bool × ProcessedLineDeduper
is_duplicate key now d =
    let d' = evict_expired now d in
    if contains key d'.seen
    then (
      true,
      record d' {
        seen = move_to_end key d'.seen;
        duplicates_suppressed = d'.duplicates_suppressed + 1;
      },
    )
    else (false, d')

-- An assignment followed by `move_to_end` puts the entry last, whether it was there or not.
unfoldable pub mark_processed : LinePosition → ℕ → ProcessedLineDeduper → ProcessedLineDeduper
mark_processed key now d =
    let d' = evict_expired now d in
    record d' { seen = trim d'.capacity (erase key d'.seen ++ ((key, now) ∷ [])) }
