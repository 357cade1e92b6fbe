-- ===== src/Pipeline/Offsets.antt =====
-- logs/offset_tracker.py. The registry key `native::{dev}-{ino}` is the pair of its two numbers;
-- `load` and `save` are file input and output and are left out. The resolved path and the time
-- stamp of a commit are arguments.
mod Tests
use avengers_fyp_is.Common.{
  ℕ, ◌≤◌, ◌≡◌, refl, Bool, true, ◌&&◌, ◌↔◌, String, none, some, Option, arith, leb, KeyEq, ◌==◌,
  nat_beq, max, Bool-cases, Option-cases, inl, inr, if◌then◌else◌,
}
use avengers_fyp_is.Common.Dict.{Dict, lookup, insert, lookup-insert}

pub record FileId : Type 0 where
  pub dev : ℕ
  pub ino : ℕ

abbrev pub same_file : FileId → FileId → Bool
same_file a b = nat_beq a.dev b.dev && nat_beq a.ino b.ino

pub same_file_iff : (a b : FileId) → (same_file a b ≡ true) ↔ (a ≡ b)
same_file_iff a b = (ground arith, ground arith)

instance abbrev pub file_eq : KeyEq FileId
file_eq = record { same = same_file; same_iff = same_file_iff }

pub record FileState : Type 0 where
  pub source : String
  pub offset : ℕ
  pub timestamp : ℕ

-- `OffsetTracker._states`
abbrev pub Offsets : Type 0
Offsets = Dict FileId FileState

abbrev pub offset_of : Option FileState → ℕ
offset_of none = 0
offset_of (some s) = s.offset

unfoldable pub get_offset : FileId → Offsets → ℕ
get_offset key states = offset_of (lookup key states)

unfoldable pub commit_offset : String → FileId → ℕ → ℕ → Offsets → Offsets
commit_offset source key offset timestamp states =
    if leb offset (offset_of (lookup key states))
    then states
    else insert key (record { source = source; offset = offset; timestamp = timestamp }) states

-- After a commit the file's offset is the larger of the old and the new one, and every other file
-- keeps its offset.
pub get_offset-commit_offset :
    (source : String) (key other : FileId) (offset time : ℕ) (states : Offsets)
    → get_offset other (commit_offset source key offset time states)
      ≡ (if other == key then max offset (get_offset key states) else get_offset other states)
unfolding get_offset commit_offset
get_offset-commit_offset source key other offset time states =
    elim (Bool-cases (leb offset (offset_of (lookup key states)))) [
      | inl old ↦ rw old (ground (arith, same_file_iff other key))
      | inr new ↦ rw (new, lookup-insert) (ground (arith, same_file_iff other key))
    ]
