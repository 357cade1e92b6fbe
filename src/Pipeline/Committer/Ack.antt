-- ===== src/Pipeline/Committer/Ack.antt =====
-- Which committed offsets a processed event moves.
use avengers_fyp_is.Common.{
  ℕ, ◌+◌, ◌≤◌, ◌<◌, ◌≡◌, ◌≢◌, inl, inr, Bool, false, String, Option, none, some, List, [], ◌∷◌,
  arith, max, string_eq, ◌==◌, Bool-cases, Option-cases, if◌then◌else◌,
}
use avengers_fyp_is.Common.Dict.{Dict, lookup}
use avengers_fyp_is.Pipeline.Deduper.Defs.{is_duplicate}
use avengers_fyp_is.Pipeline.Offsets.{
  FileId, file_eq, same_file_iff, Offsets, get_offset, get_offset-commit_offset,
}
use avengers_fyp_is.Pipeline.Committer.Defs.{
  SourceMeta, end_offset, position, ParsedEvent, Monitor, Committer, ack_line, ack, ingest_event,
  skip_event, process_event, process_events,
}

-- The file that the monitor of a path has open now.
abbrev pub open_file : String → Dict String Monitor → Option FileId
open_file path monitors = elim (lookup path monitors) [
  | none ↦ none
  | some monitor ↦ monitor.harvester
]

-- The file that an event was read from.
abbrev pub own_file : SourceMeta → FileId
own_file meta = record { dev = meta.dev; ino = meta.inode }

abbrev pub is_open : FileId → Option FileId → Bool
is_open f none = false
is_open f (some g) = f == g

get_offset-ack_line :
    (stamp : ℕ) (m : Monitor) (end : ℕ) (f : FileId) (states : Offsets)
    → get_offset f (ack_line stamp m end states)
      ≡ (if is_open f m.harvester then max end (get_offset f states) else get_offset f states)
get_offset-ack_line stamp m end f states = elim (Option-cases m.harvester) [
  | inl closed ↦ ground arith
  | inr (g, opened) ↦
      ground (arith, get_offset-commit_offset m.file_path g f end stamp states, same_file_iff f g)
]

get_offset-ack :
    (stamp : ℕ) (monitors : Dict String Monitor) (meta : SourceMeta) (f : FileId) (states : Offsets)
    → get_offset f (ack stamp monitors meta states) ≡ (
        if is_open f (open_file meta.path monitors)
        then max (end_offset meta) (get_offset f states)
        else get_offset f states)
get_offset-ack stamp monitors meta f states = elim (Option-cases (lookup meta.path monitors)) [
  | inl none_there ↦ ground arith
  | inr (m, there) ↦ ground (arith, get_offset-ack_line stamp m (end_offset meta) f states)
]

module _ {R S : Type 0} (record_parse_result : R → S → S) (clock : ℕ → ℕ) where
  -- Whether an event is new or a duplicate, the file that the monitor of its path has open gets the
  -- event's end offset if that is larger than the old one; no other file's offset moves.
  pub process_event_offset :
      (event : ParsedEvent R) (c : Committer R S) (f : FileId)
      → get_offset f (process_event record_parse_result clock event c).1.offsets ≡ (
          if is_open f (open_file event.meta.path c.monitors_by_path)
          then max (end_offset event.meta) (get_offset f c.offsets)
          else get_offset f c.offsets)
  unfolding process_event ingest_event skip_event
  process_event_offset event c f =
      elim (Bool-cases (is_duplicate (position event.meta) (clock c.clock_reads) c.deduper).0) [
        | inl old ↦
            rw (old, process_event)
              (get_offset-ack (clock (c.clock_reads + 1)) c.monitors_by_path event.meta f c.offsets)
        | inr new ↦
            rw (new, process_event)
              (get_offset-ack (clock (c.clock_reads + 1)) c.monitors_by_path event.meta f c.offsets)
      ]

  process_event-monotone :
      (event : ParsedEvent R) (c : Committer R S) (f : FileId)
      → get_offset f c.offsets
        ≤ get_offset f (process_event record_parse_result clock event c).1.offsets
  process_event-monotone event c f = ground (arith, process_event_offset event c f)

  -- No sequence of events lowers the committed offset of any file.
  pub process_events-monotone :
      (events : List (ParsedEvent R)) (c : Committer R S) (f : FileId)
      → get_offset f c.offsets
        ≤ get_offset f (process_events record_parse_result clock events c).1.offsets
  unfolding process_events
  process_events-monotone [] c f = omega arith
  process_events-monotone (event ∷ events) c f = omega (
    arith,
    process_event-monotone event c f,
    process_events-monotone events (process_event record_parse_result clock event c).1 f,
  )

  -- After a rotation, that is when the monitor of the event's path has opened another file than the
  -- one the event was read from, an event whose end offset is larger than the new file's offset
  -- moves the offset of the new file, and leaves that of its own file.
  pub rotated_event_moves_new_file :
      (event : ParsedEvent R) (c : Committer R S) (new : FileId)
      → own_file event.meta ≢ new
      → open_file event.meta.path c.monitors_by_path ≡ some new
      → get_offset new c.offsets < end_offset event.meta
      → (get_offset new (process_event record_parse_result clock event c).1.offsets
          ≡ end_offset event.meta)
        × (get_offset
              (own_file event.meta)
              (process_event record_parse_result clock event c).1.offsets
            ≡ get_offset (own_file event.meta) c.offsets)
  rotated_event_moves_new_file event c new ne opened ahead =
      let old = own_file event.meta in
      (
        ground (arith, process_event_offset event c new, same_file_iff new new),
        ground (arith, process_event_offset event c old, same_file_iff old new),
      )
