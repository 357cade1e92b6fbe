-- ===== src/Pipeline/Committer/Defs.antt =====
-- `SourceMeta`, `ParsedEvent` and `PipelineCommitter`.
use avengers_fyp_is.Common.{
  ℕ, ◌+◌, Bool, true, false, String, Option, none, some, List, [], ◌∷◌, string_eq, if◌then◌else◌,
}
use avengers_fyp_is.Common.Dict.{Dict, lookup}
use avengers_fyp_is.Pipeline.BoundedQueue.Defs.{BoundedQueue, drain}
use avengers_fyp_is.Pipeline.Deduper.Defs.{
  LinePosition, ProcessedLineDeduper, is_duplicate, mark_processed,
}
use avengers_fyp_is.Pipeline.Offsets.{FileId, Offsets, commit_offset}

-- The fields of `SourceMeta` that the committer reads.
pub record SourceMeta : Type 0 where
  pub path : String
  pub dev : ℕ
  pub inode : ℕ
  pub byte_offset : ℕ
  pub byte_length : ℕ

abbrev pub end_offset : SourceMeta → ℕ
end_offset m = m.byte_offset + m.byte_length

-- `ProcessedLineDeduper._position`
abbrev pub position : SourceMeta → LinePosition
position m = record { dev = m.dev; inode = m.inode; byte_offset = m.byte_offset }

pub record ParsedEvent (R : Type 0) : Type 0 where
  pub meta : SourceMeta
  pub result : R

-- A `LogMonitor` as `ack_line` sees it: its path, and the file that its harvester has open.
pub record Monitor : Type 0 where
  pub file_path : String
  pub harvester : Option FileId

pub record Committer (R S : Type 0) : Type 0 where
  pub event_queue : BoundedQueue (ParsedEvent R)
  pub deduper : ProcessedLineDeduper
  pub monitors_by_path : Dict String Monitor
  pub offsets : Offsets
  pub sink : S
  pub ingested : ℕ
  pub skipped_duplicates : ℕ
  pub clock_reads : ℕ

-- `LogMonitor.ack_line`
abbrev pub ack_line : ℕ → Monitor → ℕ → Offsets → Offsets
ack_line stamp monitor end states = elim monitor.harvester [
  | none ↦ states
  | some file ↦ commit_offset monitor.file_path file end stamp states
]

abbrev pub ack : ℕ → Dict String Monitor → SourceMeta → Offsets → Offsets
ack stamp monitors meta states = elim (lookup meta.path monitors) [
  | none ↦ states
  | some monitor ↦ ack_line stamp monitor (end_offset meta) states
]

module _ {R S : Type 0} (record_parse_result : R → S → S) (clock : ℕ → ℕ) where
  -- The body of the loop for an event that is new: recorded, marked, acknowledged, counted.
  unfoldable pub ingest_event : ParsedEvent R → Committer R S → Committer R S
  ingest_event event c = record c {
    deduper = mark_processed (position event.meta) (clock (c.clock_reads)) c.deduper;
    offsets = ack (clock c.clock_reads) c.monitors_by_path event.meta c.offsets;
    sink = record_parse_result event.result c.sink;
    ingested = c.ingested + 1;
    clock_reads = c.clock_reads + 1;
  }

  -- And for a duplicate: counted and acknowledged.
  unfoldable pub skip_event : ParsedEvent R → Committer R S → Committer R S
  skip_event event c = record c {
    offsets = ack (clock c.clock_reads) c.monitors_by_path event.meta c.offsets;
    skipped_duplicates = c.skipped_duplicates + 1;
  }

  -- One round of the loop; `true` if the event was new and so stands in `processed`.
  unfoldable pub process_event : ParsedEvent R → Committer R S → Bool × Committer R S
  process_event event c =
      let (duplicate, d) = is_duplicate (position event.meta) (clock c.clock_reads) c.deduper in
      let c' = record c { deduper = d; clock_reads = c.clock_reads + 1 } in
      if duplicate then (false, skip_event event c') else (true, ingest_event event c')

  unfoldable pub process_events :
      List (ParsedEvent R) → Committer R S → List (ParsedEvent R) × Committer R S
  process_events [] c = ([], c)
  process_events (event ∷ events) c =
      let (fresh, c') = process_event event c in
      let (processed, c'') = process_events events c' in
      (if fresh then event ∷ processed else processed, c'')

  unfoldable pub process_available : Option ℕ → Committer R S → List (ParsedEvent R) × Committer R S
  process_available max_items c =
      let (events, q) = drain max_items c.event_queue in
      process_events events (record c { event_queue = q })
