-- ===== src/Pipeline/Committer/Tests.antt =====
-- The theorems on the committer at concrete inputs.
use avengers_fyp_is.Common.{ℕ, ◌+◌, ◌≡◌, refl, false, some, List, [], ◌∷◌, ◌++◌, arith, trim}
use avengers_fyp_is.Pipeline.BoundedQueue.Defs.{block, drain}
use avengers_fyp_is.Pipeline.Deduper.Defs.{expire_from, is_duplicate, mark_processed}
use avengers_fyp_is.Pipeline.Offsets.{FileId, get_offset, commit_offset}
use avengers_fyp_is.Pipeline.Committer.Defs.{
  ParsedEvent, Committer, process_event, process_events, process_available, ingest_event,
  skip_event,
}
use avengers_fyp_is.Pipeline.Committer.Ack.{process_event_offset, rotated_event_moves_new_file}
use avengers_fyp_is.Pipeline.Committer.Once.{Accounts, process_events-Accounts}
use avengers_fyp_is.Pipeline.Committer.Reread.{reread_line_skipped}

abbrev keep : ℕ → List ℕ → List ℕ
keep r s = s ++ (r ∷ [])

abbrev ticks : ℕ → ℕ
ticks n = n

abbrev old_file : FileId
old_file = record { dev = 1; ino = 7 }

abbrev new_file : FileId
new_file = record { dev = 1; ino = 8 }

abbrev line_event : ℕ → ParsedEvent ℕ
line_event n = record {
  meta = record { path = "magic.log"; dev = 1; inode = 7; byte_offset = n; byte_length = 10 };
  result = n;
}

abbrev committer : FileId → Committer ℕ (List ℕ)
committer opened = record {
  event_queue = record {
    capacity = 8;
    overflow_policy = block;
    items = line_event 0 ∷ line_event 10 ∷ line_event 0 ∷ [];
    dropped = 0;
  };
  deduper = record { capacity = 4; ttl_seconds = 100; seen = []; duplicates_suppressed = 0 };
  monitors_by_path =
      ("magic.log", record { file_path = "magic.log"; harvester = some opened }) ∷ [];
  offsets = [];
  sink = [];
  ingested = 0;
  skipped_duplicates = 0;
  clock_reads = 0;
}

abbrev batch : List (ParsedEvent ℕ)
batch = line_event 0 ∷ line_event 10 ∷ line_event 0 ∷ []

drained_sink : (process_available keep ticks (some 3) (committer old_file)).1.sink ≡ 0 ∷ 10 ∷ []
unfolding process_available process_events process_event ingest_event skip_event drain is_duplicate
    mark_processed expire_from trim commit_offset
drained_sink = refl

process_event_offset_example :
    get_offset old_file (process_event keep ticks (line_event 10) (committer old_file)).1.offsets
    ≡ 20
unfolding get_offset
process_event_offset_example =
    process_event_offset keep ticks (line_event 10) (committer old_file) old_file

rotated_event_moves_new_file_example :
    (get_offset new_file (process_event keep ticks (line_event 10) (committer new_file)).1.offsets
      ≡ 20)
    × (get_offset old_file (process_event keep ticks (line_event 10) (committer new_file)).1.offsets
        ≡ get_offset old_file (committer new_file).offsets)
unfolding get_offset
rotated_event_moves_new_file_example =
    rotated_event_moves_new_file keep ticks (line_event 10) (committer new_file) new_file
      (λ e. ground arith) refl (omega arith)

process_events-Accounts_example :
    let (processed, c') = process_events keep ticks batch (committer old_file) in
    Accounts keep ticks batch processed (committer old_file) c'
process_events-Accounts_example = process_events-Accounts keep ticks batch (committer old_file)

reread_line_skipped_example :
    let c1 = (process_event keep ticks (line_event 0) (committer old_file)).1 in
    let c2 = (process_events keep ticks (line_event 10 ∷ []) c1).1 in
    let (fresh, c3) = process_event keep ticks (line_event 0) c2 in
    (fresh ≡ false) × (c3.sink ≡ c2.sink) × (c3.skipped_duplicates ≡ c2.skipped_duplicates + 1)
unfolding process_events process_event ingest_event skip_event is_duplicate mark_processed
    expire_from trim
reread_line_skipped_example =
    reread_line_skipped keep ticks (λ m n h. h) (line_event 0) (line_event 0) (line_event 10 ∷ [])
      (committer old_file) refl refl (omega arith) (omega arith)
