-- ===== src/Pipeline/Committer/Once.antt =====
-- Every drained event is counted once, and a re-read line is not ingested again.
use avengers_fyp_is.Common.{
  ℕ, ◌+◌, ◌≡◌, inl, inr, refl, ap, ◌∙◌, Bool, true, false, List, [], ◌∷◌, arith, length, Bool-cases,
}
use avengers_fyp_is.Pipeline.Deduper.Defs.{ProcessedLineDeduper, is_duplicate, mark_processed}
use avengers_fyp_is.Pipeline.Committer.Defs.{
  position, ParsedEvent, Committer, ingest_event, skip_event, process_event, process_events,
}

module _ {R S : Type 0} (record_parse_result : R → S → S) (clock : ℕ → ℕ) where
  -- The sink after the results of `events`, in order.
  abbrev pub recorded : List (ParsedEvent R) → S → S
  recorded [] s = s
  recorded (event ∷ events) s = recorded events (record_parse_result event.result s)

  -- What `process_available` promises about the events that it has drained.
  pub record Accounts (events processed : List (ParsedEvent R)) (c c' : Committer R S)
      : Type 0 where
    pub sink : c'.sink ≡ recorded processed c.sink
    pub ingested : c'.ingested ≡ c.ingested + length processed
    pub skipped : c'.skipped_duplicates + length processed ≡ c.skipped_duplicates + length events

  abbrev pub checked : ParsedEvent R → Committer R S → ProcessedLineDeduper
  checked event c = (is_duplicate (position event.meta) (clock c.clock_reads) c.deduper).1

  pub record Skipped (event : ParsedEvent R) (c : Committer R S) (s : Bool × Committer R S)
      : Type 0 where
    pub fresh : s.0 ≡ false
    pub sink : s.1.sink ≡ c.sink
    pub ingested : s.1.ingested ≡ c.ingested
    pub skipped : s.1.skipped_duplicates ≡ c.skipped_duplicates + 1
    pub deduper : s.1.deduper ≡ checked event c
    pub reads : s.1.clock_reads ≡ c.clock_reads + 1

  pub record Ingested (event : ParsedEvent R) (c : Committer R S) (s : Bool × Committer R S)
      : Type 0 where
    pub fresh : s.0 ≡ true
    pub sink : s.1.sink ≡ record_parse_result event.result c.sink
    pub ingested : s.1.ingested ≡ c.ingested + 1
    pub skipped : s.1.skipped_duplicates ≡ c.skipped_duplicates
    pub deduper :
        s.1.deduper
        ≡ mark_processed (position event.meta) (clock (c.clock_reads + 1)) (checked event c)
    pub reads : s.1.clock_reads ≡ c.clock_reads + 1 + 1

  pub process_event-when_seen :
      (event : ParsedEvent R) (c : Committer R S)
      → (is_duplicate (position event.meta) (clock c.clock_reads) c.deduper).0 ≡ true
      → Skipped event c (process_event record_parse_result clock event c)
  unfolding process_event skip_event
  process_event-when_seen event c old =
      rw (old, process_event)
        (record {
          fresh = refl;
          sink = refl;
          ingested = refl;
          skipped = refl;
          deduper = refl;
          reads = refl;
        })

  pub process_event-when_new :
      (event : ParsedEvent R) (c : Committer R S)
      → (is_duplicate (position event.meta) (clock c.clock_reads) c.deduper).0 ≡ false
      → Ingested event c (process_event record_parse_result clock event c)
  unfolding process_event ingest_event
  process_event-when_new event c new =
      rw (new, process_event)
        (record {
          fresh = refl;
          sink = refl;
          ingested = refl;
          skipped = refl;
          deduper = refl;
          reads = refl;
        })

  -- The sink holds exactly the results of the events that `process_events` returns, `ingested`
  -- grows by their number, and `skipped_duplicates` by the number of the other events.
  pub process_events-Accounts :
      (events : List (ParsedEvent R)) (c : Committer R S)
      → let (processed, c') = process_events record_parse_result clock events c in
        Accounts events processed c c'
  unfolding process_events
  process_events-Accounts [] c = record {
    sink = refl;
    ingested = omega arith;
    skipped = omega arith;
  }
  process_events-Accounts (event ∷ events) c =
      let step = process_event record_parse_result clock event c in
      let rest = process_events-Accounts events step.1 in
      elim (Bool-cases (is_duplicate (position event.meta) (clock c.clock_reads) c.deduper).0) [
        | inl old ↦
            let s = process_event-when_seen event c old in
            rw s.fresh (record {
              sink =
                  rest.sink
                  ∙ ap (recorded (process_events record_parse_result clock events step.1).0) s.sink;
              ingested = omega (arith, s.ingested, rest.ingested);
              skipped = omega (arith, s.skipped, rest.skipped);
            })
        | inr new ↦
            let s = process_event-when_new event c new in
            rw s.fresh (record {
              sink =
                  rest.sink
                  ∙ ap (recorded (process_events record_parse_result clock events step.1).0) s.sink;
              ingested = omega (arith, s.ingested, rest.ingested);
              skipped = omega (arith, s.skipped, rest.skipped);
            })
      ]
