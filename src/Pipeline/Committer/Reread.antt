-- ===== src/Pipeline/Committer/Reread.antt =====
-- A line that is read again is not ingested again.
use avengers_fyp_is.Common.{
  ℕ, ◌+◌, ◌*◌, ◌≤◌, ◌<◌, ◌≡◌, inl, inr, refl, ap, sym, ◌∙◌, true, false, List, [], ◌∷◌, ◌++◌, arith,
  length, length-append, All, All-append, Bool-cases,
}
use avengers_fyp_is.Pipeline.Deduper.Defs.{ProcessedLineDeduper, is_duplicate}
use avengers_fyp_is.Pipeline.Deduper.Calls.{Call, check, mark, apply, run, apply-settings}
use avengers_fyp_is.Pipeline.Deduper.Once.{Between, processed_is_duplicate}
use avengers_fyp_is.Pipeline.Committer.Once.{
  checked, process_event-when_seen, process_event-when_new,
}
use avengers_fyp_is.Pipeline.Committer.Defs.{
  position, ParsedEvent, Committer, process_event, process_events,
}

run-append : (a b : List Call) (d : ProcessedLineDeduper) → run (a ++ b) d ≡ run b (run a d)
unfolding run
run-append [] b d = refl
run-append (c ∷ a) b d = run-append a b (apply c d)

All-weaken :
    (lo lo' hi hi' : ℕ) (cs : List Call)
    → lo' ≤ lo
    → hi ≤ hi'
    → All (Between lo hi) cs
    → All (Between lo' hi') cs
All-weaken lo lo' hi hi' [] l h w = tt
All-weaken lo lo' hi hi' (c ∷ cs) l h w =
    ((omega (arith, w.0.0), omega (arith, w.0.1)), All-weaken lo lo' hi hi' cs l h w.1)

module _ {R S : Type 0} (record_parse_result : R → S → S) (clock : ℕ → ℕ)
    (clock_monotone : (m n : ℕ) → m ≤ n → clock m ≤ clock n) where
  -- The calls on the deduper between two states, at times between two readings of the clock.
  record Steps (n : ℕ) (c c' : Committer R S) : Type 0 where
    calls : List Call
    later : c.clock_reads ≤ c'.clock_reads
    reached : c'.deduper ≡ run calls c.deduper
    few : length calls ≤ n
    inside : All (Between (clock c.clock_reads) (clock c'.clock_reads)) calls

  process_event-Steps :
      (event : ParsedEvent R) (c : Committer R S)
      → Steps 2 c (process_event record_parse_result clock event c).1
  unfolding run apply
  process_event-Steps event c =
      let p = position event.meta in
      let now = c.clock_reads in
      let c' = (process_event record_parse_result clock event c).1 in
      elim (Bool-cases (is_duplicate p (clock now) c.deduper).0) [
        | inl old ↦
            let s = process_event-when_seen record_parse_result clock event c old in
            record {
              calls = check p (clock now) ∷ [];
              later = omega (arith, s.reads);
              reached = s.deduper;
              few = omega arith;
              inside =
                  ((omega arith, clock_monotone now c'.clock_reads (omega (arith, s.reads))), tt);
            }
        | inr new ↦
            let s = process_event-when_new record_parse_result clock event c new in
            record {
              calls = check p (clock now) ∷ mark p (clock (now + 1)) ∷ [];
              later = omega (arith, s.reads);
              reached = s.deduper;
              few = omega arith;
              inside = (
                (omega arith, clock_monotone now c'.clock_reads (omega (arith, s.reads))),
                (
                  (
                    clock_monotone now (now + 1) (omega arith),
                    clock_monotone (now + 1) c'.clock_reads (omega (arith, s.reads)),
                  ),
                  tt,
                ),
              );
            }
      ]

  process_events-Steps :
      (events : List (ParsedEvent R)) (c : Committer R S)
      → Steps (2 * length events) c (process_events record_parse_result clock events c).1
  unfolding process_events run
  process_events-Steps [] c = record {
    calls = [];
    later = omega arith;
    reached = refl;
    few = omega arith;
    inside = tt;
  }
  process_events-Steps (event ∷ events) c =
      let m = (process_event record_parse_result clock event c).1 in
      let e = (process_events record_parse_result clock events m).1 in
      let s = process_event-Steps event c in
      let r = process_events-Steps events m in
      record {
        calls = s.calls ++ r.calls;
        later = omega (arith, s.later, r.later);
        reached =
            r.reached ∙ ap (run r.calls) s.reached ∙ sym (run-append s.calls r.calls c.deduper);
        few = omega (arith, s.few, r.few, length-append {0} s.calls r.calls);
        inside =
            All-append _ s.calls r.calls
              (All-weaken _ _ _ _ s.calls (omega arith)
                (clock_monotone m.clock_reads e.clock_reads r.later) s.inside)
              (All-weaken _ _ _ _ r.calls (clock_monotone c.clock_reads m.clock_reads s.later)
                (omega arith) r.inside);
      }

  -- A line that was ingested and is read again within `ttl`, with fewer than `capacity / 2` events
  -- in between, is skipped: the sink is unchanged and the skip is counted.
  pub reread_line_skipped :
      (event again : ParsedEvent R) (between : List (ParsedEvent R)) (c : Committer R S)
      → (process_event record_parse_result clock event c).0 ≡ true
      → position again.meta ≡ position event.meta
      → 2 * length between < c.deduper.capacity
      → let c1 = (process_event record_parse_result clock event c).1 in
        let c2 = (process_events record_parse_result clock between c1).1 in
        clock c2.clock_reads ≤ clock (c.clock_reads + 1) + c.deduper.ttl_seconds
        → let (fresh, c3) = process_event record_parse_result clock again c2 in
          (fresh ≡ false)
          × (c3.sink ≡ c2.sink)
          × (c3.skipped_duplicates ≡ c2.skipped_duplicates + 1)
  unfolding apply
  reread_line_skipped event again between c first same few soon =
      let p = position event.meta in
      let at = clock (c.clock_reads + 1) in
      let c1 = (process_event record_parse_result clock event c).1 in
      let c2 = (process_events record_parse_result clock between c1).1 in
      elim (Bool-cases (is_duplicate p (clock c.clock_reads) c.deduper).0) [
        | inl old ↦
            absurd (
              ground (arith, (process_event-when_seen record_parse_result clock event c old).fresh))
        | inr new ↦
            let s = process_event-when_new record_parse_result clock event c new in
            let r = process_events-Steps between c1 in
            let d = checked record_parse_result clock event c in
            let k = apply-settings (check p (clock c.clock_reads)) c.deduper in
            let known =
              processed_is_duplicate p at (clock c2.clock_reads) r.calls d
                (omega (arith, r.few, k.0))
                (All-weaken _ _ _ _ r.calls
                  (clock_monotone (c.clock_reads + 1) c1.clock_reads (omega (arith, s.reads)))
                  (omega (arith, k.1)) r.inside)
                (omega (arith, k.1)) in
            let t =
              process_event-when_seen record_parse_result clock again c2
                (rw (same, r.reached, s.deduper) known) in
            (t.fresh, t.sink, t.skipped)
      ]
