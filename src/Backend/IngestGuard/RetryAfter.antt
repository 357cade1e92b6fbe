-- ===== src/Backend/IngestGuard/RetryAfter.antt =====
-- How long a refused agent has to wait.
use mathlib.Core.Path.{subst}
use text.Mathlib.TextEquality.{eq_iff}
use avengers_fyp_is.Common.{
  ℕ, ◌+◌, ◌-◌, ◌*◌, ◌≤◌, ◌≡◌, ◌≢◌, sym, ap, ◌∙◌, inl, inr, String, List, [], ◌∷◌, arith, leb,
  leb→le, length, Bool-cases, Option-cases, string_eq,
}
use avengers_fyp_is.Common.Dict.{lookup, contains, insert}
use avengers_fyp_is.Backend.IngestGuard.Defs.{
  IngestGuardConfig, Verdict, accept, duplicate, rate_limited, rate_window, IngestGuard,
  expire_seen, slide, whole_seconds, first_of, check_rate, check,
}
use avengers_fyp_is.Backend.IngestGuard.Limit.{
  length-slide, times_of, times_of-insert, IsLimited, not_accept,
}

slide-drops :
    (now : ℕ) (times : List ℕ)
    → 1 ≤ length times
    → first_of times + rate_window ≤ now
    → length (slide now times) + 1 ≤ length times
unfolding slide
slide-drops now [] some_time h = absurd (omega arith)
slide-drops now (at ∷ times) some_time h = ground (arith, length-slide now times)

seconds_of : Verdict → ℕ
seconds_of accept = 0
seconds_of duplicate = 0
seconds_of (rate_limited s) = s

same_wait : (s t : ℕ) → rate_limited s ≡ rate_limited t → s ≡ t
unfolding seconds_of
same_wait s t e = ap seconds_of e

not_duplicate : (s : ℕ) → rate_limited s ≡ duplicate → ⊥
not_duplicate s e = cc e

module _ (config : IngestGuardConfig) where
  record Refused (a : String) (now : ℕ) (g : IngestGuard) (r : Verdict × IngestGuard) : Type 0 where
    full :
        (seconds : ℕ)
        → r.0 ≡ rate_limited seconds
        → config.max_batches_per_minute ≤ length (slide now (times_of a g))
    slid : (seconds : ℕ) → r.0 ≡ rate_limited seconds → times_of a r.1 ≡ slide now (times_of a g)
    wait :
        (seconds : ℕ)
        → r.0 ≡ rate_limited seconds
        → seconds ≡ whole_seconds (first_of (slide now (times_of a g)) + rate_window - now)

  check_rate-Refused :
      (a : String) (now : ℕ) (g : IngestGuard) → Refused a now g (check_rate config a now g)
  unfolding check_rate
  check_rate-Refused a now g = elim (Option-cases (lookup a g.accepted)) [
    | inl absent ↦
        rw (check_rate, absent)
          (record {
            full = λ s e. absurd (not_accept s (sym e));
            slid = λ s e. absurd (not_accept s (sym e));
            wait = λ s e. absurd (not_accept s (sym e));
          })
    | inr (times, present) ↦
        elim (Bool-cases (leb config.max_batches_per_minute (length (slide now times)))) [
          | inl full ↦
              rw (check_rate, present, full)
                (record {
                  full = λ s e. rw present (leb→le _ _ full);
                  slid = λ s e.
                      times_of-insert a a (slide now times) g.accepted
                      ∙ rw present (ground (arith, eq_iff a a));
                  wait = λ s e. rw present (same_wait _ _ (sym e));
                })
          | inr free ↦
              rw (check_rate, present, free)
                (record {
                  full = λ s e. absurd (not_accept s (sym e));
                  slid = λ s e. absurd (not_accept s (sym e));
                  wait = λ s e. absurd (not_accept s (sym e));
                })
        ]
  ]

  check-Refused :
      (a batch_id : String) (now : ℕ) (g : IngestGuard)
      → Refused a now g (check config a batch_id now g)
  unfolding check
  check-Refused a batch_id now g = elim (Option-cases (lookup a g.seen)) [
    | inl absent ↦ rw (check, absent) (check_rate-Refused a now g)
    | inr (seen, present) ↦
        let fresh = expire_seen now config.dedupe_ttl seen in
        let g' = record g { seen = insert a fresh g.seen } in
        let c = check_rate-Refused a now g' in
        elim (Bool-cases (contains batch_id fresh)) [
          | inl known ↦
              rw (check, present, known)
                (record {
                  full = λ s e. absurd (not_duplicate s (sym e));
                  slid = λ s e. absurd (not_duplicate s (sym e));
                  wait = λ s e. absurd (not_duplicate s (sym e));
                })
          | inr unknown ↦
              rw (check, present, unknown) (record { full = c.full; slid = c.slid; wait = c.wait })
        ]
  ]

  -- If no agent has more accepted batches on record than a minute allows, an agent that comes back
  -- after at least the seconds that `check` has told it to wait is not refused for its rate again.
  pub retry_after_suffices :
      (a batch_id : String) (now later seconds again : ℕ) (g : IngestGuard)
      → 1 ≤ config.max_batches_per_minute
      → IsLimited config g
      → (check config a batch_id now g).0 ≡ rate_limited seconds
      → now + seconds * 1000000 ≤ later
      → (check config a batch_id later (check config a batch_id now g).1).0 ≢ rate_limited again
  retry_after_suffices a batch_id now later seconds again g some_room limited refused waited twice =
      let g' = (check config a batch_id now g).1 in
      let first = check-Refused a batch_id now g in
      let second = check-Refused a batch_id later g' in
      let recent = slide now (times_of a g) in
      let still =
        subst (λ times. config.max_batches_per_minute ≤ length (slide later times))
          (first.slid seconds refused) (second.full again twice) in
      absurd (
        omega (
          arith,
          still,
          slide-drops later recent (omega (arith, first.full seconds refused))
              (omega (arith, waited, first.wait seconds refused)),
          limited a,
          length-slide now (times_of a g),
        ))
