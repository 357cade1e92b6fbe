-- ===== src/Backend/IngestGuard/Limit.antt =====
-- The limit on the batches that an agent has accepted within a minute.
use text.Mathlib.TextEquality.{eq_iff}
use avengers_fyp_is.Common.{
  ℕ, ◌≤◌, ◌<◌, ◌≡◌, refl, ap, ◌∙◌, inl, inr, false, String, List, [], ◌∷◌, ◌++◌, some, arith, leb,
  leb-false, length, length-append, Bool-cases, Option-cases, string_eq, ◌==◌, if◌then◌else◌,
}
use avengers_fyp_is.Common.Dict.{Dict, lookup, contains, insert, lookup-insert}
use avengers_fyp_is.Backend.IngestGuard.Defs.{
  IngestGuardConfig, Verdict, accept, rate_limited, IngestGuard, expire_seen, slide, check_rate,
  check, or_empty, commit,
}

pub length-slide : (now : ℕ) (times : List ℕ) → length (slide now times) ≤ length times
unfolding slide
length-slide now [] = omega arith
length-slide now (at ∷ times) = ground (arith, length-slide now times)

-- The accept times of an agent.
abbrev pub times_of : String → IngestGuard → List ℕ
times_of agent_id g = or_empty (lookup agent_id g.accepted)

pub times_of-insert :
    (c a : String) (times : List ℕ) (accepted : Dict String (List ℕ))
    → or_empty (lookup c (insert a times accepted))
      ≡ (if c == a then times else or_empty (lookup c accepted))
times_of-insert c a times accepted = elim (Bool-cases (c == a)) [
  | inl same ↦ rw (lookup-insert c a times accepted, same) refl
  | inr other ↦ rw (lookup-insert c a times accepted, other) refl
]

pub not_accept : (s : ℕ) → rate_limited s ≡ accept → ⊥
not_accept s e = cc e

module _ (config : IngestGuardConfig) where
  -- No agent has more accepted batches on record than a minute allows.
  abbrev pub IsLimited : IngestGuard → Type 0
  IsLimited g = (agent_id : String) → length (times_of agent_id g) ≤ config.max_batches_per_minute

  -- What `check` does to the accept times, and what its verdict says of them.
  record Checked (a : String) (now : ℕ) (g : IngestGuard) (r : Verdict × IngestGuard) : Type 0 where
    others : (c : String) → (c == a) ≡ false → times_of c r.1 ≡ times_of c g
    own : length (times_of a r.1) ≤ length (times_of a g)
    room :
        r.0 ≡ accept
        → 1 ≤ config.max_batches_per_minute
        → length (times_of a r.1) < config.max_batches_per_minute

  slid-Checked :
      (a : String) (now : ℕ) (g : IngestGuard) (times : List ℕ) (v : Verdict)
      → lookup a g.accepted ≡ some times
      → (v ≡ accept → length (slide now times) < config.max_batches_per_minute)
      → Checked a now g (v, record g { accepted = insert a (slide now times) g.accepted })
  slid-Checked a now g times v present room =
      let own : times_of a (record g { accepted = insert a (slide now times) g.accepted })
          ≡ slide now times =
        times_of-insert a a (slide now times) g.accepted ∙ ground (arith, eq_iff a a) in
      record {
        others = λ c other. times_of-insert c a (slide now times) g.accepted ∙ rw other refl;
        own = rw (own, present) (length-slide now times);
        room = λ ok some_room. rw own (room ok);
      }

  check_rate-Checked :
      (a : String) (now : ℕ) (g : IngestGuard) → Checked a now g (check_rate config a now g)
  unfolding check_rate
  check_rate-Checked a now g = elim (Option-cases (lookup a g.accepted)) [
    | inl absent ↦
        rw (check_rate, absent)
          (record {
            others = λ c other. refl;
            own = omega arith;
            room = λ ok some_room. rw absent some_room;
          })
    | inr (times, present) ↦
        elim (Bool-cases (leb config.max_batches_per_minute (length (slide now times)))) [
          | inl full ↦
              rw (check_rate, present, full)
                (slid-Checked a now g times _ present (λ e. absurd (not_accept _ e)))
          | inr free ↦
              rw (check_rate, present, free)
                (slid-Checked a now g times accept present (λ e. leb-false _ _ free))
        ]
  ]

  check-Checked :
      (a batch_id : String) (now : ℕ) (g : IngestGuard)
      → Checked a now g (check config a batch_id now g)
  unfolding check
  check-Checked a batch_id now g = elim (Option-cases (lookup a g.seen)) [
    | inl absent ↦ rw (check, absent) (check_rate-Checked a now g)
    | inr (seen, present) ↦
        let fresh = expire_seen now config.dedupe_ttl seen in
        let g' = record g { seen = insert a fresh g.seen } in
        let c = check_rate-Checked a now g' in
        elim (Bool-cases (contains batch_id fresh)) [
          | inl known ↦
              rw (check, present, known)
                (record { others = λ d other. refl; own = omega arith; room = λ e. absurd (cc e) })
          | inr unknown ↦
              rw (check, present, unknown)
                (record { others = c.others; own = c.own; room = c.room })
        ]
  ]

  -- If no agent has more accepted batches on record than a minute allows, then this is still so after
  -- a batch that `check` has accepted is committed, whatever the clock says by then.
  pub commit-IsLimited :
      (a batch_id : String) (now later : ℕ) (g : IngestGuard)
      → 1 ≤ config.max_batches_per_minute
      → IsLimited g
      → (check config a batch_id now g).0 ≡ accept
      → IsLimited (commit config a batch_id later (check config a batch_id now g).1)
  unfolding commit
  commit-IsLimited a batch_id now later g some_room limited ok c =
      let g' = (check config a batch_id now g).1 in
      let k = check-Checked a batch_id now g in
      let after = slide later (times_of a g') ++ (later ∷ []) in
      let e = times_of-insert c a after g'.accepted in
      elim (Bool-cases (c == a)) [
        | inl same ↦
            rw (e, same)
              (omega (
                arith,
                length-append {0} (slide later (times_of a g')) (later ∷ []),
                length-slide later (times_of a g'),
                k.room ok some_room,
              ))
        | inr other ↦ rw (e, other) (omega (arith, ap length (k.others c other), limited c))
      ]
