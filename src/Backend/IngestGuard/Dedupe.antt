-- ===== src/Backend/IngestGuard/Dedupe.antt =====
-- A batch is recognised when it comes again.
use text.Mathlib.TextEquality.{eq_iff}
use avengers_fyp_is.Common.{
  ℕ, suc, ◌+◌, ◌≤◌, ◌<◌, ◌≡◌, refl, sym, ap, ◌∙◌, inl, inr, true, String, List, [], ◌∷◌, ◌++◌, none,
  some, arith, ltb, leb, length, trim, All, string_eq, ◌==◌, Bool-cases, Option-cases,
}
use avengers_fyp_is.Common.Dict.{
  Dict, lookup, contains, insert, erase, lookup-insert, lookup-erase, lookup-suffix,
}
use avengers_fyp_is.Common.Recent.{Holds, lookup-found, Holds-renew, Holds-trim}
use avengers_fyp_is.Backend.IngestGuard.Defs.{
  IngestGuardConfig, duplicate, IngestGuard, expire_seen, slide, check_rate, check, or_empty,
  commit,
}

-- The calls of the guard, by any agents: `check` and `commit`, with the batch and the time.
pub data Call : Type 0 where
  asks accepts : String → String → ℕ → Call

abbrev pub time_of : Call → ℕ
time_of (asks a b now) = now
time_of (accepts a b now) = now

abbrev pub apply : IngestGuardConfig → Call → IngestGuard → IngestGuard
apply config (asks a b now) g = (check config a b now g).1
apply config (accepts a b now) g = commit config a b now g

abbrev pub run : IngestGuardConfig → List Call → IngestGuard → IngestGuard
run config [] g = g
run config (c ∷ cs) g = run config cs (apply config c g)

abbrev pub Between : ℕ → ℕ → Call → Type 0
Between at ttl c = (at ≤ time_of c) × (time_of c < at + ttl)

-- The agent's entry for the batch is of `at` or later, with at most `n` entries behind it.
abbrev HeldFor : String → String → ℕ → ℕ → Dict String (Dict String ℕ) → Type 0
HeldFor a b at n all = (seen : Dict String ℕ) × (lookup a all ≡ some seen) × Holds b at n seen

Holds-expire :
    (b : String) (at n now ttl : ℕ) (front : Dict String ℕ) (late : ℕ) (back : Dict String ℕ)
    → lookup b front ≡ none
    → at ≤ late
    → length back ≤ n
    → now < at + ttl
    → Holds b at n (expire_seen now ttl (front ++ ((b, late) ∷ back)))
unfolding expire_seen
Holds-expire b at n now ttl [] late back f a l t = ([], late, back, ground arith, refl, a, l)
Holds-expire b at n now ttl ((j, old) ∷ front) late back f a l t =
    elim (Bool-cases (ltb now (old + ttl))) [
      | inl fresh ↦ rw fresh ((j, old) ∷ front, late, back, refl, f, a, l)
      | inr stale ↦ rw stale (
          Holds-expire b at n now ttl front late back (lookup-suffix b ((j, old) ∷ []) front f) a l
            t)
    ]

Holds-more :
    (b : String) (at n : ℕ) (seen : Dict String ℕ) → Holds b at n seen → Holds b at (suc n) seen
Holds-more b at n seen (front, late, back, e, f, a, l) = (front, late, back, e, f, a, omega arith)

-- Another agent's entries do not matter, and of its own the new ones must hold the batch.
HeldFor-insert :
    (a b x : String) (at n : ℕ) (new : Dict String ℕ) (all : Dict String (Dict String ℕ))
    → ((seen : Dict String ℕ)
        → lookup x all ≡ some seen
        → Holds b at n seen
        → Holds b at (suc n) new)
    → HeldFor a b at n all
    → HeldFor a b at (suc n) (insert x new all)
HeldFor-insert a b x at n new all renew (seen, there, held) = elim (Bool-cases (a == x)) [
  | inl same ↦
      let own : lookup x all ≡ some seen =
        ap (λ j. lookup j all) (sym ((eq_iff a x).0 same)) ∙ there in
      (new, lookup-insert a x new all ∙ rw same refl, renew seen own held)
  | inr other ↦ (seen, lookup-insert a x new all ∙ rw other there, Holds-more b at n seen held)
]

module _ (config : IngestGuardConfig) where
  check_rate-seen :
      (x : String) (now : ℕ) (g : IngestGuard) → (check_rate config x now g).1.seen ≡ g.seen
  unfolding check_rate
  check_rate-seen x now g = elim (Option-cases (lookup x g.accepted)) [
    | inl new ↦ rw (check_rate, new) refl
    | inr (times, old) ↦
        elim (Bool-cases (leb config.max_batches_per_minute (length (slide now times)))) [
          | inl full ↦ rw (check_rate, old, full) refl
          | inr free ↦ rw (check_rate, old, free) refl
        ]
  ]

  HeldFor-check :
      (a b x c : String) (at n now : ℕ) (g : IngestGuard)
      → now < at + config.dedupe_ttl
      → HeldFor a b at n g.seen
      → HeldFor a b at (suc n) (check config x c now g).1.seen
  unfolding check
  HeldFor-check a b x c at n now g t held = elim (Option-cases (lookup x g.seen)) [
    | inl unknown ↦
        rw (check, unknown, check_rate-seen) (held.0, held.1, Holds-more b at n held.0 held.2)
    | inr (seen, known) ↦
        let fresh = expire_seen now config.dedupe_ttl seen in
        let renewed =
          HeldFor-insert a b x at n fresh g.seen
            (λ s own h.
              let (front, late, back, e, f, o, l) = h in
              let same : seen ≡ front ++ ((b, late) ∷ back) = cc (known, own, e) in
              rw same (
                Holds-more b at n _
                  (Holds-expire b at n now config.dedupe_ttl front late back f o l t)))
            held in
        elim (Bool-cases (contains c fresh)) [
          | inl hit ↦ rw (check, known, hit) renewed
          | inr miss ↦ rw (check, known, miss, check_rate-seen) renewed
        ]
  ]

  HeldFor-commit :
      (a b x c : String) (at n now : ℕ) (g : IngestGuard)
      → suc n < config.dedupe_cache_size
      → at ≤ now
      → HeldFor a b at n g.seen
      → HeldFor a b at (suc n) (commit config x c now g).seen
  unfolding commit
  HeldFor-commit a b x c at n now g room later held =
      HeldFor-insert a b x at n _ g.seen
        (λ s own h. rw own (
          Holds-trim b at (suc n) config.dedupe_cache_size _ room
            (Holds-renew b c at n now s (λ _. later) h)))
        held

  HeldFor-run :
      (a b : String) (at n : ℕ) (cs : List Call) (g : IngestGuard)
      → n + length cs < config.dedupe_cache_size
      → All (Between at config.dedupe_ttl) cs
      → HeldFor a b at n g.seen
      → HeldFor a b at (n + length cs) (run config cs g).seen
  HeldFor-run a b at n [] g room w held =
      let (seen, there, held_at) = held in
      let (front, late, back, e, f, o, l) = held_at in
      (seen, there, (front, late, back, e, f, o, omega arith))
  HeldFor-run a b at n (asks x c now ∷ cs) g room w held =
      let e : n + suc (length cs) ≡ suc n + length cs = omega arith in
      rw e (
        HeldFor-run a b at (suc n) cs (check config x c now g).1 (omega arith) w.1
          (HeldFor-check a b x c at n now g w.0.1 held))
  HeldFor-run a b at n (accepts x c now ∷ cs) g room w held =
      let e : n + suc (length cs) ≡ suc n + length cs = omega arith in
      rw e (
        HeldFor-run a b at (suc n) cs (commit config x c now g) (omega arith) w.1
          (HeldFor-commit a b x c at n now g (omega arith) w.0.0 held))

  committed_is_held :
      (a b : String) (at : ℕ) (g : IngestGuard)
      → 1 ≤ config.dedupe_cache_size
      → HeldFor a b at 0 (commit config a b at g).seen
  unfolding commit
  committed_is_held a b at g room =
      let seen = or_empty (lookup a g.seen) in
      let same : (b == b) ≡ true = (eq_iff b b).1 refl in
      (
        trim config.dedupe_cache_size (erase b seen ++ ((b, at) ∷ [])),
        lookup-insert a a _ g.seen ∙ ground (arith, eq_iff a a),
        Holds-trim b at 0 config.dedupe_cache_size _ (omega arith) (
          erase b seen,
          at,
          [],
          refl,
          lookup-erase b b seen ∙ rw same refl,
          omega arith,
          omega arith,
        ),
      )

  -- A batch that was committed is a duplicate for the agent until `dedupe_ttl` has passed, whatever checks
  -- and commits, of this agent and of others, come in between, if these are fewer than
  -- `dedupe_cache_size` and fall into the same time span.
  pub commit-duplicate :
      (a b : String) (at now : ℕ) (cs : List Call) (g : IngestGuard)
      → length cs < config.dedupe_cache_size
      → All (Between at config.dedupe_ttl) cs
      → now < at + config.dedupe_ttl
      → (check config a b now (run config cs (commit config a b at g))).0 ≡ duplicate
  unfolding check
  commit-duplicate a b at now cs g room w t =
      let (seen, there, held) =
        HeldFor-run a b at 0 cs (commit config a b at g) (omega arith) w
          (committed_is_held a b at g (omega arith)) in
      let (front, late, back, e, f, o, l) = held in
      let (front', late', back', e', f', o', l') =
        Holds-expire b at (0 + length cs) now config.dedupe_ttl front late back f o l t in
      let found : lookup b (expire_seen now config.dedupe_ttl seen) ≡ some late' =
        rw (e, e') (lookup-found b late' front' back' f') in
      rw (check, there, contains, found) refl
