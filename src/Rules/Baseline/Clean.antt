-- ===== src/Rules/Baseline/Clean.antt =====
-- The samples of a baseline come from windows without an anomaly, and the windows do not overlap.
use mathlib.Core.Path.{sym, subst}
use mathlib.Core.List.{append-nil, append_assoc}
use avengers_fyp_is.Common.{
  ℕ, ◌+◌, ◌≤◌, ◌<◌, ◌≡◌, refl, ◌⊎◌, inl, inr, Bool, true, false, not, ◌||◌, List, [], ◌∷◌, ◌++◌,
  Option, none, some, ltb-false, arith, All, All-append, Bool-cases,
}
use avengers_fyp_is.Rules.Baseline.State.{
  Sample, RuleBaseline, is_pending, still_in_window, offer, settle_state, new_baseline, Shape, Tick,
  too_thin, learning, judged, tick, run_ticks,
}
use avengers_fyp_is.Rules.Baseline.Samples.{
  time_of, Increasing, anomaly_of, anomalies, IsNormal, AreApart, Ended, IsPast, Waiting, Learned,
}
use avengers_fyp_is.Rules.Baseline.Promotion.{Before, Promoted, promote-Promoted}

add-past : (now : ℕ) (last : Option ℕ) (at : List ℕ) → IsPast now last at → All (λ a. a ≤ now) at
add-past now none at p = subst (λ l. All (λ a. a ≤ now) l) (sym p) tt
add-past now (some last) at p = below at p.0
  where
    below : (at : List ℕ) → All (λ a. a ≤ last) at → All (λ a. a ≤ now) at
    below [] h = tt
    below (a ∷ at) h = (omega (arith, h.0, p.1), below at h.1)

module _ {V : Type 0} (window : ℕ) where
  fresh-IsNormal :
      (last now : ℕ) (at : List ℕ) (s : Sample V)
      → s.at ≡ now
      → last + window ≤ now
      → All (λ a. a ≤ last) at
      → IsNormal window at s
  fresh-IsNormal last now [] s e h p = tt
  fresh-IsNormal last now (a ∷ at) s e h p =
      (inl (omega (arith, p.0)), fresh-IsNormal last now at s e h p.1)

  pending_sample-IsNormal :
      (now : ℕ) (last : Option ℕ) (at : List ℕ) (s : Sample V)
      → s.at ≡ now
      → still_in_window now window last ≡ false
      → IsPast now last at
      → IsNormal window at s
  pending_sample-IsNormal now none at s e h p = subst (λ l. IsNormal window l s) (sym p) tt
  pending_sample-IsNormal now (some last) at s e h p =
      fresh-IsNormal last now at s e (ltb-false now (last + window) h) p.0

  offer-Learned :
      (at : List ℕ) (now : ℕ) (sample : Sample V) (warm anomalous : Bool) (b : RuleBaseline V)
      → Learned window at now b
      → Learned window at now (offer sample now window warm anomalous b)
  unfolding offer
  offer-Learned at now sample warm anomalous b l =
      elim (Bool-cases (anomalous || (not warm || is_pending b.pending))) [
        | inl refused ↦ rw refused l
        | inr taken ↦ elim (Bool-cases (still_in_window now window b.last_anomalous_at)) [
          | inl too_soon ↦ rw (taken, too_soon) l
          | inr clear ↦
              let p : Sample V = record {
                at = now;
                value = sample.value;
                weight = sample.weight;
              } in
              rw (taken, clear)
                (record {
                  normal = l.normal;
                  apart = l.apart;
                  ended = l.ended;
                  waiting = (
                    pending_sample-IsNormal now b.last_anomalous_at at p refl clear l.past,
                    (l.ended, omega arith),
                  );
                  past = l.past;
                })
        ]
      ]

  add-IsNormal :
      (at : List ℕ) (now : ℕ) (s : Sample V)
      → s.at < now
      → IsNormal window at s
      → IsNormal window (at ++ (now ∷ [])) s
  add-IsNormal at now s h n =
      All-append (λ a. (a + window ≤ s.at) ⊎ (s.at < a)) at (now ∷ []) n (inr h, tt)

  All-add-IsNormal :
      (at : List ℕ) (now : ℕ) (history : List (Sample V))
      → 1 ≤ window
      → Ended window now history
      → All (IsNormal window at) history
      → All (IsNormal window (at ++ (now ∷ []))) history
  All-add-IsNormal at now [] h e n = tt
  All-add-IsNormal at now (s ∷ history) h e n =
      (add-IsNormal at now s (omega (arith, e.0)) n.0, All-add-IsNormal at now history h e.1 n.1)

  add-Waiting :
      (at : List ℕ) (now : ℕ) (history : List (Sample V)) (o : Option (Sample V))
      → Before window now o
      → Waiting window at now history o
      → Waiting window (at ++ (now ∷ [])) now history o
  add-Waiting at now history none h w = w
  add-Waiting at now history (some p) h w = (add-IsNormal at now p h w.0, w.1)

  marked-Learned :
      (at : List ℕ) (now : ℕ) (b : RuleBaseline V)
      → 1 ≤ window
      → Promoted window at now b
      → Learned window (at ++ (now ∷ [])) now (record b { last_anomalous_at = some now })
  marked-Learned at now b h p =
      let l = p.learned in
      record {
        normal = All-add-IsNormal at now b.history h l.ended l.normal;
        apart = l.apart;
        ended = l.ended;
        waiting = add-Waiting at now b.history b.pending p.before l.waiting;
        past = (
          All-append (λ a. a ≤ now) at (now ∷ []) (add-past now b.last_anomalous_at at l.past)
              (omega arith, tt),
          omega arith,
        );
      }

module _ {V : Type 0} (window baseline : ℕ) where
  tick-Learned :
      (t : Tick V) (at : List ℕ) (m : ℕ) (b : RuleBaseline V)
      → 1 ≤ window
      → m < time_of t
      → Learned window at m b
      → Learned window (at ++ anomaly_of t) (time_of t) (tick window baseline t b)
  unfolding tick settle_state offer
  tick-Learned (too_thin now) at m b some_length h l =
      rw (append-nil at) (promote-Promoted window at m now baseline b h l).learned
  tick-Learned (learning now sample warm) at m b some_length h l = rw (append-nil at) (
      offer-Learned window at now sample warm false _
        (promote-Promoted window at m now baseline b h l).learned)
  tick-Learned (judged now sample false) at m b some_length h l = rw (append-nil at) (
      offer-Learned window at now sample true false _
        (promote-Promoted window at m now baseline b h l).learned)
  tick-Learned (judged now sample true) at m b some_length h l =
      marked-Learned window at now _ some_length (promote-Promoted window at m now baseline b h l)

  run_ticks-Learned :
      (ticks : List (Tick V)) (at : List ℕ) (m : ℕ) (b : RuleBaseline V)
      → 1 ≤ window
      → Increasing m ticks
      → Learned window at m b
      → (n : ℕ) × Learned window (at ++ anomalies ticks) n (run_ticks window baseline ticks b)
  run_ticks-Learned [] at m b some_length h l = (m, rw (append-nil at) l)
  run_ticks-Learned (t ∷ ticks) at m b some_length h l =
      let (n, r) =
        run_ticks-Learned ticks (at ++ anomaly_of t) (time_of t) (tick window baseline t b)
          some_length h.1 (tick-Learned t at m b some_length h.0 l) in
      (
        n,
        subst (λ xs. Learned window xs n (run_ticks window baseline (t ∷ ticks) b))
            (append_assoc at (anomaly_of t) (anomalies ticks)) r,
      )

  -- Over any evaluations of a rule at increasing times, with a window that is not empty: no sample of
  -- the baseline comes from a window, its end included, in which the rule was anomalous at some
  -- evaluation, and the windows of any two samples do not overlap.
  pub baseline_clean :
      (shape : Shape) (ticks : List (Tick V))
      → 1 ≤ window
      → Increasing 0 ticks
      → let b = run_ticks window baseline ticks (new_baseline shape) in
        All (IsNormal window (anomalies ticks)) b.history × AreApart window b.history
  baseline_clean shape ticks some_length h =
      let start : Learned window [] 0 (new_baseline shape) = record {
        normal = tt;
        apart = tt;
        ended = tt;
        waiting = tt;
        past = refl;
      } in
      let (n, l) = run_ticks-Learned ticks [] 0 (new_baseline shape) some_length h start in
      (l.normal, l.apart)
