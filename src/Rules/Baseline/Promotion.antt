-- ===== src/Rules/Baseline/Promotion.antt =====
-- Promotion and expiry keep what is to be shown of the samples.
use mathlib.Core.Path.{sym, subst}
use avengers_fyp_is.Common.{
  ℕ, ◌+◌, ◌≤◌, ◌<◌, ◌≡◌, refl, inl, inr, List, [], ◌∷◌, ◌++◌, Option, none, some, leb, leb→le,
  arith, All-append, Bool-cases,
}
use avengers_fyp_is.Rules.Baseline.State.{Sample, RuleBaseline, expire_history, join, promote}
use avengers_fyp_is.Rules.Baseline.Samples.{
  IsNormal, Ended, IsPast, Waiting, Learned, All-expire_history, AreApart-expire_history,
  AreApart-append, later-Ended,
}

later-IsPast :
    (m n : ℕ) (last : Option ℕ) (at : List ℕ) → m ≤ n → IsPast m last at → IsPast n last at
later-IsPast m n none at h p = p
later-IsPast m n (some last) at h p = (p.0, omega (arith, p.1))

module _ {V : Type 0} (window : ℕ) where
  abbrev pub Before : ℕ → Option (Sample V) → Type 0
  Before now none = Unit
  Before now (some p) = p.at < now

  -- What holds behind `_promote`: what is pending was offered earlier.
  pub record Promoted (at : List ℕ) (now : ℕ) (b : RuleBaseline V) : Type 0 where
    pub learned : Learned window at now b
    pub before : Before now b.pending

  join-Promoted :
      (at : List ℕ) (m now : ℕ) (o : Option (Sample V)) (b : RuleBaseline V)
      → b.pending ≡ o
      → m < now
      → Learned window at m b
      → Promoted at now (join now window o b)
  unfolding join
  join-Promoted at m now none b e h l =
      let later = later-Ended window m now b.history (omega arith) l.ended in
      record {
        learned = record {
          normal = l.normal;
          apart = l.apart;
          ended = later;
          waiting = subst (Waiting window at now b.history) (sym e) later;
          past = later-IsPast m now b.last_anomalous_at at (omega arith) l.past;
        };
        before = subst (Before now) (sym e) tt;
      }
  join-Promoted at m now (some p) b e h l =
      let w : Waiting window at m b.history (some p) =
        subst (Waiting window at m b.history) e l.waiting in
      let past = later-IsPast m now b.last_anomalous_at at (omega arith) l.past in
      elim (Bool-cases (leb (p.at + window) now)) [
        | inl over ↦
            let ended : Ended window now (b.history ++ (p ∷ [])) =
              All-append (λ s. s.at + window ≤ now) b.history (p ∷ [])
                (later-Ended window p.at now b.history (omega (arith, w.1.1)) w.1.0)
                (leb→le _ _ over, tt) in
            rw over (record {
              learned = record {
                normal = All-append (IsNormal window at) b.history (p ∷ []) l.normal (w.0, tt);
                apart = AreApart-append window b.history p l.apart w.1.0;
                ended = ended;
                waiting = ended;
                past = past;
              };
              before = tt;
            })
        | inr running ↦ rw running (record {
          learned = record {
            normal = l.normal;
            apart = l.apart;
            ended = later-Ended window m now b.history (omega arith) l.ended;
            waiting =
                subst (Waiting window at now b.history) (sym e)
                  (w.0, (w.1.0, omega (arith, w.1.1)));
            past = past;
          };
          before = subst (Before now) (sym e) (omega (arith, w.1.1));
        })
      ]

  expire-Waiting :
      (at : List ℕ) (now baseline : ℕ) (history : List (Sample V)) (o : Option (Sample V))
      → Waiting window at now history o
      → Waiting window at now (expire_history now baseline history) o
  expire-Waiting at now baseline history none w =
      All-expire_history (λ s. s.at + window ≤ now) now baseline history w
  expire-Waiting at now baseline history (some p) w =
      (w.0, (All-expire_history (λ s. s.at + window ≤ p.at) now baseline history w.1.0, w.1.1))

  pub promote-Promoted :
      (at : List ℕ) (m now baseline : ℕ) (b : RuleBaseline V)
      → m < now
      → Learned window at m b
      → Promoted at now (promote now window baseline b)
  unfolding promote
  promote-Promoted at m now baseline b h l =
      let b' = join now window b.pending b in
      let p = join-Promoted at m now b.pending b refl h l in
      let k = p.learned in
      record {
        learned = record {
          normal = All-expire_history (IsNormal window at) now baseline b'.history k.normal;
          apart = AreApart-expire_history window now baseline b'.history k.apart;
          ended = All-expire_history (λ s. s.at + window ≤ now) now baseline b'.history k.ended;
          waiting = expire-Waiting at now baseline b'.history b'.pending k.waiting;
          past = k.past;
        };
        before = p.before;
      }
