-- ===== src/Publishing/Publisher/History.antt =====
-- The publisher's control state over a history of cycles.
use avengers_fyp_is.Common.{
  ℕ, ◌+◌, ◌≤◌, ◌≡◌, refl, ap, ◌∙◌, List, [], ◌∷◌, Option, none, some, arith,
}
use avengers_fyp_is.Publishing.Outcome.{
  PublishAction, commit, drop_rejected, halt, split, retry_after, backoff,
}
use avengers_fyp_is.Publishing.Batch.{Payload}
use avengers_fyp_is.Publishing.Publisher.Defs.{
  PublishConfig, Publisher, Cycle, Surroundings, publish_once,
}
use avengers_fyp_is.Publishing.Publisher.Control.{
  Control, control, control_after, cycle_control, publish_once-control,
}

module _ (config : PublishConfig) where
  -- The batch size stays between 1 and the configured one.
  abbrev pub IsSized : ℕ → Type 0
  IsSized n = (1 ≤ n) × (n ≤ config.max_batch_items)

  control_after-IsSized :
      (now drawn : ℕ) (a : PublishAction) (wait : Option ℕ) (c : Control)
      → IsSized c.max_batch_items
      → IsSized (control_after config now drawn a wait c).max_batch_items
  control_after-IsSized now drawn commit wait c h = ground arith
  control_after-IsSized now drawn split wait c h = (omega arith, omega arith)
  control_after-IsSized now drawn drop_rejected wait c h = h
  control_after-IsSized now drawn halt wait c h = h
  control_after-IsSized now drawn retry_after wait c h = h
  control_after-IsSized now drawn backoff wait c h = h

-- The failure count after a cycle with the given result.
abbrev pub next_failures : ℕ → Option PublishAction → ℕ
next_failures n none = n
next_failures n (some commit) = 0
next_failures n (some backoff) = n + 1
next_failures n (some _) = n

module _ {S E A H : Type 0} (config : PublishConfig) where
  unfoldable pub run_cycles :
      List (Surroundings S E A H)
      → Publisher (Payload S E A)
      → List (Cycle S E A H) × Publisher (Payload S E A)
  run_cycles [] p = ([], p)
  run_cycles (w ∷ ws) p =
      let c = publish_once config w p in let (cs, p') = run_cycles ws c.after in (c ∷ cs, p')

  cycle_control-IsSized :
      (w : Surroundings S E A H) (r : Option PublishAction) (c : Control)
      → IsSized config c.max_batch_items
      → IsSized config (cycle_control config w r c).max_batch_items
  cycle_control-IsSized w none c h = h
  cycle_control-IsSized w (some a) c h = control_after-IsSized config w.now w.drawn a _ c h

  -- Whatever the backend answers, over any history of cycles a batch size between 1 and the configured
  -- `max_batch_items` stays there.
  pub run_cycles-IsSized :
      (ws : List (Surroundings S E A H)) (p : Publisher (Payload S E A))
      → IsSized config p.max_batch_items
      → IsSized config (run_cycles ws p).1.max_batch_items
  unfolding run_cycles
  run_cycles-IsSized [] p h = h
  run_cycles-IsSized (w ∷ ws) p h =
      let c = publish_once config w p in
      run_cycles-IsSized ws c.after (
        rw (ap (λ (k : Control). k.max_batch_items) (publish_once-control config w p))
          (cycle_control-IsSized w c.action (control p) h))

  -- The failures since the last COMMIT of a history.
  abbrev pub failures_after : ℕ → List (Cycle S E A H) → ℕ
  failures_after n [] = n
  failures_after n (c ∷ cs) = failures_after (next_failures n c.action) cs

  cycle_control-failures :
      (w : Surroundings S E A H) (r : Option PublishAction) (c : Control)
      → (cycle_control config w r c).consecutive_failures ≡ next_failures c.consecutive_failures r
  cycle_control-failures w none c = refl
  cycle_control-failures w (some commit) c = refl
  cycle_control-failures w (some drop_rejected) c = refl
  cycle_control-failures w (some halt) c = refl
  cycle_control-failures w (some split) c = refl
  cycle_control-failures w (some retry_after) c = refl
  cycle_control-failures w (some backoff) c = refl

  -- `consecutive_failures`, which the backoff delay is computed from, is the number of BACKOFF
  -- results since the last COMMIT.
  pub run_cycles-failures :
      (ws : List (Surroundings S E A H)) (p : Publisher (Payload S E A))
      → let (cycles, p') = run_cycles ws p in
        p'.consecutive_failures ≡ failures_after p.consecutive_failures cycles
  unfolding run_cycles
  run_cycles-failures [] p = refl
  run_cycles-failures (w ∷ ws) p =
      let c = publish_once config w p in
      run_cycles-failures ws c.after
      ∙ ap (λ n. failures_after n (run_cycles ws c.after).0)
          (ap (λ (k : Control). k.consecutive_failures) (publish_once-control config w p)
            ∙ cycle_control-failures w c.action (control p))
