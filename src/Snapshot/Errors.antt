-- ===== src/Snapshot/Errors.antt =====
-- IgnoreErr: which errors Load still returns.
use semvi_btp.Common.{
  ◌≡◌, refl, subst, ◌⊎◌, inl, inr, Bool, true, false, not, Option, none, some, List, if◌then◌else◌,
  Run, returns, panics,
}
use semvi_btp.Common.Errors.{GoError, wrapped}
use semvi_btp.Snapshot.Defs.{
  Resources, Options, SnapshotOption, options_of, SchedulerService, Configurations, Client,
}
use semvi_btp.Snapshot.Apply.{
  Task, finished, apply, restart_failure, after_restart, restarted, load,
}
use semvi_btp.Snapshot.Tasks.{Succeeds, Succeeds-phase, KeepsTasks, apply-NeverFails}

module _ {W O A C E : Type 0} (client : Client W O A E) (schedulers : SchedulerService W C E)
    (configs : Configurations A) (schedule : List (Task W E) → List (Task W E))
    (keeps : KeepsTasks schedule) where
  -- The restart, from this state, leaves the next one with an error of a service that is enabled;
  -- the call's error wraps it.
  abbrev pub RestartFails : Resources A C → W → W → GoError E → Type 0
  RestartFails r w v e =
      (f : GoError E) × (schedulers.restart_scheduler r.scheduler_config w ≡ (v, some f))
      × (schedulers.is_disabled f ≡ false)
      × (e ≡ wrapped "restart scheduler with loaded configuration" f)

  -- The options ask for no restart, or it gives no error but that the service is disabled.
  abbrev pub RestartPasses : Options → Resources A C → W → Type 0
  RestartPasses opts r w =
      (opts.ignore_scheduler_configuration ≡ true)
      ⊎ ((f : GoError E)
          → (schedulers.restart_scheduler r.scheduler_config w).1 ≡ some f
          → schedulers.is_disabled f ≡ true)

  -- The call returns an error exactly if the options ask for a restart and that fails; the error is
  -- then that of the restart, and the state the one that the restart left.
  abbrev pub OnlyRestartFails : Options → Resources A C → W → Run (W × Option (GoError E)) → Type 0
  OnlyRestartFails opts r w (returns (v, none)) = RestartPasses opts r w
  OnlyRestartFails opts r w (returns (v, some e)) =
      (opts.ignore_scheduler_configuration ≡ false) × RestartFails r w v e
  OnlyRestartFails opts r w panics = RestartPasses opts r w

  only_restart :
      (opts : Options) (r : Resources A C) (w : W)
      → opts.ignore_err ≡ true
      → OnlyRestartFails opts r w (
          after_restart client schedulers configs schedule opts r (
            if not opts.ignore_scheduler_configuration
            then restarted client schedulers configs schedule r w
            else (w, none)))
  only_restart opts r w h = by_option opts.ignore_scheduler_configuration refl
    where
      applied_all :
          (v : W)
          → RestartPasses opts r w
          → OnlyRestartFails opts r w
              (after_restart client schedulers configs schedule opts r (v, none))
      applied_all v passes = from_success _ (
          Succeeds-phase (apply client configs schedule opts r v) "failed to apply()" finished
            (apply-NeverFails client configs opts h schedule keeps r v) (λ u. tt))
        where
          from_success :
              (m : Run (W × Option (GoError E))) → Succeeds m → OnlyRestartFails opts r w m
          from_success (returns (u, none)) k = passes
          from_success (returns (u, some e)) k = absurd k
          from_success panics k = passes

      by_service :
          (v : W) (f : GoError E) (disabled : Bool)
          → opts.ignore_scheduler_configuration ≡ false
          → schedulers.restart_scheduler r.scheduler_config w ≡ (v, some f)
          → schedulers.is_disabled f ≡ disabled
          → OnlyRestartFails opts r w (
              after_restart client schedulers configs schedule opts r
                (v, restart_failure client schedulers configs schedule (some f)))
      by_service v f true off same d = rw d (
          applied_all v
            (inr (λ g k. let e : f ≡ g = cc in subst (λ x. schedulers.is_disabled x ≡ true) e d)))
      by_service v f false off same d =
          let found : OnlyRestartFails opts r w
              (returns (v, some (wrapped "restart scheduler with loaded configuration" f))) =
            (off, (f, same, d, refl)) in
          rw d found

      by_restart :
          opts.ignore_scheduler_configuration ≡ false
          → (t : W × Option (GoError E)) → schedulers.restart_scheduler r.scheduler_config w ≡ t
          → OnlyRestartFails opts r w (
              after_restart client schedulers configs schedule opts r
                (t.0, restart_failure client schedulers configs schedule t.1))
      by_restart off (v, none) e = applied_all v (inr (λ f k. absurd cc))
      by_restart off (v, some f) e = by_service v f (schedulers.is_disabled f) off e refl

      by_option :
          (b : Bool)
          → opts.ignore_scheduler_configuration ≡ b
          → OnlyRestartFails opts r w (
              after_restart client schedulers configs schedule opts r
                (if not b then restarted client schedulers configs schedule r w else (w, none)))
      by_option true e = applied_all w (inl e)
      by_option false e = by_restart e (schedulers.restart_scheduler r.scheduler_config w) refl

  -- `Load` with IgnoreErr returns an error exactly if the scheduler's restart fails, which is not
  -- done where the configuration is ignored too, and which a disabled service does not count as. It
  -- is the restart's error, wrapped, and nothing is applied after it; no error of an apply is
  -- returned. The goroutines of a group are run in some order, none that was not started.
  pub load-OnlyRestartFails :
      (xs : List SnapshotOption) (r : Resources A C) (w : W)
      → (options_of xs).ignore_err ≡ true
      → OnlyRestartFails (options_of xs) r w (load client schedulers configs schedule xs r w)
  unfolding load
  load-OnlyRestartFails xs r w h = only_restart (options_of xs) r w h
