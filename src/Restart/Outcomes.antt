-- ===== src/Restart/Outcomes.antt =====
-- What the scheduler's file and the service's configuration are after a restart.
use semvi_btp.Common.{
  ◌≡◌, refl, ◌∙◌, String, Bool, true, false, not, Option, none, some, List, [], ◌∷◌, ◌==◌,
  if◌then◌else◌, ◌⊎◌, inl, inr, Run, returns, panics, ◌>>=◌, Try, ok, err,
}
use semvi_btp.Common.Errors.{GoError, message}
use semvi_btp.Restart.Defs.{
  Container, Docker, Files, Service, get_scheduler_config, encoded, failing_with, write_encoded,
  update_scheduler_config, inspected, container_restarted, config_updated, restart_if,
  restart_named, restart_first, restart_listed, restart_container, rolled_back,
  restarted_or_rolled_back, restart_scheduler,
}

-- What is known of the machine: `content` is the scheduler's file, which a write that does not fail
-- sets and the restart of a container keeps.
pub record IsMachine {W C Y E : Type 0} (docker : Docker W E) (files : Files W C Y E)
    (path : String) (content : W → Option String) : Type 0 where
  pub writes :
      (text : String) (w v : W) → files.write_file path text w ≡ (v, none) → content v ≡ some text
  pub keeps :
      (id : String) (w v : W) → docker.container_restart id w ≡ (v, none) → content v ≡ content w

module _ {W C Y E : Type 0} (docker : Docker W E) (files : Files W C Y E) (path : String)
    (content : W → Option String) (laws : IsMachine docker files path content) where
  -- If there is no error, the file has the text.
  abbrev Holds : String → W × Option (GoError E) → Type 0
  Holds text (v, none) = content v ≡ some text
  Holds text (v, some e) = Unit

  abbrev RunHolds : String → Run (W × Option (GoError E)) → Type 0
  RunHolds text (returns r) = Holds text r
  RunHolds text panics = Unit

  Holds-inspected :
      (text : String) (w : W) (t : Try E String)
      → content w ≡ some text
      → Holds text (inspected docker files path w t)
  Holds-inspected text w (err e) h = tt
  Holds-inspected text w (ok status) h = by_status (not (status == "running"))
    where
      by_status :
          (b : Bool)
          → Holds text
              (w, if b then some (message "restart container status is not running") else none)
      by_status true = tt
      by_status false = h

  Holds-restarted :
      (text : String) (c : Container) (w : W) (t : W × Option E)
      → docker.container_restart c.id w ≡ t
      → content w ≡ some text
      → Holds text (container_restarted docker files path c t)
  Holds-restarted text c w (v, some e) same h = tt
  Holds-restarted text c w (v, none) same h =
      Holds-inspected text v (docker.container_inspect c.id v) (laws.keeps c.id w v same ∙ h)

  Holds-updated :
      (text : String) (c : Container) (r : W × Option (GoError E))
      → Holds text r
      → Holds text (config_updated docker files path c r)
  Holds-updated text c (w, some e) h = tt
  Holds-updated text c (w, none) h =
      Holds-restarted text c w (docker.container_restart c.id w) refl h

  Holds-written :
      (text : String) (w : W) (t : W × Option E)
      → files.write_file path text w ≡ t
      → Holds text (failing_with docker files path "failed to write file" t)
  Holds-written text w (v, none) h = laws.writes text w v h
  Holds-written text w (v, some e) h = tt

  Holds-update_scheduler_config :
      (cfg : C) (text : String) (w : W)
      → encoded docker files path cfg ≡ ok text
      → Holds text (update_scheduler_config docker files path cfg w)
  unfolding update_scheduler_config
  Holds-update_scheduler_config cfg text w h = by_path (path == "")
    where
      by_path :
          (b : Bool)
          → Holds text (
              if b
              then (
                w,
                some (
                    message
                      "kubeSchedulerConfigPath isn't initialized, which is likely a bug in the simulator"),
              )
              else write_encoded docker files path (encoded docker files path cfg) w)
      by_path true = tt
      by_path false = rw h (Holds-written text w (files.write_file path text w) refl)

  restart_first-Holds :
      (cfg : C) (text : String) (cs : List Container) (w : W)
      → encoded docker files path cfg ≡ ok text
      → RunHolds text (restart_first docker files path cfg cs w)
  unfolding restart_first
  restart_first-Holds cfg text [] w h = tt
  restart_first-Holds cfg text (c ∷ cs) w h =
      by_names c.names (restart_first docker files path cfg cs w)
        (restart_first-Holds cfg text cs w h)
    where
      by_name :
          (b : Bool) (rest : Run (W × Option (GoError E)))
          → RunHolds text rest
          → RunHolds text (restart_if docker files path b cfg c w rest)
      by_name true rest k =
          Holds-updated text c (update_scheduler_config docker files path cfg w)
            (Holds-update_scheduler_config cfg text w h)
      by_name false rest k = k

      by_names :
          (names : List String) (rest : Run (W × Option (GoError E)))
          → RunHolds text rest
          → RunHolds text (restart_named docker files path names cfg c w rest)
      by_names [] rest k = tt
      by_names (name ∷ names) rest k = by_name (name == "/simulator-scheduler") rest k

  restart_container-Holds :
      (cfg : C) (text : String) (w : W)
      → encoded docker files path cfg ≡ ok text
      → RunHolds text (restart_container docker files path cfg w)
  unfolding restart_container
  restart_container-Holds cfg text w h = by_list (docker.container_list w)
    where
      by_list :
          (t : Try E (List Container)) → RunHolds text (restart_listed docker files path cfg t w)
      by_list (err e) = tt
      by_list (ok cs) = restart_first-Holds cfg text cs w h

  -- Without an error the service has the new configuration, and the file has the new or the old
  -- one; with an error the service is as it was.
  abbrev pub IsOutcome :
      C → String → String → Service C → Run (W × Service C × Option (GoError E)) → Type 0
  IsOutcome cfg text old_text s (returns (v, t, none)) =
      (get_scheduler_config t ≡ some cfg) × ((content v ≡ some text) ⊎ (content v ≡ some old_text))
  IsOutcome cfg text old_text s (returns (v, t, some e)) = t ≡ s
  IsOutcome cfg text old_text s panics = Unit

  rolled_back-IsOutcome :
      (cfg : C) (text old_text : String) (s : Service C) (m : Run (W × Option (GoError E)))
      → RunHolds old_text m
      → IsOutcome cfg text old_text s (m >>= rolled_back docker files path cfg s)
  rolled_back-IsOutcome cfg text old_text s panics h = tt
  rolled_back-IsOutcome cfg text old_text s (returns (v, none)) h = (refl, inr h)
  rolled_back-IsOutcome cfg text old_text s (returns (v, some e)) h = refl

  restarted-IsOutcome :
      (cfg old : C) (text old_text : String) (s : Service C) (m : Run (W × Option (GoError E)))
      → encoded docker files path old ≡ ok old_text
      → RunHolds text m
      → IsOutcome cfg text old_text s (m >>= restarted_or_rolled_back docker files path cfg old s)
  restarted-IsOutcome cfg old text old_text s panics g h = tt
  restarted-IsOutcome cfg old text old_text s (returns (v, none)) g h = (refl, inl h)
  restarted-IsOutcome cfg old text old_text s (returns (v, some e)) g h =
      rolled_back-IsOutcome cfg text old_text s (restart_container docker files path old v)
        (restart_container-Holds old old_text v g)

  -- A `RestartScheduler` that returns: with an error, the service reports the configuration that it
  -- reported before. Without one it reports the new configuration, while the scheduler's file has
  -- the text of the new configuration, or of the old one (after a roll-back). Both configurations
  -- can be encoded; a write that does not fail sets the file, and a restart keeps it.
  pub restart_scheduler-IsOutcome :
      (failure : Option E) (cfg old : C) (text old_text : String) (s : Service C) (w : W)
      → encoded docker files path cfg ≡ ok text
      → encoded docker files path old ≡ ok old_text
      → IsOutcome cfg text old_text s (restart_scheduler docker files path failure (ok old) cfg s w)
  unfolding restart_scheduler
  restart_scheduler-IsOutcome (some e) cfg old text old_text s w h g = refl
  restart_scheduler-IsOutcome none cfg old text old_text s w h g =
      restarted-IsOutcome cfg old text old_text s (restart_container docker files path cfg w) g
        (restart_container-Holds cfg text w h)
