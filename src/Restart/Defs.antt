-- ===== src/Restart/Defs.antt =====
-- simulator/scheduler/scheduler.go: restartContainer, RestartScheduler, ResetScheduler and the current
-- configuration; simulator/scheduler/config/config.go: UpdateSchedulerConfig. The container client,
-- the codecs and the file system are parameters, and so is the configuration that GetSchedulerCfg
-- reads. A copy of a configuration is the configuration.
use semvi_btp.Common.{
  String, Bool, true, false, not, Option, none, some, List, [], ◌∷◌, ◌==◌, if◌then◌else◌, Run,
  returns, panics, ◌>>=◌, Try, ok, err,
}
use semvi_btp.Common.Errors.{GoError, raised, message, wrapped, chain}

pub record Container : Type 0 where
  pub id : String
  pub names : List String

-- The container client, on the state `W` of the machine; `inspect` gives the status.
pub record Docker (W E : Type 0) : Type 0 where
  pub container_list : W → Try E (List Container)
  pub container_restart : String → W → W × Option E
  pub container_inspect : String → W → Try E String

-- What UpdateSchedulerConfig uses: JSON, YAML and os.WriteFile.
pub record Files (W C Y E : Type 0) : Type 0 where
  pub marshal_json : C → Try E String
  pub decode_yaml : String → Try E Y
  pub marshal_yaml : Y → Try E String
  pub write_file : String → String → W → W × Option E

-- The service, without what the modelled code does not use.
pub record Service (C : Type 0) : Type 0 where
  pub initial_scheduler_cfg : C
  pub current_scheduler_cfg : Option C

abbrev pub set_scheduler_config : {C : Type 0} → C → Service C → Service C
set_scheduler_config cfg s = record {
  initial_scheduler_cfg = s.initial_scheduler_cfg;
  current_scheduler_cfg = some cfg;
}

abbrev pub get_scheduler_config : {C : Type 0} → Service C → Option C
get_scheduler_config s = s.current_scheduler_cfg

module _ {W C Y E : Type 0} (docker : Docker W E) (files : Files W C Y E)
    (kube_scheduler_config_path : String) where
  abbrev pub raise_with : {A : Type 0} → String → Try E A → Try (GoError E) A
  raise_with text (ok a) = ok a
  raise_with text (err e) = err (wrapped text (raised e))

  abbrev pub encoded : C → Try (GoError E) String
  encoded cfg = chain (raise_with "failed to marshal jsonData" (files.marshal_json cfg)) (λ json.
      chain (raise_with "failed to decode jsonData" (files.decode_yaml json))
        (λ yaml. raise_with "failed to marshal yaml" (files.marshal_yaml yaml)))

  abbrev pub failing_with : String → W × Option E → W × Option (GoError E)
  failing_with text (w, none) = (w, none)
  failing_with text (w, some e) = (w, some (wrapped text (raised e)))

  abbrev pub write_encoded : Try (GoError E) String → W → W × Option (GoError E)
  write_encoded (err e) w = (w, some e)
  write_encoded (ok content) w =
      failing_with "failed to write file" (files.write_file kube_scheduler_config_path content w)

  unfoldable pub update_scheduler_config : C → W → W × Option (GoError E)
  update_scheduler_config cfg w =
      if kube_scheduler_config_path == ""
      then (
        w,
        some (
            message
              "kubeSchedulerConfigPath isn't initialized, which is likely a bug in the simulator"),
      )
      else write_encoded (encoded cfg) w

  abbrev pub inspected : W → Try E String → W × Option (GoError E)
  inspected w (err e) = (w, some (wrapped "failed get container inspect" (raised e)))
  inspected w (ok status) = (
    w,
    if not (status == "running")
        then some (message "restart container status is not running")
        else none,
  )

  abbrev pub container_restarted : Container → W × Option E → W × Option (GoError E)
  container_restarted c (w, some e) = (w, some (wrapped "failed restart container" (raised e)))
  container_restarted c (w, none) = inspected w (docker.container_inspect c.id w)

  abbrev pub config_updated : Container → W × Option (GoError E) → W × Option (GoError E)
  config_updated c (w, some e) = (w, some (wrapped "read old scheduler.yaml" e))
  config_updated c (w, none) = container_restarted c (docker.container_restart c.id w)

  abbrev pub restart_if :
      Bool → C → Container → W → Run (W × Option (GoError E)) → Run (W × Option (GoError E))
  restart_if false cfg c w rest = rest
  restart_if true cfg c w rest = returns (config_updated c (update_scheduler_config cfg w))

  -- The first name of a container; a container without names is out of range.
  abbrev pub restart_named :
      List String → C → Container → W → Run (W × Option (GoError E)) → Run (W × Option (GoError E))
  restart_named [] cfg c w rest = panics
  restart_named (name ∷ names) cfg c w rest =
      restart_if (name == "/simulator-scheduler") cfg c w rest

  unfoldable pub restart_first : C → List Container → W → Run (W × Option (GoError E))
  unfolding update_scheduler_config
  restart_first cfg [] w = returns (
    w,
    some (
        message
          "can not find simulator-scheduler, are you running the debuggable scheduler along with this simulator container?"),
  )
  restart_first cfg (c ∷ cs) w =
      let rest = restart_first cfg cs w in restart_named c.names cfg c w rest

  abbrev pub restart_listed : C → Try E (List Container) → W → Run (W × Option (GoError E))
  restart_listed cfg (err e) w =
      returns (w, some (wrapped "failed to get container list" (raised e)))
  restart_listed cfg (ok containers) w = restart_first cfg containers w

  unfoldable pub restart_container : C → W → Run (W × Option (GoError E))
  unfolding restart_first
  restart_container cfg w = restart_listed cfg (docker.container_list w) w

  abbrev pub rolled_back :
      C → Service C → W × Option (GoError E) → Run (W × Service C × Option (GoError E))
  rolled_back cfg s (w, none) = returns (w, set_scheduler_config cfg s, none)
  rolled_back cfg s (w, some e) = returns (w, s, some (wrapped "oldConfig restart failed" e))

  -- After the restart: if it failed, the roll-back to the old configuration.
  abbrev pub restarted_or_rolled_back :
      C → C → Service C → W × Option (GoError E) → Run (W × Service C × Option (GoError E))
  restarted_or_rolled_back cfg old s (w, none) = returns (w, set_scheduler_config cfg s, none)
  restarted_or_rolled_back cfg old s (w, some e) = restart_container old w >>= rolled_back cfg s

  abbrev pub restart_from :
      C → Try (GoError E) C → Service C → W → Run (W × Service C × Option (GoError E))
  restart_from cfg (err e) s w = returns (w, s, some (wrapped "read old scheduler.yaml" e))
  restart_from cfg (ok old) s w = restart_container cfg w >>= restarted_or_rolled_back cfg old s

  -- RestartScheduler, given the error of the container client and the old configuration.
  unfoldable pub restart_scheduler :
      Option E → Try (GoError E) C → C → Service C → W → Run (W × Service C × Option (GoError E))
  unfolding restart_container
  restart_scheduler (some e) old cfg s w =
      returns (w, s, some (wrapped "failed to create docker client" (raised e)))
  restart_scheduler none old cfg s w = restart_from cfg old s w

  unfoldable pub reset_scheduler :
      Option E → Try (GoError E) C → Service C → W → Run (W × Service C × Option (GoError E))
  unfolding restart_scheduler
  reset_scheduler no_client old s w = restart_scheduler no_client old s.initial_scheduler_cfg s w
