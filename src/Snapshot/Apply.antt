-- ===== src/Snapshot/Apply.antt =====
-- simulator/snapshot/snapshot.go: Load, apply and the apply methods. The goroutines of one error group
-- run one after the other in the order that `schedule` chooses; all run, also after an error (the
-- group's context is not used), and Wait gives the first error. A nil dereference is a panic.
use semvi_btp.Common.{
  String, Bool, not, Option, none, some, List, [], ◌∷◌, ◌==◌, ◌++◌, map, if◌then◌else◌, Run,
  returns, panics, ◌>>=◌, Try, ok, err,
}
use semvi_btp.Common.Errors.{GoError, raised, wrapped}
use semvi_btp.Snapshot.Defs.{
  pod, node, persistent_volume, persistent_volume_claim, storage_class, priority_class, namespace,
  Resources, Options, SnapshotOption, options_of, is_system_priority_class, is_ignore_namespace,
  SchedulerService, Configurations, Client,
}

abbrev pub Task : Type 0 → Type 0 → Type 0
Task W E = W → Run (W × Option (GoError E))

module _ {E : Type 0} where
  abbrev pub first_failure : Option (GoError E) → Option (GoError E) → Option (GoError E)
  first_failure none later = later
  first_failure (some e) later = some e

module _ {W E : Type 0} where
  abbrev pub with_failure :
      Option (GoError E) → W × Option (GoError E) → Run (W × Option (GoError E))
  with_failure e (w, later) = returns (w, first_failure e later)

  abbrev pub before : W × Option (GoError E) → Task W E → Run (W × Option (GoError E))
  before (w, e) rest = rest w >>= with_failure e

  unfoldable pub wait : List (Task W E) → Task W E
  wait [] w = returns (w, none)
  wait (t ∷ ts) w = t w >>= (λ r. before r (wait ts))

  -- The next phase, unless there is an error.
  abbrev pub unless_failed :
      W × Option (GoError E) → String → Task W E → Run (W × Option (GoError E))
  unless_failed (w, none) text next = next w
  unless_failed (w, some e) text next = returns (w, some (wrapped text e))

  abbrev pub phase : Run (W × Option (GoError E)) → String → Task W E → Run (W × Option (GoError E))
  phase m text next = m >>= (λ r. unless_failed r text next)

  abbrev pub finished : Task W E
  finished w = returns (w, none)

module _ {W O A E : Type 0} (client : Client W O A E) (configs : Configurations A)
    (opts : Options) where
  abbrev pub applied : String → W × Option E → Run (W × Option (GoError E))
  applied text (w, none) = returns (w, none)
  applied text (w, some e) =
      returns (w, if not opts.ignore_err then some (wrapped text (raised e)) else none)

  abbrev pub typed : String → String → A → A
  typed api_version kind a = configs.with_type api_version kind (configs.without_uid a)

  abbrev pub apply_in : Option String → String → (String → W → W × Option E) → Task W E
  apply_in none text f w = panics
  apply_in (some ns) text f w = applied text (f ns w)

  -- The goroutines, one for each kind of resource.
  abbrev pub pc_task : A → Task W E
  pc_task a w =
      applied "apply PriorityClass"
        (client.apply priority_class none (typed "scheduling.k8s.io/v1" "PriorityClass" a) w)

  abbrev pub storage_class_task : A → Task W E
  storage_class_task a w =
      applied "apply StorageClass"
        (client.apply storage_class none (typed "storage.k8s.io/v1" "StorageClass" a) w)

  abbrev pub pvc_task : A → Task W E
  pvc_task a =
      let b = typed "v1" "PersistentVolumeClaim" a in
      apply_in (configs.namespace_of b) "apply PersistentVolumeClaims"
        (λ ns. client.apply persistent_volume_claim (some ns) b)

  abbrev pub node_task : A → Task W E
  node_task a w = applied "apply Node" (client.apply node none (typed "v1" "Node" a) w)

  abbrev pub pod_task : A → Task W E
  pod_task a =
      let b = configs.with_type "v1" "Pod" (configs.without_creation (configs.without_uid a)) in
      apply_in (configs.namespace_of b) "apply Pod" (λ ns. client.apply pod (some ns) b)

  abbrev pub namespace_task : A → Task W E
  namespace_task a w =
      applied "apply Namespace" (client.apply namespace none (typed "v1" "Namespace" a) w)

  abbrev pub uid_or_nil : Try E String → Option String
  uid_or_nil (ok uid) = some uid
  uid_or_nil (err e) = none

  -- A bound volume gets the UID that its claim has now, or none.
  abbrev pub rebound : A → Option String → Option String → W → Run A
  rebound a (some ns) (some name) w =
      returns (configs.with_claim_uid (uid_or_nil (client.claim_uid ns name w)) a)
  rebound a (some ns) none w = panics
  rebound a none name w = panics

  abbrev pub with_new_claim : A → Option String → W → Run A
  with_new_claim a none w = returns a
  with_new_claim a (some phase) w =
      if phase == "Bound"
      then rebound a (configs.claim_namespace a) (configs.claim_name a) w
      else returns a

  abbrev pub pv_task : A → Task W E
  pv_task a w =
      let b = typed "v1" "PersistentVolume" a in
      with_new_claim b (configs.phase b) w
      >>= (λ c. applied "apply PersistentVolume" (client.apply persistent_volume none c w))

  abbrev pub started :
      Option String → (String → Bool) → Task W E → Run (List (Task W E)) → Run (List (Task W E))
  started none ignored task rest = panics
  started (some name) ignored task rest =
      if ignored name then rest else rest >>= (λ tasks. returns (task ∷ tasks))

  -- A loop that skips the names that are ignored; a nil name is a nil dereference.
  unfoldable pub start_named : (String → Bool) → (A → Task W E) → List A → Run (List (Task W E))
  start_named ignored task [] = returns []
  start_named ignored task (a ∷ rest) =
      let tasks = start_named ignored task rest in started (configs.name a) ignored (task a) tasks

  abbrev pub apply_pcs : List A → Run (List (Task W E))
  apply_pcs = start_named is_system_priority_class pc_task

  abbrev pub apply_namespaces : List A → Run (List (Task W E))
  apply_namespaces = start_named is_ignore_namespace namespace_task

module _ {W O A C E : Type 0} (client : Client W O A E) (configs : Configurations A)
    (schedule : List (Task W E) → List (Task W E)) (opts : Options) where
  -- The tasks of the second phase, after those of the priority classes.
  abbrev pub unnamed_tasks : Resources A C → List (Task W E)
  unnamed_tasks r =
      map (storage_class_task client configs opts) r.storage_classes
      ++ (map (pvc_task client configs opts) r.pvcs
          ++ (map (node_task client configs opts) r.nodes
              ++ map (pod_task client configs opts) r.pods))

  abbrev pub apply_pvs : Resources A C → Task W E
  apply_pvs r w =
      phase (wait (schedule (map (pv_task client configs opts) r.pvs)) w) "apply PVs" finished

  abbrev pub apply_others : Resources A C → Task W E
  apply_others r w = apply_pcs client configs opts r.priority_classes >>= (λ pcs.
      phase (wait (schedule (pcs ++ unnamed_tasks r)) w) "apply resources" (apply_pvs r))

  -- Namespaces, then all others, then the volumes, whose claims must be there.
  unfoldable pub apply : Resources A C → Task W E
  unfolding wait start_named
  apply r w =
      apply_namespaces client configs opts r.namespaces
      >>= (λ nss. phase (wait (schedule nss) w) "apply resources" (apply_others r))

module _ {W O A C E : Type 0} (client : Client W O A E) (schedulers : SchedulerService W C E)
    (configs : Configurations A) (schedule : List (Task W E) → List (Task W E)) where
  -- A disabled service is only logged.
  abbrev pub restart_failure : Option (GoError E) → Option (GoError E)
  restart_failure none = none
  restart_failure (some e) =
      if not (schedulers.is_disabled e)
      then some (wrapped "restart scheduler with loaded configuration" e)
      else none

  abbrev pub after_restart :
      Options → Resources A C → W × Option (GoError E) → Run (W × Option (GoError E))
  after_restart opts r (w, some e) = returns (w, some e)
  after_restart opts r (w, none) =
      phase (apply client configs schedule opts r w) "failed to apply()" finished

  abbrev pub restarted : Resources A C → W → W × Option (GoError E)
  restarted r w =
      let (v, e) = schedulers.restart_scheduler r.scheduler_config w in (v, restart_failure e)

  unfoldable pub load : List SnapshotOption → Resources A C → W → Run (W × Option (GoError E))
  unfolding apply
  load xs r w =
      let opts = options_of xs in
      after_restart opts r
        (if not opts.ignore_scheduler_configuration then restarted r w else (w, none))
