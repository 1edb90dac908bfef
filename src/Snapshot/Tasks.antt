-- ===== src/Snapshot/Tasks.antt =====
-- No goroutine of an apply fails under IgnoreErr.
use semvi_btp.Common.{
  ◌≡◌, String, Bool, true, false, Option, none, some, List, [], ◌∷◌, ◌++◌, map, All, if◌then◌else◌,
  Run, returns, panics, ◌>>=◌,
}
use semvi_btp.Common.Errors.{GoError}
use semvi_btp.Snapshot.Defs.{
  pod, node, persistent_volume, persistent_volume_claim, storage_class, priority_class, namespace,
  Resources, Options, is_system_priority_class, is_ignore_namespace, Configurations, Client,
}
use semvi_btp.Snapshot.Apply.{
  Task, with_failure, before, wait, phase, finished, applied, typed, apply_in, pc_task,
  storage_class_task, pvc_task, node_task, pod_task, namespace_task, with_new_claim, pv_task,
  started, start_named, apply_pcs, apply_namespaces, unnamed_tasks, apply_pvs, apply_others, apply,
}

module _ {W E : Type 0} where
  -- If the call returns, it returns no error.
  abbrev pub Succeeds : Run (W × Option (GoError E)) → Type 0
  Succeeds (returns (w, none)) = Unit
  Succeeds (returns (w, some e)) = ⊥
  Succeeds panics = Unit

  abbrev pub NeverFails : Task W E → Type 0
  NeverFails t = (w : W) → Succeeds (t w)

  Succeeds-before :
      (m : Run (W × Option (GoError E))) (rest : Task W E)
      → Succeeds m
      → NeverFails rest
      → Succeeds (m >>= (λ r. before r rest))
  Succeeds-before panics rest h k = tt
  Succeeds-before (returns (w, some e)) rest h k = absurd h
  Succeeds-before (returns (w, none)) rest h k = last (rest w) (k w)
    where
      last : (m : Run (W × Option (GoError E))) → Succeeds m → Succeeds (m >>= with_failure none)
      last panics u = tt
      last (returns (v, none)) u = tt
      last (returns (v, some e)) u = absurd u

  wait-NeverFails : (ts : List (Task W E)) → All NeverFails ts → NeverFails (wait ts)
  unfolding wait
  wait-NeverFails [] h w = tt
  wait-NeverFails (t ∷ ts) (first, h) w =
      Succeeds-before (t w) (wait ts) (first w) (wait-NeverFails ts h)

  pub Succeeds-phase :
      (m : Run (W × Option (GoError E))) (text : String) (next : Task W E)
      → Succeeds m
      → NeverFails next
      → Succeeds (phase m text next)
  Succeeds-phase panics text next h k = tt
  Succeeds-phase (returns (w, some e)) text next h k = absurd h
  Succeeds-phase (returns (w, none)) text next h k = k w

All-append : {X : Type 0} (P : X → Type 0) (xs ys : List X) → All P xs → All P ys → All P (xs ++ ys)
All-append P [] ys h k = k
All-append P (x ∷ xs) ys (first, h) k = (first, All-append P xs ys h k)

All-map :
    {X Y : Type 0} (P : Y → Type 0) (f : X → Y) (xs : List X)
    → ((x : X) → P (f x))
    → All P (map f xs)
All-map P f [] h = tt
All-map P f (x ∷ xs) h = (h x, All-map P f xs h)

-- The goroutines run in some order: what holds of all of them holds of all that are run.
abbrev pub KeepsTasks : {W E : Type 0} → (List (Task W E) → List (Task W E)) → Type 1
KeepsTasks {W} {E} schedule =
    (P : Task W E → Type 0) (ts : List (Task W E)) → All P ts → All P (schedule ts)

module _ {W O A E : Type 0} (client : Client W O A E) (configs : Configurations A) (opts : Options)
    (ignoring : opts.ignore_err ≡ true) where
  applied-Succeeds :
      (text : String) (r : W × Option E) → Succeeds (applied client configs opts text r)
  applied-Succeeds text (w, none) = tt
  applied-Succeeds text (w, some e) = rw ignoring tt

  apply_in-NeverFails :
      (ns : Option String) (text : String) (f : String → W → W × Option E)
      → NeverFails (apply_in client configs opts ns text f)
  apply_in-NeverFails none text f w = tt
  apply_in-NeverFails (some ns) text f w = applied-Succeeds text (f ns w)

  -- A step that returns or panics, and then a call whose error is ignored.
  Succeeds-then :
      (text : String) (m : Run A) (f : A → W × Option E)
      → Succeeds (m >>= (λ c. applied client configs opts text (f c)))
  Succeeds-then text panics f = tt
  Succeeds-then text (returns c) f = applied-Succeeds text (f c)

  abbrev AllStarted : Run (List (Task W E)) → Type 0
  AllStarted (returns ts) = All NeverFails ts
  AllStarted panics = Unit

  start_named-AllStarted :
      (ignored : String → Bool) (task : A → Task W E) (xs : List A)
      → ((a : A) → NeverFails (task a))
      → AllStarted (start_named client configs opts ignored task xs)
  unfolding start_named
  start_named-AllStarted ignored task [] h = tt
  start_named-AllStarted ignored task (a ∷ xs) h =
      by_name (configs.name a) (start_named client configs opts ignored task xs)
        (start_named-AllStarted ignored task xs h) (h a)
    where
      one_more :
          (t : Task W E) (m : Run (List (Task W E)))
          → AllStarted m
          → NeverFails t
          → AllStarted (m >>= (λ ts. returns (t ∷ ts)))
      one_more t panics u k = tt
      one_more t (returns ts) u k = (k, u)

      kept :
          (b : Bool) (m : Run (List (Task W E)))
          → AllStarted m
          → NeverFails (task a)
          → AllStarted (if b then m else m >>= (λ ts. returns (task a ∷ ts)))
      kept true m u k = u
      kept false m u k = one_more (task a) m u k

      by_name :
          (name : Option String) (m : Run (List (Task W E)))
          → AllStarted m
          → NeverFails (task a)
          → AllStarted (started client configs opts name ignored (task a) m)
      by_name none m u k = tt
      by_name (some name) m u k = kept (ignored name) m u k

  Succeeds-started :
      (m : Run (List (Task W E))) (f : List (Task W E) → Run (W × Option (GoError E)))
      → AllStarted m
      → ((ts : List (Task W E)) → All NeverFails ts → Succeeds (f ts))
      → Succeeds (m >>= f)
  Succeeds-started panics f h k = tt
  Succeeds-started (returns ts) f h k = k ts h

  pc_task-NeverFails : (a : A) → NeverFails (pc_task client configs opts a)
  pc_task-NeverFails a w = applied-Succeeds "apply PriorityClass" (
      client.apply priority_class none
        (typed client configs opts "scheduling.k8s.io/v1" "PriorityClass" a) w)

  storage_class_task-NeverFails : (a : A) → NeverFails (storage_class_task client configs opts a)
  storage_class_task-NeverFails a w = applied-Succeeds "apply StorageClass" (
      client.apply storage_class none
        (typed client configs opts "storage.k8s.io/v1" "StorageClass" a) w)

  pvc_task-NeverFails : (a : A) → NeverFails (pvc_task client configs opts a)
  pvc_task-NeverFails a =
      let b = typed client configs opts "v1" "PersistentVolumeClaim" a in
      apply_in-NeverFails (configs.namespace_of b) "apply PersistentVolumeClaims"
        (λ ns. client.apply persistent_volume_claim (some ns) b)

  node_task-NeverFails : (a : A) → NeverFails (node_task client configs opts a)
  node_task-NeverFails a w =
      applied-Succeeds "apply Node"
        (client.apply node none (typed client configs opts "v1" "Node" a) w)

  pod_task-NeverFails : (a : A) → NeverFails (pod_task client configs opts a)
  pod_task-NeverFails a =
      let b = configs.with_type "v1" "Pod" (configs.without_creation (configs.without_uid a)) in
      apply_in-NeverFails (configs.namespace_of b) "apply Pod" (λ ns. client.apply pod (some ns) b)

  namespace_task-NeverFails : (a : A) → NeverFails (namespace_task client configs opts a)
  namespace_task-NeverFails a w =
      applied-Succeeds "apply Namespace"
        (client.apply namespace none (typed client configs opts "v1" "Namespace" a) w)

  pv_task-NeverFails : (a : A) → NeverFails (pv_task client configs opts a)
  pv_task-NeverFails a w =
      let b = configs.with_type "v1" "PersistentVolume" (configs.without_uid a) in
      Succeeds-then "apply PersistentVolume"
        (with_new_claim client configs opts b (configs.phase b) w)
        (λ c. client.apply persistent_volume none c w)

  module _ {C : Type 0} (schedule : List (Task W E) → List (Task W E)) (keeps : KeepsTasks schedule)
      (r : Resources A C) where
    waits : (ts : List (Task W E)) → All NeverFails ts → NeverFails (wait (schedule ts))
    waits ts h = wait-NeverFails (schedule ts) (keeps NeverFails ts h)

    mapped :
        (task : A → Task W E) (xs : List A)
        → ((a : A) → NeverFails (task a))
        → All NeverFails (map task xs)
    mapped task xs h = All-map NeverFails task xs h

    unnamed_tasks-NeverFail : All NeverFails (unnamed_tasks client configs schedule opts r)
    unnamed_tasks-NeverFail =
        let nodes = map (node_task client configs opts) r.nodes in
        let pods = map (pod_task client configs opts) r.pods in
        let pvcs = map (pvc_task client configs opts) r.pvcs in
        All-append NeverFails (map (storage_class_task client configs opts) r.storage_classes)
          (pvcs ++ (nodes ++ pods))
          (mapped (storage_class_task client configs opts) r.storage_classes
            storage_class_task-NeverFails)
          (All-append NeverFails pvcs (nodes ++ pods)
            (mapped (pvc_task client configs opts) r.pvcs pvc_task-NeverFails)
            (All-append NeverFails nodes pods
              (mapped (node_task client configs opts) r.nodes node_task-NeverFails)
              (mapped (pod_task client configs opts) r.pods pod_task-NeverFails)))

    apply_pvs-NeverFails : NeverFails (apply_pvs client configs schedule opts r)
    apply_pvs-NeverFails w =
        Succeeds-phase (wait (schedule (map (pv_task client configs opts) r.pvs)) w) "apply PVs"
          finished
          (waits (map (pv_task client configs opts) r.pvs)
            (All-map NeverFails (pv_task client configs opts) r.pvs pv_task-NeverFails) w)
          (λ v. tt)

    apply_others-NeverFails : NeverFails (apply_others client configs schedule opts r)
    apply_others-NeverFails w =
        Succeeds-started (apply_pcs client configs opts r.priority_classes) _
          (start_named-AllStarted is_system_priority_class (pc_task client configs opts)
            r.priority_classes pc_task-NeverFails)
          (λ ts h.
            Succeeds-phase (wait (schedule (ts ++ unnamed_tasks client configs schedule opts r)) w)
              "apply resources" (apply_pvs client configs schedule opts r)
              (waits (ts ++ unnamed_tasks client configs schedule opts r)
                (All-append NeverFails ts (unnamed_tasks client configs schedule opts r) h
                  unnamed_tasks-NeverFail)
                w)
              apply_pvs-NeverFails)

    pub apply-NeverFails : NeverFails (apply client configs schedule opts r)
    unfolding apply
    apply-NeverFails w =
        Succeeds-started (apply_namespaces client configs opts r.namespaces) _
          (start_named-AllStarted is_ignore_namespace (namespace_task client configs opts)
            r.namespaces namespace_task-NeverFails)
          (λ ts h.
            Succeeds-phase (wait (schedule ts) w) "apply resources"
              (apply_others client configs schedule opts r) (waits ts h w) apply_others-NeverFails)
