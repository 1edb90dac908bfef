-- ===== src/Snapshot/RoundTrip.antt =====
-- A snapshot that is converted and loaded loads what the cluster had.
use semvi_btp.Common.{
  ◌≡◌, refl, ap, String, Bool, not, Option, none, some, List, [], ◌∷◌, ◌++◌, map, if◌then◌else◌,
  Bool-cases, ◌>>=◌, Try, ok, inl, inr,
}
use semvi_btp.Common.Errors.{GoError}
use semvi_btp.Snapshot.Defs.{
  Kind, pod, node, persistent_volume, persistent_volume_claim, storage_class, priority_class,
  namespace, Resources, Options, SnapshotOption, options_of, is_system_priority_class,
  is_ignore_namespace, SchedulerService, Configurations, Client,
}
use semvi_btp.Snapshot.Snap.{not_ignored, get, snap}
use semvi_btp.Snapshot.Convert.{convert_list, convert_resources}
use semvi_btp.Snapshot.Apply.{
  Task, finished, unnamed_tasks, apply_pvs, phase, wait, start_named, namespace_task, pc_task,
  apply, after_restart, restarted, load,
}

module _ {W O A E : Type 0} (client : Client W O A E) (configs : Configurations A) (opts : Options)
    (name : O → String) (config : O → A)
    (names : (o : O) → configs.name (config o) ≡ some (name o)) where
  -- What Snap leaves out, Load leaves out too.
  start_named-not_ignored :
      (ignored : String → Bool) (task : A → Task W E) (os : List O)
      → start_named client configs opts ignored task
          (map config (not_ignored (λ o. ignored (name o)) os))
        ≡ start_named client configs opts ignored task (map config os)
  unfolding start_named not_ignored
  start_named-not_ignored ignored task [] = refl
  start_named-not_ignored ignored task (o ∷ os) = elim (Bool-cases (ignored (name o))) [
    | inl e ↦ rw (e, names o, e) (start_named-not_ignored ignored task os)
    | inr e ↦ rw (e, names o, e, start_named-not_ignored ignored task os) refl
  ]

module _ {O A E : Type 0} (marshal : O → Try E String) (unmarshal : Kind → String → Try E A)
    (config : Kind → O → A) (json : O → String) (marshals : (o : O) → marshal o ≡ ok (json o))
    (unmarshals : (k : Kind) (o : O) → unmarshal k (json o) ≡ ok (config k o)) where
  convert_list-map :
      (text : String) (k : Kind) (os : List O)
      → convert_list marshal unmarshal text k os ≡ ok (map (config k) os)
  unfolding convert_list
  convert_list-map text k [] = refl
  convert_list-map text k (o ∷ os) =
      rw (marshals o, unmarshals k o, convert_list-map text k os) refl

  abbrev pub converted : {C : Type 0} → Resources O C → Resources A C
  converted r = record {
    pods = map (config pod) r.pods;
    nodes = map (config node) r.nodes;
    pvs = map (config persistent_volume) r.pvs;
    pvcs = map (config persistent_volume_claim) r.pvcs;
    storage_classes = map (config storage_class) r.storage_classes;
    priority_classes = map (config priority_class) r.priority_classes;
    scheduler_config = r.scheduler_config;
    namespaces = map (config namespace) r.namespaces;
  }

  convert_resources-converted :
      {C : Type 0} (r : Resources O C) → convert_resources marshal unmarshal r ≡ ok (converted r)
  unfolding convert_resources
  convert_resources-converted r =
      rw
        (
          convert_list-map "convert Pod to apply configuration" pod r.pods,
          convert_list-map "convert Node to apply configuration" node r.nodes,
          convert_list-map "convert PersistentVolume to apply configuration" persistent_volume
              r.pvs,
          convert_list-map "convert PersistentVolumeClaim to apply configuration"
              persistent_volume_claim r.pvcs,
          convert_list-map "convert StorageClass to apply configuration" storage_class
              r.storage_classes,
          convert_list-map "convert PriorityClasses to apply configuration" priority_class
              r.priority_classes,
          convert_list-map "convert Namespace to apply configuration" namespace r.namespaces,
        )
        refl

  module _ {W V C : Type 0} (source : Client W O A E) (source_schedulers : SchedulerService W C E)
      (target : Client V O A E) (target_schedulers : SchedulerService V C E)
      (configs : Configurations A) (schedule : List (Task V E) → List (Task V E))
      (name : O → String)
      (names : (k : Kind) (o : O) → configs.name (config k o) ≡ some (name o)) where
    -- All that the cluster has, with nothing left out.
    abbrev pub whole : (Kind → List O) → Option C → Resources O C
    whole items c = record {
      pods = items pod;
      nodes = items node;
      pvs = items persistent_volume;
      pvcs = items persistent_volume_claim;
      storage_classes = items storage_class;
      priority_classes = items priority_class;
      scheduler_config = c;
      namespaces = items namespace;
    }

    abbrev pub snapped : (Kind → List O) → Option C → Resources O C
    snapped items c = record {
      pods = items pod;
      nodes = items node;
      pvs = items persistent_volume;
      pvcs = items persistent_volume_claim;
      storage_classes = items storage_class;
      priority_classes =
          not_ignored (λ o. is_system_priority_class (name o)) (items priority_class);
      scheduler_config = c;
      namespaces = not_ignored (λ o. is_ignore_namespace (name o)) (items namespace);
    }

    snap-snapped :
        (xs : List SnapshotOption) (w : W) (items : Kind → List O) (c : Option C)
        → ((k : Kind) → source.list k w ≡ ok (items k))
        → source_schedulers.get_scheduler_config w ≡ ok c
        → snap source source_schedulers name xs w ≡ ok (snapped items c)
    unfolding snap get
    snap-snapped xs w items c lists has =
        rw
          (
            lists pod,
            lists node,
            lists persistent_volume,
            lists persistent_volume_claim,
            lists storage_class,
            lists priority_class,
            lists namespace,
            has,
          )
          refl

    apply-converted :
        (opts : Options) (items : Kind → List O) (c : Option C) (v : V)
        → apply target configs schedule opts (converted (snapped items c)) v
          ≡ apply target configs schedule opts (converted (whole items c)) v
    unfolding apply
    apply-converted opts items c v =
        let r = converted (whole items c) in
        let kept =
          start_named-not_ignored target configs opts name (config namespace) (names namespace)
            is_ignore_namespace (namespace_task target configs opts) (items namespace) in
        let kept_classes =
          start_named-not_ignored target configs opts name (config priority_class)
            (names priority_class) is_system_priority_class (pc_task target configs opts)
            (items priority_class) in
        λ i. kept i >>= (λ nss. phase (wait (schedule nss) v) "apply resources" (λ w.
          kept_classes i >>= (λ pcs.
            phase (wait (schedule (pcs ++ unnamed_tasks target configs schedule opts r)) w)
              "apply resources" (apply_pvs target configs schedule opts r))))

    after_restart-converted :
        (opts : Options) (items : Kind → List O) (c : Option C) (t : V × Option (GoError E))
        → after_restart target target_schedulers configs schedule opts
            (converted (snapped items c))
            t
          ≡ after_restart target target_schedulers configs schedule opts
              (converted (whole items c))
              t
    after_restart-converted opts items c (v, some e) = refl
    after_restart-converted opts items c (v, none) =
        ap (λ m. phase m "failed to apply()" finished) (apply-converted opts items c v)

    -- A snapshot that is converted and loaded, into the same cluster or another, with the same or
    -- other options, does what loading all the listed objects would do: what a snapshot leaves out
    -- (system priority classes, kube- namespaces and the default one), a load would skip. The lists
    -- and the configuration are read without an error, and the JSON of an object is read as the
    -- apply configuration that has its name.
    pub load-snap :
        (xs ys : List SnapshotOption) (w : W) (v : V) (items : Kind → List O) (c : Option C)
        → ((k : Kind) → source.list k w ≡ ok (items k))
        → source_schedulers.get_scheduler_config w ≡ ok c
        → (s : Resources O C) × (r : Resources A C) × (snap source source_schedulers name xs w
            ≡ ok s)
          × (convert_resources marshal unmarshal s ≡ ok r)
          × (load target target_schedulers configs schedule ys r v
              ≡ load target target_schedulers configs schedule ys (converted (whole items c)) v)
    unfolding load
    load-snap xs ys w v items c lists has =
        let opts = options_of ys in
        (
          snapped items c,
          converted (snapped items c),
          snap-snapped xs w items c lists has,
          convert_resources-converted (snapped items c),
          after_restart-converted opts items c (
              if not opts.ignore_scheduler_configuration
              then restarted target target_schedulers configs schedule (converted (whole items c)) v
              else (v, none)),
        )
