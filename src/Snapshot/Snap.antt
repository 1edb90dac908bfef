-- ===== src/Snapshot/Snap.antt =====
-- simulator/snapshot/snapshot.go: Snap, get and the list methods. The goroutines of `get` only read and
-- each fills its own field. If several fail, the error here is the first in the order of the calls.
use semvi_btp.Common.{String, Bool, not, Option, none, List, [], ◌∷◌, if◌then◌else◌, Try, ok, err}
use semvi_btp.Common.Errors.{GoError, raised, wrapped, chain, wrap_error}
use semvi_btp.Snapshot.Defs.{
  pod, node, persistent_volume, persistent_volume_claim, storage_class, priority_class, namespace,
  Resources, Options, SnapshotOption, options_of, is_system_priority_class, is_ignore_namespace,
  SchedulerService, Client,
}

-- The objects whose name is not ignored.
unfoldable pub not_ignored : {X : Type 0} → (X → Bool) → List X → List X
not_ignored ignored [] = []
not_ignored ignored (x ∷ xs) =
    let rest = not_ignored ignored xs in if not (ignored x) then x ∷ rest else rest

module _ {W O A C E : Type 0} (client : Client W O A E) (schedulers : SchedulerService W C E)
    (name : O → String) where
  abbrev pub listed : Options → String → Try E (List O) → Try (GoError E) (List O)
  listed opts text (ok items) = ok items
  listed opts text (err e) = if not opts.ignore_err then err (wrapped text (raised e)) else ok []

  abbrev pub list_pods : Options → W → Try (GoError E) (List O)
  list_pods opts w = listed opts "call list Pod" (client.list pod w)

  abbrev pub list_nodes : Options → W → Try (GoError E) (List O)
  list_nodes opts w = listed opts "call list Node" (client.list node w)

  abbrev pub list_pvs : Options → W → Try (GoError E) (List O)
  list_pvs opts w = listed opts "call list PersistentVolume" (client.list persistent_volume w)

  abbrev pub list_pvcs : Options → W → Try (GoError E) (List O)
  list_pvcs opts w =
      listed opts "call list PersistentVolumeClaim" (client.list persistent_volume_claim w)

  abbrev pub list_storage_classes : Options → W → Try (GoError E) (List O)
  list_storage_classes opts w = listed opts "call list StorageClass" (client.list storage_class w)

  abbrev pub list_pcs : Options → W → Try (GoError E) (List O)
  list_pcs opts w =
      chain (listed opts "call list PriorityClass" (client.list priority_class w))
        (λ items. ok (not_ignored (λ o. is_system_priority_class (name o)) items))

  abbrev pub list_namespaces : Options → W → Try (GoError E) (List O)
  list_namespaces opts w =
      chain (listed opts "call list Namespace" (client.list namespace w))
        (λ items. ok (not_ignored (λ o. is_ignore_namespace (name o)) items))

  -- A disabled service gives no configuration, and an ignored error leaves the field nil.
  abbrev pub config_of : Options → Try (GoError E) (Option C) → Try (GoError E) (Option C)
  config_of opts (ok config) = ok config
  config_of opts (err e) =
      if schedulers.is_disabled e
      then ok none
      else if not opts.ignore_err
      then err (wrapped "get scheduler config" e)
      else ok none

  unfoldable pub get : Options → W → Try (GoError E) (Resources O C)
  unfolding not_ignored
  get opts w = wrap_error "get resources all" (
      chain (list_pods opts w) (λ pods. chain (list_nodes opts w) (λ nodes.
        chain (list_pvs opts w) (λ pvs. chain (list_pvcs opts w) (λ pvcs.
          chain (list_storage_classes opts w) (λ scs. chain (list_pcs opts w) (λ pcs.
            chain (list_namespaces opts w) (λ nss.
              chain (config_of opts (schedulers.get_scheduler_config w)) (λ config. ok (record {
                pods = pods;
                nodes = nodes;
                pvs = pvs;
                pvcs = pvcs;
                storage_classes = scs;
                priority_classes = pcs;
                scheduler_config = config;
                namespaces = nss;
              }))))))))))

  unfoldable pub snap : List SnapshotOption → W → Try (GoError E) (Resources O C)
  unfolding get
  snap opts w = wrap_error "failed to get()" (get (options_of opts) w)
