-- ===== src/Snapshot/Convert.antt =====
-- simulator/snapshot/utils.go: a snapshot as the resources to load. json.Marshal on objects and
-- json.Unmarshal into the apply configuration of a kind are parameters.
use semvi_btp.Common.{String, List, [], ◌∷◌, Try, ok, err}
use semvi_btp.Common.Errors.{GoError, raised, wrapped, chain, wrap_error}
use semvi_btp.Snapshot.Defs.{
  Kind, pod, node, persistent_volume, persistent_volume_claim, storage_class, priority_class,
  namespace, Resources,
}
use Prim.Native.String as Text

abbrev pub type_name : Kind → String
type_name pod = "Pod"
type_name node = "Node"
type_name persistent_volume = "PersistentVolume"
type_name persistent_volume_claim = "PersistentVolumeClaim"
type_name storage_class = "StorageClass"
type_name priority_class = "PriorityClass"
type_name namespace = "Namespace"

module _ {O A E : Type 0} (marshal : O → Try E String) (unmarshal : Kind → String → Try E A) where
  abbrev pub raise_as : {X : Type 0} → String → Try E X → Try (GoError E) X
  raise_as text (ok x) = ok x
  raise_as text (err e) = err (wrapped text (raised e))

  abbrev pub convert_to_apply_configuration : Kind → O → Try (GoError E) A
  convert_to_apply_configuration kind o =
      chain (raise_as "call Marshal to convert object" (marshal o)) (λ text.
        raise_as (Text.◌++◌ "call Unmarshal to convert " (type_name kind)) (unmarshal kind text))

  abbrev pub add_converted : Try (GoError E) A → Try (GoError E) (List A) → Try (GoError E) (List A)
  add_converted (err e) rest = err e
  add_converted (ok a) rest = chain rest (λ more. ok (a ∷ more))

  -- A loop over the objects of a kind, its error with this text.
  unfoldable pub convert_list : String → Kind → List O → Try (GoError E) (List A)
  convert_list text kind [] = ok []
  convert_list text kind (o ∷ os) =
      let rest = convert_list text kind os in
      add_converted (wrap_error text (convert_to_apply_configuration kind o)) rest

  abbrev pub convert_pods : List O → Try (GoError E) (List A)
  convert_pods = convert_list "convert Pod to apply configuration" pod

  abbrev pub convert_nodes : List O → Try (GoError E) (List A)
  convert_nodes = convert_list "convert Node to apply configuration" node

  abbrev pub convert_pvs : List O → Try (GoError E) (List A)
  convert_pvs = convert_list "convert PersistentVolume to apply configuration" persistent_volume

  abbrev pub convert_pvcs : List O → Try (GoError E) (List A)
  convert_pvcs =
      convert_list "convert PersistentVolumeClaim to apply configuration" persistent_volume_claim

  abbrev pub convert_storage_classes : List O → Try (GoError E) (List A)
  convert_storage_classes = convert_list "convert StorageClass to apply configuration" storage_class

  abbrev pub convert_priority_classes : List O → Try (GoError E) (List A)
  convert_priority_classes =
      convert_list "convert PriorityClasses to apply configuration" priority_class

  abbrev pub convert_namespaces : List O → Try (GoError E) (List A)
  convert_namespaces = convert_list "convert Namespace to apply configuration" namespace

  unfoldable pub convert_resources : {C : Type 0} → Resources O C → Try (GoError E) (Resources A C)
  unfolding convert_list
  convert_resources r =
      chain (wrap_error "call convertPodListToApplyConfigurationList" (convert_pods r.pods))
        (λ pods.
          chain (wrap_error "call convertNodeListToApplyConfigurationList" (convert_nodes r.nodes))
            (λ nodes.
              chain (wrap_error "call convertPvListToApplyConfigurationList" (convert_pvs r.pvs))
                (λ pvs.
                  chain
                    (wrap_error "call convertPvcListToApplyConfigurationList" (convert_pvcs r.pvcs))
                    (λ pvcs.
                      chain
                        (wrap_error "call convertStorageClassesListToApplyConfigurationList"
                          (convert_storage_classes r.storage_classes))
                        (λ scs.
                          chain
                            (wrap_error "call convertPriorityClassesListToApplyConfigurationList"
                              (convert_priority_classes r.priority_classes))
                            (λ pcs.
                              chain
                                (wrap_error "call convertNamespaceListToApplyConfigurationList"
                                  (convert_namespaces r.namespaces))
                                (λ nss. ok (record {
                                  pods = pods;
                                  nodes = nodes;
                                  pvs = pvs;
                                  pvcs = pvcs;
                                  storage_classes = scs;
                                  priority_classes = pcs;
                                  scheduler_config = r.scheduler_config;
                                  namespaces = nss;
                                }))))))))
