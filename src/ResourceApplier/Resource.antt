-- ===== src/ResourceApplier/Resource.antt =====
-- simulator/resourceapplier/resource.go: the functions that are registered for every service.
use semvi_btp.Common.{
  String, Bool, true, false, not, Option, none, some, [], ◌∷◌, ◌==◌, if◌then◌else◌,
}
use semvi_btp.Common.Kubernetes.{GroupVersionResource}
use semvi_btp.ResourceApplier.Library.{
  Pod, ClaimRef, PersistentVolume, Resources, Act, Clients, done, crashes, lift, ◌>>=◌,
}
use semvi_btp.ResourceApplier.Functions.{FunctionMap, FilteringFunction, MutatingFunction}

abbrev core : String → GroupVersionResource
core name = record { group = ""; version = "v1"; resource = name }

abbrev pub pods : GroupVersionResource
pods = core "pods"

abbrev pub persistent_volumes : GroupVersionResource
persistent_volumes = core "persistentvolumes"

abbrev pub persistent_volume_claims : GroupVersionResource
persistent_volume_claims = core "persistentvolumeclaims"

module _ {W O R E : Type 0} (resources : Resources O R E) (clients : Clients W O E) where
  abbrev pub with_uid : PersistentVolume R → ClaimRef → String → PersistentVolume R
  with_uid pv claim uid = record {
    phase = pv.phase;
    claim_ref = some (record {
      claim_namespace = claim.claim_namespace;
      claim_name = claim.claim_name;
      claim_uid = uid;
    });
    others = pv.others;
  }

  -- A bound volume gets the UID of the claim in the destination; a bound one without a claim is a
  -- nil dereference.
  abbrev pub rebound : PersistentVolume R → Option ClaimRef → Act W E (PersistentVolume R)
  rebound pv none = crashes
  rebound pv (some claim) =
      clients.get persistent_volume_claims claim.claim_namespace claim.claim_name
      >>= (λ pvc. done (with_uid pv claim (resources.get_uid pvc)))

  unfoldable pub mutate_pv : O → Act W E O
  mutate_pv resource =
      lift (resources.volume_from resource)
      >>= (λ pv. if pv.phase == "Bound" then rebound pv pv.claim_ref else done pv)
      >>= (λ pv. lift (resources.volume_to pv))

  abbrev pub orphaned : Pod R → Pod R
  orphaned pod = record {
    node_name = pod.node_name;
    service_account_name = "";
    deprecated_service_account = "";
    owner_references = [];
    others = pod.others;
  }

  unfoldable pub mutate_pods : O → Act W E O
  mutate_pods resource =
      lift (resources.pod_from resource) >>= (λ pod. lift (resources.pod_to (orphaned pod)))

  unfoldable pub filter_pods_for_updating : O → Act W E Bool
  filter_pods_for_updating resource =
      lift (resources.pod_from resource)
      >>= (λ pod. done (if not (pod.node_name == "") then false else true))

  abbrev pub mandatory_filter_for_creating : FunctionMap (FilteringFunction W O E)
  mandatory_filter_for_creating = []

  abbrev pub mandatory_mutate_for_creating : FunctionMap (MutatingFunction W O E)
  mandatory_mutate_for_creating =
      (persistent_volumes, mutate_pv ∷ []) ∷ (pods, mutate_pods ∷ []) ∷ []

  abbrev pub mandatory_filter_for_updating : FunctionMap (FilteringFunction W O E)
  mandatory_filter_for_updating = (pods, filter_pods_for_updating ∷ []) ∷ []

  abbrev pub mandatory_mutate_for_updating : FunctionMap (MutatingFunction W O E)
  mandatory_mutate_for_updating =
      (persistent_volumes, mutate_pv ∷ []) ∷ (pods, mutate_pods ∷ []) ∷ []
