-- ===== src/ResourceApplier/Service.antt =====
-- simulator/resourceapplier/resourceapplier.go: the service, New, Create, Update and Delete. The order
-- in which New goes over a map has no effect, since its keys differ.
use semvi_btp.Common.{String, Option, List, [], if◌then◌else◌, none}
use semvi_btp.Common.Kubernetes.{GroupVersionResource}
use semvi_btp.ResourceApplier.Library.{Resources, Act, Clients, done, lift, ◌>>=◌, wrapping}
use semvi_btp.ResourceApplier.Functions.{
  FunctionMap, FilteringFunction, MutatingFunction, functions_at, add_all, filter_with, mutate_with,
}
use semvi_btp.ResourceApplier.Resource.{
  mandatory_filter_for_creating, mandatory_mutate_for_creating, mandatory_filter_for_updating,
  mandatory_mutate_for_updating,
}

pub record Options (W O E : Type 0) : Type 0 where
  pub gvrs_to_apply : Option (List GroupVersionResource)
  pub filter_before_creating : FunctionMap (FilteringFunction W O E)
  pub mutate_before_creating : FunctionMap (MutatingFunction W O E)
  pub filter_before_updating : FunctionMap (FilteringFunction W O E)
  pub mutate_before_updating : FunctionMap (MutatingFunction W O E)

-- Without the clients, which are a parameter.
pub record Service (W O E : Type 0) : Type 0 where
  pub filter_for_creating : FunctionMap (FilteringFunction W O E)
  pub mutate_for_creating : FunctionMap (MutatingFunction W O E)
  pub filter_for_updating : FunctionMap (FilteringFunction W O E)
  pub mutate_for_updating : FunctionMap (MutatingFunction W O E)
  pub gvrs_to_sync : Option (List GroupVersionResource)

module _ {W O R E : Type 0} (resources : Resources O R E) (clients : Clients W O E) where
  unfoldable pub new : Options W O E → Service W O E
  unfolding add_all
  new options = record {
    filter_for_creating =
        add_all options.filter_before_creating
          (add_all (mandatory_filter_for_creating resources clients) []);
    mutate_for_creating =
        add_all options.mutate_before_creating
          (add_all (mandatory_mutate_for_creating resources clients) []);
    filter_for_updating =
        add_all options.filter_before_updating
          (add_all (mandatory_filter_for_updating resources clients) []);
    mutate_for_updating =
        add_all options.mutate_before_updating
          (add_all (mandatory_mutate_for_updating resources clients) []);
    gvrs_to_sync = options.gvrs_to_apply;
  }

  abbrev pub find_gvr : O → Act W E GroupVersionResource
  find_gvr resource = lift (clients.rest_mapping (resources.group_version_kind resource))

  abbrev pub remove_unnecessary_metadata : O → O
  remove_unnecessary_metadata resource = resources.set_creation_timestamp none (
      resources.set_resource_version ""
        (resources.set_generation 0 (resources.set_uid "" resource)))

  -- What Create and Update have in common: the functions that filter, that mutate, and the write.
  abbrev pub apply_resource :
      Option (List (FilteringFunction W O E))
      → Option (List (MutatingFunction W O E))
      → String
      → (O → Act W E Unit)
      → O
      → Act W E Unit
  apply_resource filters mutators text write resource = filter_with filters resource >>= (λ passed.
      if passed
      then wrapping "failed to mutate resource"
          (mutate_with mutators (remove_unnecessary_metadata resource))
        >>= (λ mutated. wrapping text (write mutated))
      else done tt)

  unfoldable pub create : Service W O E → O → Act W E Unit
  unfolding functions_at
  create s resource = find_gvr resource >>= (λ gvr.
      apply_resource (functions_at gvr s.filter_for_creating)
        (functions_at gvr s.mutate_for_creating) "failed to create resource"
        (clients.create gvr (resources.get_namespace resource)) resource)

  unfoldable pub update : Service W O E → O → Act W E Unit
  unfolding functions_at
  update s resource = find_gvr resource >>= (λ gvr.
      apply_resource (functions_at gvr s.filter_for_updating)
        (functions_at gvr s.mutate_for_updating) "failed to update resource"
        (clients.update gvr (resources.get_namespace resource)) resource)

  unfoldable pub delete : Service W O E → O → Act W E Unit
  delete s resource = find_gvr resource >>= (λ gvr.
      wrapping "failed to delete resource"
        (clients.delete gvr (resources.get_namespace resource) (resources.get_name resource)))
