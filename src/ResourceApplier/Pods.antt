-- ===== src/ResourceApplier/Pods.antt =====
-- What the registered functions do to pods: a scheduled pod is not updated, and a pod is created
-- without what ties it to its source cluster.
use semvi_btp.Common.{◌≡◌, ◌≢◌, refl, ap, ◌∙◌, true, none, [], ◌∷◌, eq-false_of_ne, returns, ok}
use semvi_btp.ResourceApplier.Library.{Pod, Resources, Clients, go_on, lift, in_text, wrapping}
use semvi_btp.ResourceApplier.Functions.{
  functions_at, pass_all, filter_with, mutate_with, mutate_all, add_all,
}
use semvi_btp.ResourceApplier.Resource.{
  pods, orphaned, mutate_pods, filter_pods_for_updating, mandatory_mutate_for_creating,
  mandatory_filter_for_updating,
}
use semvi_btp.ResourceApplier.Service.{Options, new, create, update}
use semvi_btp.ResourceApplier.Registered.{
  all_at, functions_at-add_all, filter_with-or_empty, mutate_with-or_empty,
}

module _ {W O R E : Type 0} (resources : Resources O R E) (clients : Clients W O E) where
  update_filters :
      (options : Options W O E)
      → filter_with (functions_at pods (new resources clients options).filter_for_updating)
        ≡ pass_all (
            filter_pods_for_updating resources clients ∷ all_at pods options.filter_before_updating)
  unfolding new functions_at add_all
  update_filters options =
      let mandatory = add_all (mandatory_filter_for_updating resources clients) [] in
      filter_with-or_empty (functions_at pods (add_all options.filter_before_updating mandatory))
      ∙ ap pass_all (functions_at-add_all pods options.filter_before_updating mandatory)

  -- A pod that has a node in the source cluster is not updated in the destination: `Update` returns
  -- no error and leaves the cluster as it is, and no function of the options runs, whatever the
  -- options are.
  pub update-scheduled_pod :
      (options : Options W O E) (resource : O) (pod : Pod R) (w : W)
      → clients.rest_mapping (resources.group_version_kind resource) ≡ ok pods
      → resources.pod_from resource ≡ ok pod
      → pod.node_name ≢ ""
      → update resources clients (new resources clients options) resource w ≡ returns (w, ok tt)
  unfolding update pass_all filter_pods_for_updating
  update-scheduled_pod options resource pod w maps typed scheduled =
      rw (maps, update_filters options, typed, eq-false_of_ne pod.node_name "" scheduled) refl

  create_filters :
      (options : Options W O E)
      → filter_with (functions_at pods (new resources clients options).filter_for_creating)
        ≡ pass_all (all_at pods options.filter_before_creating)
  unfolding new functions_at add_all
  create_filters options =
      filter_with-or_empty (functions_at pods (add_all options.filter_before_creating []))
      ∙ ap pass_all (functions_at-add_all pods options.filter_before_creating [])

  create_mutators :
      (options : Options W O E)
      → mutate_with (functions_at pods (new resources clients options).mutate_for_creating)
        ≡ mutate_all (mutate_pods resources clients ∷ all_at pods options.mutate_before_creating)
  unfolding new functions_at add_all
  create_mutators options =
      let mandatory = add_all (mandatory_mutate_for_creating resources clients) [] in
      mutate_with-or_empty (functions_at pods (add_all options.mutate_before_creating mandatory))
      ∙ ap mutate_all (functions_at-add_all pods options.mutate_before_creating mandatory)

  -- A pod that the filters of the options pass is created as it was read, with an empty UID, an empty
  -- resource version, generation 0 and no creation time, and then, as a typed pod, with neither
  -- service account nor owners, its node and all else kept: this is what the mutating functions of
  -- the options get, and in their absence the cluster. What they give is created in the namespace
  -- that the pod had before, in the state that the filters left. Their error, or that of the
  -- conversion of the typed pod, ends the call without a write.
  pub create-pod :
      (options : Options W O E) (resource : O) (pod : Pod R) (w v : W)
      → clients.rest_mapping (resources.group_version_kind resource) ≡ ok pods
      → pass_all (all_at pods options.filter_before_creating) resource w ≡ returns (v, ok true)
      → resources.pod_from (
          resources.set_creation_timestamp none (
            resources.set_resource_version ""
              (resources.set_generation 0 (resources.set_uid "" resource))))
        ≡ ok pod
      → (orphan : Pod R) × (orphan.service_account_name ≡ "")
        × (orphan.deprecated_service_account ≡ "")
        × (orphan.owner_references ≡ [])
        × (orphan.node_name ≡ pod.node_name)
        × (orphan.others ≡ pod.others)
        × (create resources clients (new resources clients options) resource w
            ≡ go_on
                (in_text "failed to mutate resource" (
                  go_on
                    (lift (resources.pod_to orphan) v)
                    (mutate_all (all_at pods options.mutate_before_creating))))
                (λ mutated.
                  wrapping "failed to create resource"
                    (clients.create pods (resources.get_namespace resource) mutated)))
  unfolding create mutate_all mutate_pods
  create-pod options resource pod w v maps passes typed = (
    orphaned resources clients pod,
    refl,
    refl,
    refl,
    refl,
    refl,
    rw (maps, create_filters options, passes, create_mutators options, typed) refl,
  )
