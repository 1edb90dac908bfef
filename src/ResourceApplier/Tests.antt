-- ===== src/ResourceApplier/Tests.antt =====
-- Pods on a cluster that is the list of what was written.
use semvi_btp.Common.{
  ◌≡◌, refl, String, Bool, true, false, Option, none, some, List, [], ◌∷◌, ◌==◌, eq_iff,
  if◌then◌else◌, returns, panics, ok, err,
}
use semvi_btp.Common.Errors.{raised, wrapped}
use semvi_btp.ResourceApplier.Library.{
  Pod, ClaimRef, Resources, Clients, done, go_on, lift, in_text, wrapping,
}
use semvi_btp.ResourceApplier.Functions.{
  functions_at, put_functions, add_functions, add_all, pass_all, mutate_all,
}
use semvi_btp.ResourceApplier.Resource.{pods, persistent_volumes, mutate_pods, mutate_pv}
use semvi_btp.ResourceApplier.Service.{Options, new, create, update, delete}
use semvi_btp.ResourceApplier.Registered.{all_at}
use semvi_btp.ResourceApplier.Pods.{update-scheduled_pod, create-pod}
use mathlib.Core.Bool.{false≢true}

record Object : Type 0 where
  is_volume : Bool
  uid : String
  resource_version : String
  node : String
  account : String
  owners : List String
  claim : Option ClaimRef

abbrev object_of : Bool → String → String → String → String → List String → Option ClaimRef → Object
object_of v u r n a o c = record {
  is_volume = v;
  uid = u;
  resource_version = r;
  node = n;
  account = a;
  owners = o;
  claim = c;
}

abbrev resources : Resources Object String String
resources = record {
  group_version_kind = λ o. record {
    group = "";
    version = "v1";
    kind = if o.is_volume then "PersistentVolume" else "Pod";
  };
  get_name = λ o. "web";
  get_namespace = λ o. "default";
  get_uid = λ o. o.uid;
  set_uid = λ u o. object_of o.is_volume u o.resource_version o.node o.account o.owners o.claim;
  set_generation = λ g o. o;
  set_resource_version = λ r o. object_of o.is_volume o.uid r o.node o.account o.owners o.claim;
  set_creation_timestamp = λ t o. o;
  pod_from = λ o. ok (record {
    node_name = o.node;
    service_account_name = o.account;
    deprecated_service_account = o.account;
    owner_references = o.owners;
    others = o.uid;
  });
  pod_to = λ p.
      ok (object_of false p.others "" p.node_name p.service_account_name p.owner_references none);
  volume_from = λ o. ok (record { phase = "Bound"; claim_ref = o.claim; others = o.uid });
  volume_to = λ v. ok (object_of true v.others "" "" "" [] v.claim_ref);
}

abbrev World : Type 0
World = List (String × Object)

abbrev clients : Clients World Object String
clients = record {
  rest_mapping = λ k. ok (if k.kind == "Pod" then pods else persistent_volumes);
  create = λ gvr ns o w. returns ((ns, o) ∷ w, ok tt);
  update = λ gvr ns o w. returns ((ns, o) ∷ w, ok tt);
  delete = λ gvr ns name w. returns (w, err (raised "not found"));
  get = λ gvr ns name w. returns (w, ok (object_of false "claim-2" "" "" "" [] none));
}

abbrev no_options : Options World Object String
no_options = record {
  gvrs_to_apply = none;
  filter_before_creating = [];
  mutate_before_creating = [];
  filter_before_updating = [];
  mutate_before_updating = [];
}

abbrev web : Object
web = object_of false "uid-1" "42" "node-1" "robot" ("replica-set" ∷ []) none

abbrev bare : Object
bare = object_of false "" "" "node-1" "" [] none

abbrev pod_of : String → Pod String
pod_of uid = record {
  node_name = "node-1";
  service_account_name = "robot";
  deprecated_service_account = "robot";
  owner_references = "replica-set" ∷ [];
  others = uid;
}

-- The mandatory functions at work: a created pod has lost what it is to lose.
web_created :
    create resources clients (new resources clients no_options) web []
    ≡ returns (("default", bare) ∷ [], ok tt)
unfolding create new functions_at put_functions add_functions add_all pass_all mutate_all
    mutate_pods
web_created = refl

-- A bound volume gets the UID of the claim in the destination.
abbrev volume : String → Object
volume uid =
    object_of true "" "" "" "" []
      (some (record { claim_namespace = "default"; claim_name = "data"; claim_uid = uid }))

volume_created :
    create resources clients (new resources clients no_options) (volume "claim-1") []
    ≡ returns (("default", volume "claim-2") ∷ [], ok tt)
unfolding create new functions_at put_functions add_functions add_all pass_all mutate_all mutate_pv
volume_created = refl

-- A bound volume without a claim.
volume_crashes :
    create resources clients
      (new resources clients no_options)
      (object_of true "" "" "" "" [] none)
      []
    ≡ panics
unfolding create new functions_at put_functions add_functions add_all pass_all mutate_all mutate_pv
volume_crashes = refl

deleted :
    delete resources clients (new resources clients no_options) web []
    ≡ returns ([], err (wrapped "failed to delete resource" (raised "not found")))
unfolding delete new
deleted = refl

-- The options' functions: a filter that passes all pods, and a mutation that names the account.
abbrev options : Options World Object String
options = record {
  gvrs_to_apply = none;
  filter_before_creating = (pods, (λ o. done true) ∷ []) ∷ [];
  mutate_before_creating =
      (pods, (λ o. done (object_of false o.uid "" o.node "default" o.owners none)) ∷ []) ∷ [];
  filter_before_updating = (pods, (λ o. done true) ∷ []) ∷ [];
  mutate_before_updating = [];
}

create-pod_example :
    (orphan : Pod String) × (orphan.service_account_name ≡ "")
    × (orphan.deprecated_service_account ≡ "")
    × (orphan.owner_references ≡ [])
    × (orphan.node_name ≡ (pod_of "").node_name)
    × (orphan.others ≡ (pod_of "").others)
    × (create resources clients (new resources clients options) web []
        ≡ go_on
            (in_text "failed to mutate resource" (
              go_on
                (lift (resources.pod_to orphan) [])
                (mutate_all (all_at pods options.mutate_before_creating))))
            (λ mutated.
              wrapping "failed to create resource"
                (clients.create pods (resources.get_namespace web) mutated)))
unfolding pass_all all_at
create-pod_example = create-pod resources clients options web (pod_of "") [] [] refl refl refl

update-scheduled_pod_example :
    update resources clients (new resources clients options) web [] ≡ returns ([], ok tt)
update-scheduled_pod_example =
    update-scheduled_pod resources clients options web (pod_of "uid-1") [] refl refl
      (λ same. false≢true ((eq_iff "node-1" "").1 same))
