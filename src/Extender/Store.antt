-- ===== src/Extender/Store.antt =====
-- simulator/scheduler/extender/resultstore/resultstore.go, with the keys of annotation/annotation.go.
-- Every map of the store is made. The types of the results are parameters, and so is json.Marshal.
-- A request's pod is `none` if the pointer is nil.
use semvi_btp.Common.{String, Option, none, some, List, [], Run, returns, panics, Try, ok, err}
use semvi_btp.Common.GoMap.{lookup, insert, without}
use Prim.Native.String.{◌++◌}

abbrev pub extender_filter_result_annotation_key : String
extender_filter_result_annotation_key =
    "kube-scheduler-simulator.sigs.k8s.io/extender-filter-result"

abbrev pub extender_prioritize_result_annotation_key : String
extender_prioritize_result_annotation_key =
    "kube-scheduler-simulator.sigs.k8s.io/extender-prioritize-result"

abbrev pub extender_preempt_result_annotation_key : String
extender_preempt_result_annotation_key =
    "kube-scheduler-simulator.sigs.k8s.io/extender-preempt-result"

abbrev pub extender_bind_result_annotation_key : String
extender_bind_result_annotation_key = "kube-scheduler-simulator.sigs.k8s.io/extender-bind-result"

-- The namespace and the name of a pod.
pub record PodName : Type 0 where
  pub namespace : String
  pub name : String

-- ExtenderArgs and ExtenderPreemptionArgs: the pod, and the rest.
pub record Args (A : Type 0) : Type 0 where
  pub pod : Option PodName
  pub rest : A

pub record Result (F P M B : Type 0) : Type 0 where
  pub filters : List (String × F)
  pub prioritizes : List (String × P)
  pub preempts : List (String × M)
  pub binds : List (String × B)

abbrev pub Store : Type 0 → Type 0 → Type 0 → Type 0 → Type 0
Store F P M B = List (String × Result F P M B)

unfoldable pub new_key : String → String → String
new_key namespace pod_name = (namespace ++ "/") ++ pod_name

abbrev pub pod_key : PodName → String
pod_key pod = new_key pod.namespace pod.name

module _ {F P M B : Type 0} where
  abbrev pub new : Store F P M B
  new = []

  abbrev pub new_data : Result F P M B
  new_data = record { filters = []; prioritizes = []; preempts = []; binds = [] }

  abbrev pub or_new_data : Option (Result F P M B) → Result F P M B
  or_new_data none = new_data
  or_new_data (some r) = r

  -- The write to the entry, which is made if it is missing.
  abbrev pub at_key : String → (Result F P M B → Result F P M B) → Store F P M B → Store F P M B
  at_key k write s = insert k (write (or_new_data (lookup k s))) s

  abbrev pub put_filter : String → F → Result F P M B → Result F P M B
  put_filter host value r = record {
    filters = insert host value r.filters;
    prioritizes = r.prioritizes;
    preempts = r.preempts;
    binds = r.binds;
  }

  abbrev pub put_prioritize : String → P → Result F P M B → Result F P M B
  put_prioritize host value r = record {
    filters = r.filters;
    prioritizes = insert host value r.prioritizes;
    preempts = r.preempts;
    binds = r.binds;
  }

  abbrev pub put_preempt : String → M → Result F P M B → Result F P M B
  put_preempt host value r = record {
    filters = r.filters;
    prioritizes = r.prioritizes;
    preempts = insert host value r.preempts;
    binds = r.binds;
  }

  abbrev pub put_bind : String → B → Result F P M B → Result F P M B
  put_bind host value r = record {
    filters = r.filters;
    prioritizes = r.prioritizes;
    preempts = r.preempts;
    binds = insert host value r.binds;
  }

  -- The write for the pod of a request: a nil pod is a nil dereference.
  abbrev pub for_pod :
      Option PodName → (Result F P M B → Result F P M B) → Store F P M B → Run (Store F P M B)
  for_pod none write s = panics
  for_pod (some pod) write s = returns (at_key (pod_key pod) write s)

  unfoldable pub add_filter_result :
      {A : Type 0} → Args A → F → String → Store F P M B → Run (Store F P M B)
  add_filter_result args value host s = for_pod args.pod (put_filter host value) s

  unfoldable pub add_prioritize_result :
      {A : Type 0} → Args A → P → String → Store F P M B → Run (Store F P M B)
  add_prioritize_result args value host s = for_pod args.pod (put_prioritize host value) s

  unfoldable pub add_preempt_result :
      {A : Type 0} → Args A → M → String → Store F P M B → Run (Store F P M B)
  add_preempt_result args value host s = for_pod args.pod (put_preempt host value) s

  -- A bind request names its pod.
  unfoldable pub add_bind_result : PodName → B → String → Store F P M B → Run (Store F P M B)
  add_bind_result args value host s = returns (at_key (pod_key args) (put_bind host value) s)

  unfoldable pub delete_data : PodName → Store F P M B → Store F P M B
  delete_data pod s = without (pod_key pod) s

-- json.Marshal on the four maps.
pub record Marshal (F P M B E : Type 0) : Type 0 where
  pub of_filters : List (String × F) → Try E String
  pub of_prioritizes : List (String × P) → Try E String
  pub of_preempts : List (String × M) → Try E String
  pub of_binds : List (String × B) → Try E String

module _ {F P M B E : Type 0} (marshal : Marshal F P M B E) where
  -- One of the functions that add a result to the map; an error ends the call with nil.
  abbrev pub add_to_map :
      String → Try E String → Option (List (String × String)) → Option (List (String × String))
  add_to_map key (ok text) (some anno) = some (insert key text anno)
  add_to_map key (ok text) none = none
  add_to_map key (err e) anno = none

  abbrev pub stored : Option (Result F P M B) → Option (List (String × String))
  stored none = none
  stored (some r) = add_to_map extender_bind_result_annotation_key (marshal.of_binds r.binds) (
      add_to_map extender_preempt_result_annotation_key (marshal.of_preempts r.preempts) (
        add_to_map extender_prioritize_result_annotation_key (marshal.of_prioritizes r.prioritizes)
          (add_to_map extender_filter_result_annotation_key (marshal.of_filters r.filters)
            (some []))))

  -- `none` is a nil map.
  unfoldable pub get_stored_result : PodName → Store F P M B → Option (List (String × String))
  get_stored_result pod s = stored (lookup (pod_key pod) s)
