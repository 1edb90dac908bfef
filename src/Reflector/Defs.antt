-- ===== src/Reflector/Defs.antt =====
-- simulator/scheduler/storereflector/storereflector.go: the reflector, what it uses of pods and of the
-- API, and the results of all stores on a pod. The stores are visited in the order of the list; which
-- order is chosen matters only if two stores give one annotation.
use semvi_btp.Common.{
  String, Bool, true, false, Option, none, some, List, [], ◌∷◌, if◌then◌else◌, Try,
}
use semvi_btp.Common.GoMap.{GoMap, nil_map, made, insert, entries}
use semvi_btp.Common.Errors.{GoError}

abbrev pub results_history_annotation : String
results_history_annotation = "kube-scheduler-simulator.sigs.k8s.io/result-history"

-- corev1.Pod: what the code uses, and the rest.
pub record Pod (R : Type 0) : Type 0 where
  pub namespace : String
  pub name : String
  pub uid : String
  pub annotations : GoMap String
  pub is_deleting : Bool
  pub others : R

-- ResultStore, on the states `S` of the stores.
pub record ResultStore (S R : Type 0) : Type 0 where
  pub get_stored_result : Pod R → S → S × GoMap String
  pub delete_data : Pod R → S → S

abbrev pub Stores : Type 0 → Type 0
Stores S = List (String × S)

-- New and AddResultStore.
abbrev pub new : {S : Type 0} → Stores S
new = []

abbrev pub add_result_store : {S : Type 0} → S → String → Stores S → Stores S
add_result_store store key stores = insert key store stores

-- The cluster and the stores; others may record results while a call of the API runs.
pub record World (W S : Type 0) : Type 0 where
  pub cluster : W
  pub stores : Stores S

-- The client's Get and Update of pods, with the tests of apierrors on the API's error.
pub record Client (W S R E : Type 0) : Type 0 where
  pub get_pod : String → String → World W S → World W S × Try (GoError E) (Pod R)
  pub update_pod : Pod R → World W S → World W S × Option (GoError E)
  pub is_not_found : E → Bool
  pub is_conflict : E → Bool

-- FilterFunc: an object that is a pod is `some`.
abbrev pub is_handled : {R : Type 0} → Option (Pod R) → Bool
is_handled none = true
is_handled (some pod) = if pod.is_deleting then false else true

-- A write to the annotations, which are made if they are nil.
abbrev pub annotate : String → String → GoMap String → GoMap String
annotate key value nil_map = made ((key, value) ∷ [])
annotate key value (made m) = made (insert key value m)

abbrev pub with_annotations : {R : Type 0} → Pod R → GoMap String → Pod R
with_annotations pod annos = record {
  namespace = pod.namespace;
  name = pod.name;
  uid = pod.uid;
  annotations = annos;
  is_deleting = pod.is_deleting;
  others = pod.others;
}

-- The inner loop: the entries of one store's result, into the result set and the annotations.
unfoldable pub take_entries :
    List (String × String)
    → List (String × String)
    → GoMap String
    → List (String × String) × GoMap String
take_entries [] result_set annos = (result_set, annos)
take_entries ((k, v) ∷ rest) result_set annos =
    take_entries rest (insert k v result_set) (annotate k v annos)

module _ {S R : Type 0} (store : ResultStore S R) where
  -- The outer loop: the stores after it, the result set and the pod's annotations.
  unfoldable pub collect :
      Pod R
      → Stores S
      → List (String × String)
      → GoMap String
      → Stores S × List (String × String) × GoMap String
  unfolding take_entries
  collect pod [] result_set annos = ([], result_set, annos)
  collect pod ((key, s) ∷ rest) result_set annos =
      let (t, m) = store.get_stored_result (with_annotations pod annos) s in
      let (more, annotated) = take_entries (entries m) result_set annos in
      let (ts, all, last) = collect pod rest more annotated in ((key, t) ∷ ts, all, last)

  -- The last loop of the handler.
  unfoldable pub delete_all : Pod R → Stores S → Stores S
  delete_all pod [] = []
  delete_all pod ((key, s) ∷ rest) = (key, store.delete_data pod s) ∷ delete_all pod rest
