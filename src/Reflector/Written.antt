-- ===== src/Reflector/Written.antt =====
-- What the handler writes on the pod when the API takes its update.
use semvi_btp.Common.{
  ◌≡◌, ◌≢◌, refl, sym, ◌∙◌, subst, String, false, none, List, [], ◌∷◌, ◌++◌, eq_iff, ◌==◌,
  eq-false_of_ne, Try, ok, err,
}
use semvi_btp.Common.GoMap.{GoMap, get, lookup}
use semvi_btp.Common.Errors.{GoError}
use semvi_btp.Reflector.Defs.{
  Pod, ResultStore, Stores, World, Client, with_annotations, collect, delete_all,
  results_history_annotation,
}
use semvi_btp.Reflector.History.{
  Json, ResultSet, set_history, trim_history, extend_history, or_empty_array, update_result_history,
}
use semvi_btp.Reflector.Handler.{
  retry_backoff, Attempt, ExponentialBackoff, retry_with_exponential_back_off, update_func,
  store_all_result_to_pod,
}
use semvi_btp.Reflector.Collected.{or_else, get-annotate, collect-Overlays}
use semvi_btp.Reflector.Attempts.{RepeatsUpToSteps, repeat, start, handle_pod}

module _ {W S R E : Type 0} (store : ResultStore S R) (json : Json E) (client : Client W S R E)
    (exponential_backoff : ExponentialBackoff (Attempt W S R) E) where
  set_history-others :
      (key : String) (pod : Pod R) (t : Try (GoError E) String)
      → (results_history_annotation == key) ≡ false
      → get (set_history json pod t).0.annotations key ≡ get pod.annotations key
  set_history-others key pod (ok text) other =
      rw (get-annotate results_history_annotation key text pod.annotations, other) refl
  set_history-others key pod (err e) other = refl

  extend_history-others :
      (key : String) (pod : Pod R) (m : ResultSet) (t : Try E (List ResultSet))
      → (results_history_annotation == key) ≡ false
      → get (extend_history json pod m t).0.annotations key ≡ get pod.annotations key
  extend_history-others key pod m (ok results) other =
      set_history-others key pod (trim_history json (results ++ (m ∷ []))) other
  extend_history-others key pod m (err e) other = refl

  update_result_history-others :
      (key : String) (pod : Pod R) (m : ResultSet)
      → (results_history_annotation == key) ≡ false
      → get (update_result_history json pod m).0.annotations key ≡ get pod.annotations key
  unfolding update_result_history
  update_result_history-others key pod m other =
      extend_history-others key pod m
        (json.unmarshal_results
          (or_empty_array json (get pod.annotations results_history_annotation)))
        other

  set_history-keeps :
      (pod : Pod R) (t : Try (GoError E) String)
      → (set_history json pod t).0 ≡ with_annotations pod (set_history json pod t).0.annotations
  set_history-keeps pod (ok text) = refl
  set_history-keeps pod (err e) = refl

  extend_history-keeps :
      (pod : Pod R) (m : ResultSet) (t : Try E (List ResultSet))
      → (extend_history json pod m t).0
        ≡ with_annotations pod (extend_history json pod m t).0.annotations
  extend_history-keeps pod m (ok results) =
      set_history-keeps pod (trim_history json (results ++ (m ∷ [])))
  extend_history-keeps pod m (err e) = refl

  -- The history is an annotation: nothing else of the pod is touched.
  update_result_history-keeps :
      (pod : Pod R) (m : ResultSet)
      → (update_result_history json pod m).0
        ≡ with_annotations pod (update_result_history json pod m).0.annotations
  unfolding update_result_history
  update_result_history-keeps pod m = extend_history-keeps pod m (
      json.unmarshal_results (or_empty_array json (get pod.annotations results_history_annotation)))

  -- The handler on a pod that the API still has, with the same UID, when the stores have results and
  -- the API takes the update: one attempt is made. The API gets the latest pod, with its namespace,
  -- name, UID and all else as they were read, but for the annotations: these have, at each key but
  -- that of the history, the collected result if there is one, and else the annotation that was
  -- there. Then the stores forget the results of the pod that was written. ExponentialBackoff calls
  -- its condition up to the given number of steps.
  pub store_all_result_to_pod-writes :
      (timed_out : GoError E)
      → RepeatsUpToSteps timed_out exponential_backoff
      → (pod new_pod : Pod R) (world got : World W S)
      → client.get_pod pod.namespace pod.name world ≡ (got, ok new_pod)
      → new_pod.uid ≡ pod.uid
      → (after : Stores S) (r : String × String) (rs : List (String × String))
        (annos : GoMap String)
      → collect store new_pod got.stores [] new_pod.annotations ≡ (after, r ∷ rs, annos)
      → (done : Pod R → World W S)
      → ((p : Pod R)
          → client.update_pod p (record { cluster = got.cluster; stores = after }) ≡ (done p, none))
      → (written : Pod R) × (handle_pod store json client exponential_backoff pod world ≡ record {
        cluster = (done written).cluster;
        stores = delete_all store written (done written).stores;
      })
        × (written ≡ record {
          namespace = new_pod.namespace;
          name = new_pod.name;
          uid = new_pod.uid;
          annotations = written.annotations;
          is_deleting = new_pod.is_deleting;
          others = new_pod.others;
        })
        × ((key : String)
            → key ≢ results_history_annotation
            → get written.annotations key
              ≡ or_else (lookup key (r ∷ rs)) (get new_pod.annotations key))
  unfolding store_all_result_to_pod retry_with_exponential_back_off update_func repeat
  store_all_result_to_pod-writes timed_out repeats pod new_pod world got gets same after r rs annos
        collects done updates =
      let m = r ∷ rs in
      let written = (update_result_history json (with_annotations new_pod annos) m).0 in
      (
        written,
        rw
            (
              repeats retry_backoff (update_func store json client)
                  (start store json client exponential_backoff pod world),
              gets,
              (eq_iff new_pod.uid pod.uid).1 same,
              collects,
              updates written,
            )
            refl,
        update_result_history-keeps (with_annotations new_pod annos) m,
        λ key other.
            update_result_history-others key (with_annotations new_pod annos) m
              (eq-false_of_ne results_history_annotation key (λ e. other (sym e)))
            ∙ subst (λ c. get c.2 key ≡ or_else (lookup key c.1) (get new_pod.annotations key))
                collects (collect-Overlays store new_pod got.stores key),
      )
