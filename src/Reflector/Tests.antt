-- ===== src/Reflector/Tests.antt =====
-- A reflector of two stores on a cluster of one pod, the first updates of which are in conflict.
use semvi_btp.Common.{
  ◌≡◌, ◌≢◌, refl, ℕ, zero, suc, ◌≤◌, String, true, false, Option, none, some, List, [], ◌∷◌, ◌==◌,
  ◌⊎◌, if◌then◌else◌, ok,
}
use semvi_btp.Common.GoMap.{GoMap, nil_map, made, get, lookup, insert}
use semvi_btp.Common.Errors.{GoError, raised, message}
use semvi_btp.Reflector.Defs.{
  Pod, ResultStore, Stores, World, Client, new, add_result_store, is_handled, take_entries, collect,
  delete_all, results_history_annotation,
}
use semvi_btp.Reflector.History.{ResultSet, Json, trim_history, update_result_history}
use semvi_btp.Reflector.Handler.{
  Attempt, ExponentialBackoff, retry_with_exponential_back_off, update_func,
  store_all_result_to_pod,
}
use semvi_btp.Reflector.Trimmed.{IsExtended, update_result_history-IsExtended}
use semvi_btp.Reflector.Collected.{or_else}
use semvi_btp.Reflector.Attempts.{
  RepeatsUpToSteps, repeat, Settles, Fails, start, handle_pod, store_all_result_to_pod-cases,
}
use semvi_btp.Reflector.Written.{store_all_result_to_pod-writes}
use Prim.Native.String as Text

abbrev pod_with : GoMap String → Pod Unit
pod_with annos = record {
  namespace = "default";
  name = "web";
  uid = "uid-1";
  annotations = annos;
  is_deleting = false;
  others = tt;
}

-- A store has the results of one pod.
abbrev store : ResultStore (GoMap String) Unit
store = record { get_stored_result = λ pod s. (s, s); delete_data = λ pod s. nil_map }

abbrev encode : List ResultSet → String
encode [] = ""
encode ([] ∷ rest) = encode rest
encode (((k, v) ∷ others) ∷ rest) = Text.◌++◌ v (encode rest)

abbrev json : Json String
json = record {
  unmarshal_results = λ text. if text == "[]" then ok [] else ok ((("score", text) ∷ []) ∷ []);
  marshal_results = λ rs. ok (encode rs);
  byte_size = Text.count;
  total_annotation_size_limit = 5;
}

record Cluster : Type 0 where
  conflicts : ℕ
  live : Pod Unit

abbrev try_update :
    ℕ
    → Pod Unit
    → World Cluster (GoMap String)
    → World Cluster (GoMap String) × Option (GoError String)
try_update zero pod w =
    (record { cluster = record { conflicts = 0; live = pod }; stores = w.stores }, none)
try_update (suc n) pod w = (
  record { cluster = record { conflicts = n; live = w.cluster.live }; stores = w.stores },
  some (raised "conflict"),
)

abbrev client : Client Cluster (GoMap String) Unit String
client = record {
  get_pod = λ namespace name w. (w, ok w.cluster.live);
  update_pod = λ pod w. try_update w.cluster.conflicts pod w;
  is_not_found = λ e. e == "not found";
  is_conflict = λ e. e == "conflict";
}

abbrev timed_out : GoError String
timed_out = message "timed out waiting for the condition"

abbrev backoff : {P : Type 0} → ExponentialBackoff P String
backoff b fn p = repeat timed_out b.steps fn p

repeats : RepeatsUpToSteps {P = Attempt Cluster (GoMap String) Unit} timed_out backoff
repeats b fn p = refl

abbrev stores : Stores (GoMap String)
stores =
    add_result_store (made (("score", "90") ∷ [])) "plugins"
      (add_result_store (made (("bind", "ok") ∷ [])) "extenders" new)

abbrev world : ℕ → World Cluster (GoMap String)
world n = record {
  cluster = record { conflicts = n; live = pod_with (made (("owner", "me") ∷ [])) };
  stores = stores;
}

abbrev handled : ℕ → World Cluster (GoMap String)
handled n = handle_pod store json client backoff (pod_with nil_map) (world n)

abbrev forgotten : Stores (GoMap String)
forgotten = ("extenders", nil_map) ∷ ("plugins", nil_map) ∷ []

-- Two conflicts, then the results are written and forgotten.
handled_twice : (handled 2).stores ≡ forgotten
unfolding store_all_result_to_pod retry_with_exponential_back_off repeat update_func collect
    take_entries update_result_history trim_history delete_all insert lookup
handled_twice = refl

bind_written : get (handled 2).cluster.live.annotations "bind" ≡ some "ok"
unfolding store_all_result_to_pod retry_with_exponential_back_off repeat update_func collect
    take_entries update_result_history trim_history delete_all insert lookup
bind_written = refl

-- Six conflicts: the results stay.
handled_six : (handled 6).stores ≡ stores
unfolding store_all_result_to_pod retry_with_exponential_back_off repeat update_func collect
    take_entries update_result_history trim_history delete_all insert lookup
handled_six = refl

store_all_result_to_pod-cases_example :
    ((n : ℕ) × (c : Attempt Cluster (GoMap String) Unit) × (n ≤ 6)
      × Settles
          (update_func store json client)
          n
          (start store json client backoff (pod_with nil_map) (world 2))
          c
      × (handled 2
          ≡ record { cluster = c.world.cluster; stores = delete_all store c.pod c.world.stores }))
    ⊎ ((c : Attempt Cluster (GoMap String) Unit) × Fails
          (update_func store json client)
          6
          (start store json client backoff (pod_with nil_map) (world 2))
          c
        × (handled 2 ≡ c.world)
        × ((n : ℕ) (d : Attempt Cluster (GoMap String) Unit)
            → n ≤ 6
            → Settles
                (update_func store json client)
                n
                (start store json client backoff (pod_with nil_map) (world 2))
                d
            → ⊥))
store_all_result_to_pod-cases_example =
    store_all_result_to_pod-cases store json client backoff timed_out repeats (pod_with nil_map)
      (world 2)

abbrev results : ResultSet
results = ("bind", "ok") ∷ ("score", "90") ∷ []

abbrev taken : Pod Unit → World Cluster (GoMap String)
taken p = record { cluster = record { conflicts = 0; live = p }; stores = stores }

store_all_result_to_pod-writes_example :
    (written : Pod Unit) × (handled 0 ≡ record {
      cluster = (taken written).cluster;
      stores = delete_all store written (taken written).stores;
    })
    × (written ≡ pod_with written.annotations)
    × ((key : String)
        → key ≢ results_history_annotation
        → get written.annotations key
          ≡ or_else (lookup key results) (get (made (("owner", "me") ∷ [])) key))
unfolding collect take_entries insert
store_all_result_to_pod-writes_example =
    store_all_result_to_pod-writes store json client backoff timed_out repeats (pod_with nil_map)
      (pod_with (made (("owner", "me") ∷ []))) (world 0) (world 0) refl refl stores ("bind", "ok")
      (("score", "90") ∷ []) (made (("owner", "me") ∷ ("bind", "ok") ∷ ("score", "90") ∷ [])) refl
      taken (λ p. refl)

abbrev old_pod : Pod Unit
old_pod = pod_with (made ((results_history_annotation, "abcd") ∷ []))

update_result_history-IsExtended_example :
    IsExtended json encode
      ((("score", "abcd") ∷ []) ∷ results ∷ [])
      old_pod
      (update_result_history json old_pod results)
unfolding lookup
update_result_history-IsExtended_example =
    update_result_history-IsExtended json encode old_pod results ((("score", "abcd") ∷ []) ∷ [])
      (λ rs. refl) refl

-- The old result is dropped: both together have six bytes.
history_trimmed :
    get (update_result_history json old_pod results).0.annotations results_history_annotation
    ≡ some "ok"
unfolding update_result_history trim_history lookup insert
history_trimmed = refl

deleting_ignored : is_handled (some (pod_with nil_map)) ≡ true
deleting_ignored = refl
