-- ===== src/ResultStore/Calls.antt =====
-- The methods that write to the store, and histories of them.
use semvi_btp.Common.{
  String, Option, none, some, List, [], ◌∷◌, Run, returns, panics, ◌>>=◌, ◌==◌, if◌then◌else◌,
}
use semvi_btp.Common.GoMap.{GoMap, made, get, has, put, delete}
use semvi_btp.Common.Int.{ℤ, pos, ◌*ℤ◌, wrap64, format_int}
use semvi_btp.ResultStore.Defs.{Result, Store, new_key, with_result}

abbrev pub success_message : String
success_message = "success"

abbrev pub passed_filter_message : String
passed_filter_message = "passed"

abbrev pub wait_message : String
wait_message = "wait"

abbrev pub post_filter_nominated_message : String
post_filter_nominated_message = "preemption victim"

-- if _, ok := m[node]; !ok { m[node] = map[string]string{} }
unfoldable pub ensure_node : String → GoMap (GoMap String) → Run (GoMap (GoMap String))
ensure_node node m = if has m node then returns m else put m node (made [])

-- m[node][plugin] = text, which panics where m[node] is missing
unfoldable pub put_at : String → String → String → GoMap (GoMap String) → Run (GoMap (GoMap String))
put_at node plugin text m = elim (get m node) [
  | none ↦ panics
  | some inner ↦ (do written ← put inner plugin text; put m node written)
]

unfoldable pub record_at :
    String → String → String → GoMap (GoMap String) → Run (GoMap (GoMap String))
unfolding ensure_node put_at
record_at node plugin text m = do there ← ensure_node node m; put_at node plugin text there

unfoldable pub add_filter_result : String → String → String → String → String → Store → Run Store
unfolding with_result record_at
add_filter_result namespace pod_name node_name plugin_name reason =
    with_result (new_key namespace pod_name)
      λ r. do m ← record_at node_name plugin_name reason r.filter; returns (record r { filter = m })

-- The loop of `AddPostFilterResult` over the node names.
unfoldable pub post_filter_nodes :
    String → String → List String → GoMap (GoMap String) → Run (GoMap (GoMap String))
unfolding ensure_node put_at
post_filter_nodes nominated plugin [] m = returns m
post_filter_nodes nominated plugin (node ∷ nodes) m = do
  there ← ensure_node node m
  written ←
      (if node == nominated
        then put_at node plugin post_filter_nominated_message there
        else returns there)
  post_filter_nodes nominated plugin nodes written

unfoldable pub add_post_filter_result :
    String → String → String → String → List String → Store → Run Store
unfolding with_result post_filter_nodes
add_post_filter_result namespace pod_name nominated_node_name plugin_name node_names =
    with_result (new_key namespace pod_name) λ r. do
      m ← post_filter_nodes nominated_node_name plugin_name node_names r.post_filter
      returns (record r { post_filter = m })

-- A missing plugin has weight 0, as Go's read of a missing key has. The product is an int64.
unfoldable pub apply_weight_on_score : Store → String → ℤ → ℤ
unfolding wrap64 ◌*ℤ◌
apply_weight_on_score s plugin_name score = elim (get s.score_plugin_weight plugin_name) [
  | none ↦ wrap64 (score *ℤ pos 0)
  | some weight ↦ wrap64 (score *ℤ weight)
]

unfoldable pub add_normalized_score_result_without_lock :
    String → String → String → String → ℤ → Store → Run Store
unfolding with_result record_at apply_weight_on_score
add_normalized_score_result_without_lock namespace pod_name node_name plugin_name score s =
    with_result (new_key namespace pod_name)
      (λ r. do
        m ←
            record_at node_name plugin_name (format_int (apply_weight_on_score s plugin_name score))
              r.final_score
        returns (record r { final_score = m }))
      s

unfoldable pub add_normalized_score_result :
    String → String → String → String → ℤ → Store → Run Store
unfolding add_normalized_score_result_without_lock
add_normalized_score_result = add_normalized_score_result_without_lock

unfoldable pub add_score_result : String → String → String → String → ℤ → Store → Run Store
unfolding with_result record_at add_normalized_score_result_without_lock
add_score_result namespace pod_name node_name plugin_name score s = do
  scored ←
      with_result (new_key namespace pod_name)
        (λ r. do
          m ← record_at node_name plugin_name (format_int score) r.score
          returns (record r { score = m }))
        s
  add_normalized_score_result_without_lock namespace pod_name node_name plugin_name score scored

-- The rest of `AddPreFilterResult`: the pre-filter result is nil, or its unsorted node names.
abbrev pub pre_filter_written : Result → GoMap String → String → Option (List String) → Run Result
pre_filter_written r status plugin_name none = returns (record r { pre_filter_status = status })
pre_filter_written r status plugin_name (some names) = do
  m ← put r.pre_filter_result plugin_name names
  returns (record r { pre_filter_status = status; pre_filter_result = m })

unfoldable pub add_pre_filter_result :
    String → String → String → String → Option (List String) → Store → Run Store
unfolding with_result
add_pre_filter_result namespace pod_name plugin_name reason pre_filter_result =
    with_result (new_key namespace pod_name) λ r. do
      status ← put r.pre_filter_status plugin_name reason
      pre_filter_written r status plugin_name pre_filter_result

unfoldable pub add_pre_score_result : String → String → String → String → Store → Run Store
unfolding with_result
add_pre_score_result namespace pod_name plugin_name reason =
    with_result (new_key namespace pod_name)
      λ r. do m ← put r.pre_score plugin_name reason; returns (record r { pre_score = m })

-- The last text is `timeout.String()`.
unfoldable pub add_permit_result : String → String → String → String → String → Store → Run Store
unfolding with_result
add_permit_result namespace pod_name plugin_name status timeout =
    with_result (new_key namespace pod_name) λ r. do
      m ← put r.permit plugin_name status
      t ← put r.permit_timeout plugin_name timeout
      returns (record r { permit = m; permit_timeout = t })

unfoldable pub add_selected_node : String → String → String → Store → Run Store
unfolding with_result
add_selected_node namespace pod_name node_name =
    with_result (new_key namespace pod_name) λ r. returns (record r { selected_node = node_name })

unfoldable pub add_reserve_result : String → String → String → String → Store → Run Store
unfolding with_result
add_reserve_result namespace pod_name plugin_name status =
    with_result (new_key namespace pod_name)
      λ r. do m ← put r.reserve plugin_name status; returns (record r { reserve = m })

unfoldable pub add_bind_result : String → String → String → String → Store → Run Store
unfolding with_result
add_bind_result namespace pod_name plugin_name status =
    with_result (new_key namespace pod_name)
      λ r. do m ← put r.bind plugin_name status; returns (record r { bind = m })

unfoldable pub add_pre_bind_result : String → String → String → String → Store → Run Store
unfolding with_result
add_pre_bind_result namespace pod_name plugin_name status =
    with_result (new_key namespace pod_name)
      λ r. do m ← put r.prebind plugin_name status; returns (record r { prebind = m })

unfoldable pub add_custom_result : String → String → String → String → Store → Run Store
unfolding with_result
add_custom_result namespace pod_name annotation_key text =
    with_result (new_key namespace pod_name) λ r. do
      m ← put r.custom_results annotation_key text
      returns (record r { custom_results = m })

unfoldable pub delete_data : String → String → Store → Store
delete_data namespace pod_name s = record s {
  results = delete s.results (new_key namespace pod_name);
}

-- The methods of the store, with their arguments after the pod's namespace and name.
pub data Call : Type 0 where
  filters : String → String → String → Call
  post_filters : String → String → List String → Call
  scores : String → String → ℤ → Call
  normalizes : String → String → ℤ → Call
  pre_filters : String → String → Option (List String) → Call
  pre_scores : String → String → Call
  permits : String → String → String → Call
  selects : String → Call
  reserves : String → String → Call
  binds : String → String → Call
  pre_binds : String → String → Call
  customs : String → String → Call
  deletes : Call

unfoldable pub step : String → String → Call → Store → Run Store
unfolding add_filter_result add_post_filter_result add_score_result add_normalized_score_result
    add_pre_filter_result add_pre_score_result add_permit_result add_selected_node
    add_reserve_result add_bind_result add_pre_bind_result add_custom_result delete_data
step ns pod (filters node plugin reason) s = add_filter_result ns pod node plugin reason s
step ns pod (post_filters node plugin nodes) s = add_post_filter_result ns pod node plugin nodes s
step ns pod (scores node plugin n) s = add_score_result ns pod node plugin n s
step ns pod (normalizes node plugin n) s = add_normalized_score_result ns pod node plugin n s
step ns pod (pre_filters plugin reason names) s = add_pre_filter_result ns pod plugin reason names s
step ns pod (pre_scores plugin reason) s = add_pre_score_result ns pod plugin reason s
step ns pod (permits plugin status timeout) s = add_permit_result ns pod plugin status timeout s
step ns pod (selects node) s = add_selected_node ns pod node s
step ns pod (reserves plugin status) s = add_reserve_result ns pod plugin status s
step ns pod (binds plugin status) s = add_bind_result ns pod plugin status s
step ns pod (pre_binds plugin status) s = add_pre_bind_result ns pod plugin status s
step ns pod (customs key text) s = add_custom_result ns pod key text s
step ns pod deletes s = returns (delete_data ns pod s)

-- A call on a pod: its namespace, its name and the method.
abbrev pub PodCall : Type 0
PodCall = String × String × Call

-- The calls of one scheduler, in the order in which they take the lock.
unfoldable pub run : List PodCall → Store → Run Store
run [] s = returns s
run ((ns, pod, c) ∷ calls) s = do next ← step ns pod c s; run calls next
