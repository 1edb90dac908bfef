-- ===== src/ResultStore/Tests.antt =====
-- Sample calls of the result store.
use semvi_btp.Common.{
  ◌≢◌, ap, ◌≡◌, refl, String, true, some, List, [], ◌∷◌, returns, Ensures, ok, arith, ◌==◌, ◌&&◌,
  if◌then◌else◌,
}
use semvi_btp.Common.GoMap.{GoMap, nil_map, made, lookup, get}
use semvi_btp.Common.Int.{ℤ, pos, negsuc, format_int}
use semvi_btp.ResultStore.Defs.{Key, Result, Store, new, new_key, new_data}
use semvi_btp.ResultStore.Writes.{view}
use semvi_btp.ResultStore.Calls.{
  PodCall, step, run, filters, post_filters, scores, customs, deletes, apply_weight_on_score,
  delete_data,
}
use semvi_btp.ResultStore.Safety.{IsSound, Others, new-IsSound, run-IsSound, run-Others}
use semvi_btp.ResultStore.Recorded.{filter_text, score_text, final_text, with_text, SameButScores}
use semvi_btp.ResultStore.Nominations.{post_filter_text, has_post_filter, listed, step-post_filters}
use semvi_btp.ResultStore.Texts.{step-filters, step-scores}
use semvi_btp.ResultStore.Stored.{Payload, texts, text_lists, nested, get_stored_result}
use semvi_btp.ResultStore.Keys.{slash, new_key-injective}
use Prim.Native.Char.{Char, code}
use semvi_btp.ResultStore.Deleted.{get_stored_result-delete_data}
use semvi_btp.ResultStore.Fills.{annotations}
use semvi_btp.ResultStore.Annotations.{get-get_stored_result}

abbrev weights : GoMap ℤ
weights = made (("NodeResourcesFit", pos 2) ∷ [])

abbrev fresh : Store
fresh = new weights

abbrev sample_calls : List PodCall
sample_calls =
    ("default", "pod1", filters "node1" "NodeResourcesFit" "passed")
    ∷ ("default", "pod1", scores "node1" "NodeResourcesFit" (pos 30))
    ∷ ("default", "pod2", post_filters "node2" "DefaultPreemption" ("node1" ∷ "node2" ∷ []))
    ∷ ("default", "pod1", deletes)
    ∷ ("default", "pod1", customs "key" "text")
    ∷ []

final_score_runs : format_int (apply_weight_on_score fresh "NodeResourcesFit" (negsuc 29)) ≡ "-60"
unfolding new format_int apply_weight_on_score lookup
final_score_runs = refl

run-IsSound_example : Ensures IsSound (run sample_calls fresh)
run-IsSound_example = run-IsSound sample_calls fresh (new-IsSound weights)

Others-hold : Others "default/pod3" sample_calls
unfolding new_key
Others-hold = (refl, (refl, (refl, (refl, (refl, tt)))))

run-Others_example :
    Ensures (λ t. view t "default/pod3" ≡ view fresh "default/pod3") (run sample_calls fresh)
run-Others_example = run-Others "default/pod3" sample_calls fresh (new-IsSound weights) Others-hold

step-filters_example :
    (t : Store) × (step "default" "pod1" (filters "node1" "NodeName" "passed") fresh ≡ returns t)
    × IsSound t
    × ((j : Key) (n p : String)
        → filter_text t j n p
          ≡ with_text
              (filter_text fresh)
              (new_key "default" "pod1")
              "node1"
              "NodeName"
              "passed"
              j
              n
              p)
step-filters_example =
    step-filters "default" "pod1" "node1" "NodeName" "passed" fresh (new-IsSound weights)

step-scores_example :
    (t : Store) × (step "default" "pod1" (scores "node1" "NodeResourcesFit" (pos 50)) fresh
      ≡ returns t)
    × IsSound t
    × ((j : Key) (n p : String)
        → (score_text t j n p
            ≡ with_text
                (score_text fresh)
                (new_key "default" "pod1")
                "node1"
                "NodeResourcesFit"
                (format_int (pos 50))
                j
                n
                p)
          × (final_text t j n p
              ≡ with_text
                  (final_text fresh)
                  (new_key "default" "pod1")
                  "node1"
                  "NodeResourcesFit"
                  (format_int (apply_weight_on_score fresh "NodeResourcesFit" (pos 50)))
                  j
                  n
                  p))
    × SameButScores fresh t
step-scores_example =
    step-scores "default" "pod1" "node1" "NodeResourcesFit" (pos 50) fresh (new-IsSound weights)

abbrev three_nodes : List String
three_nodes = "node1" ∷ "node2" ∷ "node3" ∷ []

step-post_filters_example :
    (t : Store) × (step "default" "pod1"
        (post_filters "node2" "DefaultPreemption" three_nodes)
        fresh
      ≡ returns t)
    × IsSound t
    × ((j : Key) (n p : String)
        → post_filter_text t j n p ≡ (
            if (new_key "default" "pod1" == j)
              && (listed n three_nodes && (("node2" == n) && ("DefaultPreemption" == p)))
            then some "preemption victim"
            else post_filter_text fresh j n p))
    × ((j : Key) (n : String)
        → has_post_filter t j n ≡ (
            if (new_key "default" "pod1" == j) && listed n three_nodes
            then true
            else has_post_filter fresh j n))
step-post_filters_example =
    step-post_filters "default" "pod1" "node2" "DefaultPreemption" three_nodes fresh
      (new-IsSound weights)

-- A pod with a custom result.
abbrev recorded : Result
recorded = record new_data { custom_results = made (("key", "text") ∷ []); selected_node = "node1" }

abbrev filled : Store
filled = record { results = made (("default/pod1", recorded) ∷ []); score_plugin_weight = weights }

abbrev text_of : Payload → String
text_of (texts m) = "texts"
text_of (text_lists m) = "lists"
text_of (nested m) = "nested"

filled-IsSound : IsSound filled
unfolding new_data
filled-IsSound = omega arith

view-filled : view filled (new_key "default" "pod1") ≡ some recorded
unfolding new_key lookup
view-filled = refl

get-get_stored_result_example :
    (anno : GoMap String) × (t : Store) × (get_stored_result
        (λ p. ok (text_of p))
        "default"
        "pod1"
        filled
      ≡ returns (anno, t))
    × ((k : String) → get anno k ≡ lookup k (annotations text_of recorded))
    × ((j : Key) → view t j ≡ view filled j)
get-get_stored_result_example =
    get-get_stored_result text_of "default" "pod1" filled recorded filled-IsSound view-filled

get_stored_result-delete_data_example :
    get_stored_result (λ p. ok (text_of p)) "default" "pod1" (delete_data "default" "pod1" filled)
    ≡ returns (nil_map, delete_data "default" "pod1" filled)
get_stored_result-delete_data_example =
    get_stored_result-delete_data (λ p. ok (text_of p)) "default" "pod1" filled

n_no_slash : ◌≢◌ {A = Char} "n" slash
n_no_slash e = let q = ap code e in omega arith

s_no_slash : ◌≢◌ {A = Char} "s" slash
s_no_slash e = let q = ap code e in omega arith

new_key-injective_example : ◌≡◌ {A = String} "ns" "ns" × ◌≡◌ {A = String} "pod1" "pod1"
new_key-injective_example =
    new_key-injective "ns" "ns" "pod1" "pod1" (n_no_slash, (s_no_slash, tt))
      (n_no_slash, (s_no_slash, tt)) refl
