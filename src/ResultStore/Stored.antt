-- ===== src/ResultStore/Stored.antt =====
-- `GetStoredResult` and the methods that it calls: the annotations of a pod.
-- The parameter `marshal` is `json.Marshal` at the types that the store gives it.
use semvi_btp.Common.{
  String, Option, none, some, List, [], ◌∷◌, Run, returns, ◌>>=◌, Try, ok, err, if◌then◌else◌,
}
use semvi_btp.Common.GoMap.{GoMap, nil_map, made, get, has, put, entries}
use Prim.Native.String.{◌++◌}
use semvi_btp.ResultStore.Annotation
use semvi_btp.ResultStore.Defs.{Key, Result, Store, new_key}

-- What the store marshals.
pub data Payload : Type 0 where
  texts : GoMap String → Payload
  text_lists : GoMap (List String) → Payload
  nested : GoMap (GoMap String) → Payload

-- if m == nil { m = map[...]...{} }
abbrev pub made_if_nil {ℓ} : {V : Type ℓ} → GoMap V → GoMap V
made_if_nil nil_map = made []
made_if_nil (made m) = made m

-- The annotations so far, the pod's result, and the error if there is one.
abbrev pub Filled : Type 0
Filled = GoMap String × Result × Option String

abbrev pub Fill : Type 0
Fill = GoMap String → Result → Run Filled

abbrev pub unless_failed : Fill → Filled → Run Filled
unless_failed g (anno, r, none) = g anno r
unless_failed g (anno, r, some e) = returns (anno, r, some e)

-- if err := f(); err != nil { return err }; g()
infixr 6 ◌then_fill◌
abbrev pub ◌then_fill◌ : Fill → Fill → Fill
◌then_fill◌ f g anno r = f anno r >>= unless_failed g

-- The rest of an `add...ToMap` method after `json.Marshal`.
abbrev pub write_marshalled :
    String → String → GoMap String → Result → Try String String → Run Filled
write_marshalled key message anno r (err e) = returns (anno, r, some (message ++ e))
write_marshalled key message anno r (ok text) = do a ← put anno key text; returns (a, r, none)

abbrev pub put_absent : String → String → GoMap String → Run (GoMap String)
put_absent key text anno = if has anno key then returns anno else put anno key text

-- The loop of `addCustomResultsToMap`.
unfoldable pub add_customs : List (String × String) → GoMap String → Run (GoMap String)
add_customs [] anno = returns anno
add_customs ((key, text) ∷ rest) anno = do a ← put_absent key text anno; add_customs rest a

unfoldable pub add_custom_results_to_map : Fill
unfolding add_customs
add_custom_results_to_map anno r = do
  a ← add_customs (entries r.custom_results) anno
  returns (a, r, none)

unfoldable pub add_selected_node_to_pod : Fill
add_selected_node_to_pod anno r = do
  a ← put_absent Annotation.selected_node_key r.selected_node anno
  returns (a, r, none)

module _ (marshal : Payload → Try String String) where
  -- The methods' common shape: nothing if the key is there; else the field, made if it was nil, is
  -- marshalled and written.
  unfoldable pub fill_json : String → String → (Result → Result) → (Result → Payload) → Fill
  fill_json key message make_field payload anno r =
      if has anno key
      then returns (anno, r, none)
      else let there = make_field r in
        write_marshalled key message anno there (marshal (payload there))

  unfoldable pub add_pre_filter_result_to_map : Fill
  add_pre_filter_result_to_map =
      fill_json Annotation.pre_filter_key "encode json to record preFilter result: "
        (λ r. record r { pre_filter_result = made_if_nil r.pre_filter_result })
        (λ r. text_lists r.pre_filter_result)
      then_fill fill_json Annotation.pre_filter_status_key
          "encode json to record preFilter status: "
          (λ r. record r { pre_filter_status = made_if_nil r.pre_filter_status })
          (λ r. texts r.pre_filter_status)

  unfoldable pub add_pre_score_result_to_map : Fill
  add_pre_score_result_to_map =
      fill_json Annotation.pre_score_key "encode json to record preScore status: "
        (λ r. record r { pre_score = made_if_nil r.pre_score }) (λ r. texts r.pre_score)

  unfoldable pub add_bind_result_to_map : Fill
  add_bind_result_to_map =
      fill_json Annotation.bind_key "encode json to record bind status: "
        (λ r. record r { bind = made_if_nil r.bind }) (λ r. texts r.bind)

  unfoldable pub add_pre_bind_result_to_map : Fill
  add_pre_bind_result_to_map =
      fill_json Annotation.pre_bind_key "encode json to record preBind status: "
        (λ r. record r { prebind = made_if_nil r.prebind }) (λ r. texts r.prebind)

  unfoldable pub add_reserve_result_to_map : Fill
  add_reserve_result_to_map =
      fill_json Annotation.reserve_key "encode json to record reserve status: "
        (λ r. record r { reserve = made_if_nil r.reserve }) (λ r. texts r.reserve)

  unfoldable pub add_permit_result_to_map : Fill
  add_permit_result_to_map =
      fill_json Annotation.permit_timeout_key "encode json to record permit timeout: "
        (λ r. record r { permit_timeout = made_if_nil r.permit_timeout })
        (λ r. texts r.permit_timeout)
      then_fill fill_json Annotation.permit_status_key "encode json to record permit status: "
          (λ r. record r { permit = made_if_nil r.permit }) (λ r. texts r.permit)

  unfoldable pub add_filter_result_to_map : Fill
  add_filter_result_to_map =
      fill_json Annotation.filter_key "encode json to record filter status: "
        (λ r. record r { filter = made_if_nil r.filter }) (λ r. nested r.filter)

  unfoldable pub add_post_filter_result_to_map : Fill
  add_post_filter_result_to_map =
      fill_json Annotation.post_filter_key "encode json to record post filter results: "
        (λ r. record r { post_filter = made_if_nil r.post_filter }) (λ r. nested r.post_filter)

  unfoldable pub add_score_result_to_map : Fill
  add_score_result_to_map =
      fill_json Annotation.score_key "encode json to record scores: "
        (λ r. record r { score = made_if_nil r.score }) (λ r. nested r.score)

  unfoldable pub add_final_score_result_to_map : Fill
  add_final_score_result_to_map =
      fill_json Annotation.final_score_key "encode json to record scores: "
        (λ r. record r { final_score = made_if_nil r.final_score }) (λ r. nested r.final_score)

  -- The body of `GetStoredResult` for a pod that has a result.
  unfoldable pub fill_all : Fill
  unfolding fill_json add_pre_filter_result_to_map add_filter_result_to_map
      add_post_filter_result_to_map add_pre_score_result_to_map add_score_result_to_map
      add_final_score_result_to_map add_reserve_result_to_map add_permit_result_to_map
      add_pre_bind_result_to_map add_bind_result_to_map add_custom_results_to_map
      add_selected_node_to_pod
  fill_all =
      add_pre_filter_result_to_map then_fill add_filter_result_to_map
      then_fill add_post_filter_result_to_map then_fill add_pre_score_result_to_map
      then_fill add_score_result_to_map then_fill add_final_score_result_to_map
      then_fill add_reserve_result_to_map then_fill add_permit_result_to_map
      then_fill add_pre_bind_result_to_map then_fill add_bind_result_to_map
      then_fill add_custom_results_to_map then_fill add_selected_node_to_pod

  -- An error is logged, and the annotations are dropped.
  abbrev pub stored_of : Key → Store → Filled → Run (GoMap String × Store)
  stored_of k s (anno, r, none) = do m ← put s.results k r; returns (anno, record s { results = m })
  stored_of k s (anno, r, some e) = do
    m ← put s.results k r
    returns (nil_map, record s { results = m })

  abbrev pub stored : Key → Store → Option Result → Run (GoMap String × Store)
  stored k s none = returns (nil_map, s)
  stored k s (some r) = fill_all (made []) r >>= stored_of k s

  -- The annotations of a pod, nil if there are none; the store is as its methods leave it.
  unfoldable pub get_stored_result : String → String → Store → Run (GoMap String × Store)
  unfolding fill_all
  get_stored_result namespace name s =
      let k = new_key namespace name in stored k s (get s.results k)
