-- ===== src/ResultStore/Defs.antt =====
-- The state of the store: `result`, `Store`, `key`, and the step that every method begins with.
use semvi_btp.Common.{
  ◌≡◌, refl, String, none, some, List, [], Run, returns, panics, ◌>>=◌, if◌then◌else◌,
}
use semvi_btp.Common.GoMap.{GoMap, made, get, has, put}
use semvi_btp.Common.Int.{ℤ}
use Prim.Native.String.{◌++◌}

-- result
pub record Result : Type 0 where
  pub selected_node : String
  pub pre_score : GoMap String
  pub score : GoMap (GoMap String)
  pub final_score : GoMap (GoMap String)
  pub pre_filter_status : GoMap String
  pub pre_filter_result : GoMap (List String)
  pub filter : GoMap (GoMap String)
  pub post_filter : GoMap (GoMap String)
  pub permit : GoMap String
  pub permit_timeout : GoMap String
  pub reserve : GoMap String
  pub prebind : GoMap String
  pub bind : GoMap String
  pub custom_results : GoMap String

-- Store, without its lock
pub record Store : Type 0 where
  pub results : GoMap Result
  pub score_plugin_weight : GoMap ℤ

abbrev pub Key : Type 0
Key = String

unfoldable pub new : GoMap ℤ → Store
new weight = record { results = made []; score_plugin_weight = weight }

unfoldable pub new_key : String → String → Key
new_key namespace pod_name = (namespace ++ "/") ++ pod_name

unfoldable pub new_data : Result
new_data = record {
  selected_node = "";
  pre_score = made [];
  score = made [];
  final_score = made [];
  pre_filter_status = made [];
  pre_filter_result = made [];
  filter = made [];
  post_filter = made [];
  permit = made [];
  permit_timeout = made [];
  reserve = made [];
  prebind = made [];
  bind = made [];
  custom_results = made [];
}

-- if _, ok := s.results[k]; !ok { s.results[k] = newData() }
unfoldable pub ensure : Key → Store → Run Store
ensure k s =
    if has s.results k
    then returns s
    else do m ← put s.results k new_data; returns (record s { results = m })

-- *s.results[k], which panics on a missing key: the pointer is nil
unfoldable pub deref : Key → Store → Run Result
deref k s = elim (get s.results k) [ none ↦ panics | some r ↦ returns r ]

-- The methods' common shape: create the pod's result if it is missing, then write to its fields.
unfoldable pub with_result : Key → (Result → Run Result) → Store → Run Store
unfolding ensure deref
with_result k write s = do
  made_store ← ensure k s
  r ← deref k made_store
  written ← write r
  m ← put made_store.results k written
  returns (record made_store { results = m })

pub sample_key : new_key "default" "pod1" ≡ "default/pod1"
unfolding new_key
sample_key = refl
