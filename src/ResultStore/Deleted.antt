-- ===== src/ResultStore/Deleted.antt =====
-- Reads of a pod after DeleteData.
use semvi_btp.Common.{◌≡◌, refl, String, returns, Try, eq_refl}
use semvi_btp.Common.GoMap.{GoMap, nil_map, made, lookup, lookup-without}
use semvi_btp.Common.Int.{ℤ}
use semvi_btp.ResultStore.Defs.{Result, Store, new_key}
use semvi_btp.ResultStore.Calls.{delete_data}
use semvi_btp.ResultStore.Stored.{Payload, get_stored_result}

deleted :
    (marshal : Payload → Try String String) (ns name : String) (w : GoMap ℤ) (m : GoMap Result)
    → let s : Store = record { results = m; score_plugin_weight = w } in
      let t = delete_data ns name s in get_stored_result marshal ns name t ≡ returns (nil_map, t)
unfolding get_stored_result delete_data
deleted marshal ns name w nil_map = unfold lookup in refl
deleted marshal ns name w (made l) =
    rw (lookup-without (new_key ns name) (new_key ns name) l) (rw (eq_refl (new_key ns name)) refl)

-- After DeleteData of a pod GetStoredResult of the pod finds no annotations and changes nothing,
-- whatever marshalling does.
pub get_stored_result-delete_data :
    (marshal : Payload → Try String String) (ns name : String) (s : Store)
    → get_stored_result marshal ns name (delete_data ns name s)
      ≡ returns (nil_map, delete_data ns name s)
get_stored_result-delete_data marshal ns name s =
    deleted marshal ns name s.score_plugin_weight s.results
