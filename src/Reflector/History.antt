-- ===== src/Reflector/History.antt =====
-- simulator/scheduler/storereflector/storereflector.go: updateResultHistory. The JSON functions on
-- lists of results, the size of a text in bytes and validation.TotalAnnotationSizeLimitB are
-- parameters.
use semvi_btp.Common.{
  ℕ, String, Option, none, some, List, [], ◌∷◌, ◌++◌, leb, if◌then◌else◌, Try, ok, err,
}
use semvi_btp.Common.GoMap.{get}
use semvi_btp.Common.Errors.{GoError, raised, message, wrapped}
use semvi_btp.Reflector.Defs.{Pod, results_history_annotation, annotate, with_annotations}

abbrev pub ResultSet : Type 0
ResultSet = List (String × String)

pub record Json (E : Type 0) : Type 0 where
  pub unmarshal_results : String → Try E (List ResultSet)
  pub marshal_results : List ResultSet → Try E String
  pub byte_size : String → ℕ
  pub total_annotation_size_limit : ℕ

module _ {E : Type 0} (json : Json E) where
  abbrev pub kept_or : Try E String → Try (GoError E) String → Try (GoError E) String
  kept_or (err e) rest = err (wrapped "encode all results" (raised e))
  kept_or (ok text) rest =
      if leb (json.byte_size text) json.total_annotation_size_limit then ok text else rest

  -- The loop that drops the oldest results.
  unfoldable pub trim_history : List ResultSet → Try (GoError E) String
  trim_history [] = err (
      message "result history still exceeds annotation limit even after removing several histories")
  trim_history (r ∷ rs) = let rest = trim_history rs in kept_or (json.marshal_results (r ∷ rs)) rest

  abbrev pub or_empty_array : Option String → String
  or_empty_array none = "[]"
  or_empty_array (some a) = a

  abbrev pub set_history :
      {R : Type 0} → Pod R → Try (GoError E) String → Pod R × Option (GoError E)
  set_history pod (ok text) =
      (with_annotations pod (annotate results_history_annotation text pod.annotations), none)
  set_history pod (err e) = (pod, some e)

  abbrev pub extend_history :
      {R : Type 0} → Pod R → ResultSet → Try E (List ResultSet) → Pod R × Option (GoError E)
  extend_history pod m (err e) = (pod, some (raised e))
  extend_history pod m (ok results) = set_history pod (trim_history (results ++ (m ∷ [])))

  unfoldable pub update_result_history :
      {R : Type 0} → Pod R → ResultSet → Pod R × Option (GoError E)
  unfolding trim_history
  update_result_history pod m =
      extend_history pod m
        (json.unmarshal_results (or_empty_array (get pod.annotations results_history_annotation)))
