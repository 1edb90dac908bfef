-- ===== src/Reflector/Trimmed.antt =====
-- The history that a pod keeps is the longest that fits.
use semvi_btp.Common.{
  ◌≡◌, refl, ap, subst, ℕ, ◌<◌, ◌≤◌, String, false, Option, none, some, List, [], ◌∷◌, ◌++◌, length,
  length-append, leb, leb→le, Bool-cases, Try, ok, err, arith, inl, inr,
}
use semvi_btp.Common.GoMap.{get}
use semvi_btp.Common.Errors.{GoError}
use mathlib.Core.List.{tail-eq_of_cons-eq}
use semvi_btp.Reflector.Defs.{Pod, results_history_annotation}
use semvi_btp.Reflector.Collected.{get-annotate_same}
use semvi_btp.Reflector.History.{
  ResultSet, Json, trim_history, or_empty_array, set_history, update_result_history,
}

-- leb's other side.
leb-false : (a b : ℕ) → leb a b ≡ false → b < a
leb-false a b h = ground arith

module _ {E : Type 0} (json : Json E) (encode : List ResultSet → String) where
  abbrev pub size : List ResultSet → ℕ
  size rs = json.byte_size (encode rs)

  -- The text of a part of the results, from some result to the newest, that fits, where every longer
  -- part does not.
  pub record IsLongestFit (results : List ResultSet) (text : String) : Type 0 where
    pub dropped : List ResultSet
    pub oldest : ResultSet
    pub newer : List ResultSet
    pub splits : results ≡ dropped ++ (oldest ∷ newer)
    pub is_text : text ≡ encode (oldest ∷ newer)
    pub fits : size (oldest ∷ newer) ≤ json.total_annotation_size_limit
    pub is_longest :
        (before after : List ResultSet)
        → results ≡ before ++ after
        → length (oldest ∷ newer) < length after
        → json.total_annotation_size_limit < size after

  -- No part of the results fits.
  abbrev pub NothingFits : List ResultSet → Type 0
  NothingFits results =
      (before after : List ResultSet)
      → results ≡ before ++ after
      → 0 < length after
      → json.total_annotation_size_limit < size after

  abbrev pub IsTrimmed : List ResultSet → Try (GoError E) String → Type 0
  IsTrimmed results (ok text) = IsLongestFit results text
  IsTrimmed results (err e) = NothingFits results

  -- What holds of the proper parts and of the whole holds of all parts.
  parts :
      (r : ResultSet) (rs before after : List ResultSet) (P : List ResultSet → Type 0)
      → r ∷ rs ≡ before ++ after
      → P (r ∷ rs)
      → ((shorter : List ResultSet) → rs ≡ shorter ++ after → P after)
      → P after
  parts r rs [] after P h whole proper = subst P h whole
  parts r rs (b ∷ before) after P h whole proper = proper before (tail-eq_of_cons-eq h)

  no_longer :
      (results before after : List ResultSet)
      → results ≡ before ++ after
      → length results < length after
      → ⊥
  no_longer results before after h longer =
      let e = ap length h in let l = length-append before after in omega (arith, e, l, longer)

  next-IsTrimmed :
      (r : ResultSet) (rs : List ResultSet) (t : Try (GoError E) String)
      → json.total_annotation_size_limit < size (r ∷ rs)
      → IsTrimmed rs t
      → IsTrimmed (r ∷ rs) t
  next-IsTrimmed r rs (ok text) big h = record {
    dropped = r ∷ h.dropped;
    oldest = h.oldest;
    newer = h.newer;
    splits = ap (λ x. r ∷ x) h.splits;
    is_text = h.is_text;
    fits = h.fits;
    is_longest = λ before after e longer.
        parts r rs before after (λ x. json.total_annotation_size_limit < size x) e big
          (λ shorter same. h.is_longest shorter after same longer);
  }
  next-IsTrimmed r rs (err e) big h = λ before after same some_left.
      parts r rs before after (λ x. json.total_annotation_size_limit < size x) same big
        (λ shorter less. h shorter after less some_left)

  trim_history-IsTrimmed :
      ((rs : List ResultSet) → json.marshal_results rs ≡ ok (encode rs))
      → (results : List ResultSet) → IsTrimmed results (trim_history json results)
  unfolding trim_history
  trim_history-IsTrimmed marshals [] =
      λ before after same some_left. absurd (no_longer [] before after same some_left)
  trim_history-IsTrimmed marshals (r ∷ rs) =
      elim (Bool-cases (leb (size (r ∷ rs)) json.total_annotation_size_limit)) [
        | inl e ↦
            rw (marshals (r ∷ rs), e)
              (record {
                dropped = [];
                oldest = r;
                newer = rs;
                splits = refl;
                is_text = refl;
                fits = leb→le (size (r ∷ rs)) json.total_annotation_size_limit e;
                is_longest = λ before after same longer.
                    absurd (no_longer (r ∷ rs) before after same longer);
              })
        | inr e ↦
            rw (marshals (r ∷ rs), e)
              (next-IsTrimmed r rs (trim_history json rs)
                (leb-false (size (r ∷ rs)) json.total_annotation_size_limit e)
                (trim_history-IsTrimmed marshals rs))
      ]

  -- After the call, the annotation holds the longest fitting part of these results, or nothing fits
  -- and the pod is as it was.
  abbrev pub IsExtended :
      {R : Type 0} → List ResultSet → Pod R → Pod R × Option (GoError E) → Type 0
  IsExtended results pod (after, none) =
      (text : String) × (get after.annotations results_history_annotation ≡ some text)
      × IsLongestFit results text
  IsExtended results pod (after, some e) = (after ≡ pod) × NothingFits results

  set_history-IsExtended :
      {R : Type 0} (results : List ResultSet) (pod : Pod R) (t : Try (GoError E) String)
      → IsTrimmed results t
      → IsExtended results pod (set_history json pod t)
  set_history-IsExtended results pod (ok text) h =
      (text, get-annotate_same results_history_annotation text pod.annotations, h)
  set_history-IsExtended results pod (err e) h = (refl, h)

  -- The history of a pod whose annotation holds `old` results, or none, becomes the old results and
  -- the new one without as few of the oldest as makes the text fit the limit: every part up to the
  -- newest that is longer does not fit. If no part fits, not even the new result alone, the call
  -- fails and the pod stays as it was. Marshalling is assumed not to fail.
  pub update_result_history-IsExtended :
      {R : Type 0} (pod : Pod R) (m : ResultSet) (old : List ResultSet)
      → ((rs : List ResultSet) → json.marshal_results rs ≡ ok (encode rs))
      → json.unmarshal_results
          (or_empty_array json (get pod.annotations results_history_annotation))
        ≡ ok old
      → IsExtended (old ++ (m ∷ [])) pod (update_result_history json pod m)
  unfolding update_result_history
  update_result_history-IsExtended pod m old marshals reads = rw reads (
      set_history-IsExtended (old ++ (m ∷ [])) pod (trim_history json (old ++ (m ∷ [])))
        (trim_history-IsTrimmed marshals (old ++ (m ∷ []))))
