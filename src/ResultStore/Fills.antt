-- ===== src/ResultStore/Fills.antt =====
-- The annotations of a result as one list of keys and texts, and methods that fill them in.
use semvi_btp.Common.{
  ◌≡◌, refl, String, Option, none, some, List, [], ◌∷◌, ◌++◌, inl, inr, returns, ok, arith,
  if◌then◌else◌, ◌==◌, eq_iff, Bool-cases,
}
use semvi_btp.Common.GoMap.{
  GoMap, nil_map, made, has, entries, lookup, insert, lookup-insert, IsMade, MadeOf,
}
use semvi_btp.ResultStore.Annotation
use semvi_btp.ResultStore.Defs.{Result}
use semvi_btp.ResultStore.Stored.{
  Payload, texts, text_lists, nested, made_if_nil, Fill, ◌then_fill◌, put_absent, add_customs,
  add_custom_results_to_map, add_selected_node_to_pod, fill_json,
}

abbrev Pairs : Type 0
Pairs = List (String × String)

-- The annotations of a result, the first of two with one key counting: the twelve marshalled
-- fields, the custom results, and the selected node.
abbrev pub annotations : (Payload → String) → Result → Pairs
annotations text r =
    (Annotation.pre_filter_key, text (text_lists r.pre_filter_result))
    ∷ (Annotation.pre_filter_status_key, text (texts r.pre_filter_status))
    ∷ (Annotation.filter_key, text (nested r.filter))
    ∷ (Annotation.post_filter_key, text (nested r.post_filter))
    ∷ (Annotation.pre_score_key, text (texts r.pre_score))
    ∷ (Annotation.score_key, text (nested r.score))
    ∷ (Annotation.final_score_key, text (nested r.final_score))
    ∷ (Annotation.reserve_key, text (texts r.reserve))
    ∷ (Annotation.permit_timeout_key, text (texts r.permit_timeout))
    ∷ (Annotation.permit_status_key, text (texts r.permit))
    ∷ (Annotation.pre_bind_key, text (texts r.prebind))
    ∷ (Annotation.bind_key, text (texts r.bind))
    ∷ (entries r.custom_results ++ (Annotation.selected_node_key, r.selected_node) ∷ [])

abbrev insert_absent : String → String → Pairs → Pairs
insert_absent k v l = if has (made l) k then l else insert k v l

abbrev pub absent_all : Pairs → Pairs → Pairs
absent_all [] l = l
absent_all ((k, v) ∷ ps) l = absent_all ps (insert_absent k v l)

abbrev pub first : Option String → Option String → Option String
first none o = o
first (some v) o = some v

lookup-insert_absent :
    (k j v : String) (l : Pairs)
    → lookup j (insert_absent k v l) ≡ first (lookup j l) (if k == j then some v else none)
lookup-insert_absent k j v l = ground (arith, eq_iff k j, lookup-insert k j v l)

lookup-absent_all :
    (j : String) (ps l : Pairs) → lookup j (absent_all ps l) ≡ first (lookup j l) (lookup j ps)
unfolding lookup
lookup-absent_all j [] l = ground arith
lookup-absent_all j ((k, v) ∷ ps) l =
    rw (lookup-absent_all j ps (insert_absent k v l))
      (rw (lookup-insert_absent k j v l) (ground arith))

pub lookup-absent_all_nil : (j : String) (ps : Pairs) → lookup j (absent_all ps []) ≡ lookup j ps
unfolding lookup
lookup-absent_all_nil j ps = lookup-absent_all j ps []

absent_all-append : (ps qs l : Pairs) → absent_all (ps ++ qs) l ≡ absent_all qs (absent_all ps l)
absent_all-append [] qs l = refl
absent_all-append ((k, v) ∷ ps) qs l = absent_all-append ps qs (insert_absent k v l)

-- A method that adds the pairs that are absent, and changes no result.
pub record Fills (ps : Pairs) (f : Fill) (r : Result) : Type 0 where
  pub at : (l : Pairs) → f (made l) r ≡ returns (made (absent_all ps l), r, none)

pub Fills-then :
    (ps qs : Pairs) (f g : Fill) (r : Result)
    → Fills ps f r
    → Fills qs g r
    → Fills (ps ++ qs) (f then_fill g) r
Fills-then ps qs f g r p q = record {
  at = λ l. rw (p.at l) (rw (absent_all-append ps qs l) (q.at (absent_all ps l)));
}

pub made_if_nil_lem {ℓ} : {V : Type ℓ} (m : GoMap V) → IsMade m → made_if_nil m ≡ m
made_if_nil_lem nil_map h = absurd h
made_if_nil_lem (made m) h = refl

pub MadeOf-IsMade : {V : Type 0} (P : V → Type 0) (m : GoMap V) → MadeOf P m → IsMade m
MadeOf-IsMade P nil_map h = h
MadeOf-IsMade P (made m) h = tt

module _ (text : Payload → String) where
  pub fill_json-Fills :
      (key message : String) (make_field : Result → Result) (payload : Result → Payload)
      (r : Result)
      → make_field r ≡ r
      → Fills
          ((key, text (payload r)) ∷ [])
          (fill_json (λ p. ok (text p)) key message make_field payload)
          r
  unfolding fill_json
  fill_json-Fills key message make_field payload r e = record {
    at = λ l. elim (Bool-cases (has (made l) key)) [ inl t ↦ rw t | inr t ↦ rw t (rw e) ];
  }

put_absent_made :
    (k v : String) (l : Pairs) → put_absent k v (made l) ≡ returns (made (insert_absent k v l))
put_absent_made k v l = ground arith

add_customs_made : (ps l : Pairs) → add_customs ps (made l) ≡ returns (made (absent_all ps l))
unfolding add_customs
add_customs_made [] l = refl
add_customs_made ((k, v) ∷ ps) l =
    rw (put_absent_made k v l) (add_customs_made ps (insert_absent k v l))

pub customs-Fills : (r : Result) → Fills (entries r.custom_results) add_custom_results_to_map r
unfolding add_custom_results_to_map
customs-Fills r = record { at = λ l. rw (add_customs_made (entries r.custom_results) l) }

pub selected-Fills :
    (r : Result)
    → Fills ((Annotation.selected_node_key, r.selected_node) ∷ []) add_selected_node_to_pod r
unfolding add_selected_node_to_pod
selected-Fills r = record {
  at = λ l. rw (put_absent_made Annotation.selected_node_key r.selected_node l);
}
