-- ===== src/ResultStore/Annotations.antt =====
-- What `GetStoredResult` returns.
use semvi_btp.Common.{◌≡◌, ap, String, some, [], ◌∷◌, returns, ok, arith, eq_iff}
use semvi_btp.Common.GoMap.{
  GoMap, nil_map, made, get, lookup, insert, lookup-insert, IsMade, Values-lookup,
}
use semvi_btp.Common.Int.{ℤ}
use semvi_btp.ResultStore.Annotation
use semvi_btp.ResultStore.Defs.{Key, Result, Store, new_key}
use semvi_btp.ResultStore.Safety.{IsFine, IsSound}
use semvi_btp.ResultStore.Writes.{view}
use semvi_btp.ResultStore.Stored.{
  Payload, texts, text_lists, nested, fill_all, get_stored_result, add_pre_filter_result_to_map,
  add_permit_result_to_map, add_filter_result_to_map, add_post_filter_result_to_map,
  add_pre_score_result_to_map, add_score_result_to_map, add_final_score_result_to_map,
  add_reserve_result_to_map, add_pre_bind_result_to_map, add_bind_result_to_map,
}
use semvi_btp.ResultStore.Fills.{
  annotations, absent_all, lookup-absent_all_nil, Fills, made_if_nil_lem, Fills-then, MadeOf-IsMade,
  fill_json-Fills, customs-Fills, selected-Fills,
}

module _ (text : Payload → String) (r : Result) (f : IsFine r) where
  pre_filter-Fills :
      Fills
        ((Annotation.pre_filter_key, text (text_lists r.pre_filter_result))
          ∷ (Annotation.pre_filter_status_key, text (texts r.pre_filter_status))
          ∷ [])
        (add_pre_filter_result_to_map (λ p. ok (text p)))
        r
  unfolding add_pre_filter_result_to_map
  pre_filter-Fills =
      Fills-then ((Annotation.pre_filter_key, text (text_lists r.pre_filter_result)) ∷ [])
        ((Annotation.pre_filter_status_key, text (texts r.pre_filter_status)) ∷ []) _ _ r
        (fill_json-Fills text Annotation.pre_filter_key _ _ (λ r. text_lists r.pre_filter_result) r
          (ap (λ m. record r { pre_filter_result = m })
            (made_if_nil_lem r.pre_filter_result f.pre_filter_result)))
        (fill_json-Fills text Annotation.pre_filter_status_key _ _ (λ r. texts r.pre_filter_status)
          r
          (ap (λ m. record r { pre_filter_status = m })
            (made_if_nil_lem r.pre_filter_status f.pre_filter_status)))

  permit-Fills :
      Fills
        ((Annotation.permit_timeout_key, text (texts r.permit_timeout))
          ∷ (Annotation.permit_status_key, text (texts r.permit))
          ∷ [])
        (add_permit_result_to_map (λ p. ok (text p)))
        r
  unfolding add_permit_result_to_map
  permit-Fills =
      Fills-then ((Annotation.permit_timeout_key, text (texts r.permit_timeout)) ∷ [])
        ((Annotation.permit_status_key, text (texts r.permit)) ∷ []) _ _ r
        (fill_json-Fills text Annotation.permit_timeout_key _ _ (λ r. texts r.permit_timeout) r
          (ap (λ m. record r { permit_timeout = m })
            (made_if_nil_lem r.permit_timeout f.permit_timeout)))
        (fill_json-Fills text Annotation.permit_status_key _ _ (λ r. texts r.permit) r
          (ap (λ m. record r { permit = m }) (made_if_nil_lem r.permit f.permit)))

  filter-Fills :
      Fills
        ((Annotation.filter_key, text (nested r.filter)) ∷ [])
        (add_filter_result_to_map (λ p. ok (text p)))
        r
  unfolding add_filter_result_to_map
  filter-Fills =
      fill_json-Fills text Annotation.filter_key _ _ (λ r. nested r.filter) r
        (ap (λ m. record r { filter = m })
          (made_if_nil_lem r.filter (MadeOf-IsMade IsMade r.filter f.filter)))

  post_filter-Fills :
      Fills
        ((Annotation.post_filter_key, text (nested r.post_filter)) ∷ [])
        (add_post_filter_result_to_map (λ p. ok (text p)))
        r
  unfolding add_post_filter_result_to_map
  post_filter-Fills =
      fill_json-Fills text Annotation.post_filter_key _ _ (λ r. nested r.post_filter) r
        (ap (λ m. record r { post_filter = m })
          (made_if_nil_lem r.post_filter (MadeOf-IsMade IsMade r.post_filter f.post_filter)))

  pre_score-Fills :
      Fills
        ((Annotation.pre_score_key, text (texts r.pre_score)) ∷ [])
        (add_pre_score_result_to_map (λ p. ok (text p)))
        r
  unfolding add_pre_score_result_to_map
  pre_score-Fills =
      fill_json-Fills text Annotation.pre_score_key _ _ (λ r. texts r.pre_score) r
        (ap (λ m. record r { pre_score = m }) (made_if_nil_lem r.pre_score f.pre_score))

  score-Fills :
      Fills
        ((Annotation.score_key, text (nested r.score)) ∷ [])
        (add_score_result_to_map (λ p. ok (text p)))
        r
  unfolding add_score_result_to_map
  score-Fills =
      fill_json-Fills text Annotation.score_key _ _ (λ r. nested r.score) r
        (ap (λ m. record r { score = m })
          (made_if_nil_lem r.score (MadeOf-IsMade IsMade r.score f.score)))

  final_score-Fills :
      Fills
        ((Annotation.final_score_key, text (nested r.final_score)) ∷ [])
        (add_final_score_result_to_map (λ p. ok (text p)))
        r
  unfolding add_final_score_result_to_map
  final_score-Fills =
      fill_json-Fills text Annotation.final_score_key _ _ (λ r. nested r.final_score) r
        (ap (λ m. record r { final_score = m })
          (made_if_nil_lem r.final_score (MadeOf-IsMade IsMade r.final_score f.final_score)))

  reserve-Fills :
      Fills
        ((Annotation.reserve_key, text (texts r.reserve)) ∷ [])
        (add_reserve_result_to_map (λ p. ok (text p)))
        r
  unfolding add_reserve_result_to_map
  reserve-Fills =
      fill_json-Fills text Annotation.reserve_key _ _ (λ r. texts r.reserve) r
        (ap (λ m. record r { reserve = m }) (made_if_nil_lem r.reserve f.reserve))

  pre_bind-Fills :
      Fills
        ((Annotation.pre_bind_key, text (texts r.prebind)) ∷ [])
        (add_pre_bind_result_to_map (λ p. ok (text p)))
        r
  unfolding add_pre_bind_result_to_map
  pre_bind-Fills =
      fill_json-Fills text Annotation.pre_bind_key _ _ (λ r. texts r.prebind) r
        (ap (λ m. record r { prebind = m }) (made_if_nil_lem r.prebind f.prebind))

  bind-Fills :
      Fills
        ((Annotation.bind_key, text (texts r.bind)) ∷ [])
        (add_bind_result_to_map (λ p. ok (text p)))
        r
  unfolding add_bind_result_to_map
  bind-Fills =
      fill_json-Fills text Annotation.bind_key _ _ (λ r. texts r.bind) r
        (ap (λ m. record r { bind = m }) (made_if_nil_lem r.bind f.bind))

  -- The chain of all methods.
  fill_all-Fills : Fills (annotations text r) (fill_all (λ p. ok (text p))) r
  unfolding fill_all
  fill_all-Fills = Fills-then _ _ _ _ r pre_filter-Fills (
      Fills-then _ _ _ _ r filter-Fills (
        Fills-then _ _ _ _ r post_filter-Fills (
          Fills-then _ _ _ _ r pre_score-Fills (
            Fills-then _ _ _ _ r score-Fills (
              Fills-then _ _ _ _ r final_score-Fills (
                Fills-then _ _ _ _ r reserve-Fills (
                  Fills-then _ _ _ _ r permit-Fills (
                    Fills-then _ _ _ _ r pre_bind-Fills (
                      Fills-then _ _ _ _ r bind-Fills
                        (Fills-then _ _ _ _ r (customs-Fills r) (selected-Fills r)))))))))))

stored_made :
    (text : Payload → String) (ns name : String) (w : GoMap ℤ) (m : GoMap Result) (r : Result)
    → let s : Store = record { results = m; score_plugin_weight = w } in
      IsSound s
      → view s (new_key ns name) ≡ some r
      → (anno : GoMap String) × (t : Store) × (get_stored_result (λ p. ok (text p)) ns name s
          ≡ returns (anno, t))
        × ((k : String) → get anno k ≡ lookup k (annotations text r))
        × ((j : Key) → view t j ≡ view s j)
stored_made text ns name w nil_map r h e = absurd h
stored_made text ns name w (made l) r h e =
    let k = new_key ns name in
    let fills = (fill_all-Fills text r (Values-lookup IsFine k l h e)).at [] in
    (
      made (absent_all (annotations text r) []),
      record { results = made (insert k r l); score_plugin_weight = w },
      unfold get_stored_result in rw e (rw fills),
      λ j. lookup-absent_all_nil j (annotations text r),
      λ j. rw (lookup-insert k j r l) (ground (arith, eq_iff k j)),
    )

-- The annotations of a pod that has a result: at every key, the first text of `annotations` there.
-- So the marshalled fields stand under their own keys whatever the custom results are, a custom
-- result stands under its key if no field does, and the selected node if no custom result does.
-- The store is left with the same results. Marshalling is assumed not to fail here.
pub get-get_stored_result :
    (text : Payload → String) (ns name : String) (s : Store) (r : Result)
    → IsSound s
    → view s (new_key ns name) ≡ some r
    → (anno : GoMap String) × (t : Store) × (get_stored_result (λ p. ok (text p)) ns name s
        ≡ returns (anno, t))
      × ((k : String) → get anno k ≡ lookup k (annotations text r))
      × ((j : Key) → view t j ≡ view s j)
get-get_stored_result text ns name s r h e =
    stored_made text ns name s.score_plugin_weight s.results r h e
