-- ===== src/ResultStore/Texts.antt =====
-- What the store reads back after a filter result, a score and a normalized score.
use semvi_btp.Common.{◌≡◌, refl, ap, subst, ◌∙◌, String, Option, returns, ◌>>=◌, Ensures}
use semvi_btp.Common.GoMap.{IsMade, MadeOf}
use semvi_btp.Common.Int.{ℤ, format_int}
use semvi_btp.ResultStore.Defs.{Key, Store, new_key, with_result}
use semvi_btp.ResultStore.Writes.{current}
use semvi_btp.ResultStore.Nodes.{text_at}
use semvi_btp.ResultStore.Safety.{
  IsSound, Kept, step-Kept, current-IsFine, field-Kept, record_at-MadeOf,
}
use semvi_btp.ResultStore.Calls.{
  Call, filters, scores, normalizes, step, record_at, add_filter_result, apply_weight_on_score,
  add_normalized_score_result, add_normalized_score_result_without_lock, add_score_result,
}
use semvi_btp.ResultStore.Recorded.{
  filter_text, score_text, final_text, with_text, without_scores, SameButScores, kept_field, write,
  record_step, IsSound-after, set_filter, set_score, set_final,
}

filters_as :
    (ns pod node plugin reason : String) (s : Store)
    → step ns pod (filters node plugin reason) s
      ≡ with_result
          (new_key ns pod)
          (write (new_key ns pod) node plugin reason (λ r. r.filter) set_filter (λ r m. refl))
          s
unfolding step add_filter_result
filters_as ns pod node plugin reason s = refl

normalizes_as :
    (ns pod node plugin : String) (score : ℤ) (s : Store)
    → step ns pod (normalizes node plugin score) s
      ≡ with_result
          (new_key ns pod)
          (write
            (new_key ns pod)
            node
            plugin
            (format_int (apply_weight_on_score s plugin score))
            (λ r. r.final_score)
            set_final
            (λ r m. refl))
          s
unfolding step add_normalized_score_result add_normalized_score_result_without_lock
normalizes_as ns pod node plugin score s = refl

-- AddFilterResult on a sound store does not panic and leaves a sound store, whose filter texts are
-- as before but for the pod, node and plugin of the call, where the text is the reason.
pub step-filters :
    (ns pod node plugin reason : String) (s : Store)
    → IsSound s
    → (t : Store) × (step ns pod (filters node plugin reason) s ≡ returns t)
      × IsSound t
      × ((j : Key) (n p : String)
          → filter_text t j n p
            ≡ with_text (filter_text s) (new_key ns pod) node plugin reason j n p)
step-filters ns pod node plugin reason s h =
    let k = new_key ns pod in
    let (t, q, w) =
      record_step k node plugin reason (λ r. r.filter) set_filter (λ r m. refl) s h
        (current-IsFine s k h).filter in
    let e = filters_as ns pod node plugin reason s ∙ q in
    (t, e, IsSound-after ns pod _ s t h e, w.texts)

-- AddNormalizedScoreResult on a sound store does not panic and leaves a sound store, whose final
-- scores are as before but for the pod, node and plugin of the call, where the text is the decimal
-- text of the score times the plugin's weight, as an int64.
pub step-normalizes :
    (ns pod node plugin : String) (score : ℤ) (s : Store)
    → IsSound s
    → (t : Store) × (step ns pod (normalizes node plugin score) s ≡ returns t)
      × IsSound t
      × ((j : Key) (n p : String)
          → final_text t j n p
            ≡ with_text
                (final_text s)
                (new_key ns pod)
                node
                plugin
                (format_int (apply_weight_on_score s plugin score))
                j
                n
                p)
step-normalizes ns pod node plugin score s h =
    let k = new_key ns pod in
    let (t, q, w) =
      record_step k node plugin (format_int (apply_weight_on_score s plugin score))
        (λ r. r.final_score) set_final (λ r m. refl) s h (current-IsFine s k h).final_score in
    let e = normalizes_as ns pod node plugin score s ∙ q in
    (t, e, IsSound-after ns pod _ s t h e, w.texts)

-- No method changes the weights.
pub step-weight :
    (ns pod : String) (c : Call) (s t : Store)
    → IsSound s
    → step ns pod c s ≡ returns t
    → t.score_plugin_weight ≡ s.score_plugin_weight
step-weight ns pod c s t h e =
    (subst (Ensures (Kept (new_key ns pod) s)) e (step-Kept ns pod c s h)).weight

-- A weighted score depends on the weights alone.
pub same_weight :
    (s t : Store) (plugin : String) (score : ℤ)
    → t.score_plugin_weight ≡ s.score_plugin_weight
    → apply_weight_on_score t plugin score ≡ apply_weight_on_score s plugin score
unfolding apply_weight_on_score
same_weight s t plugin score e =
    ap (λ w. apply_weight_on_score (record s { score_plugin_weight = w }) plugin score) e

scores_as :
    (ns pod node plugin : String) (score : ℤ) (s : Store)
    → step ns pod (scores node plugin score) s ≡ (
        with_result
          (new_key ns pod)
          (write
            (new_key ns pod)
            node
            plugin
            (format_int score)
            (λ r. r.score)
            set_score
            (λ r m. refl))
          s
        >>= λ t. step ns pod (normalizes node plugin score) t)
unfolding step add_score_result add_normalized_score_result
scores_as ns pod node plugin score s = refl

-- AddScoreResult on a sound store does not panic and leaves a sound store. It records the decimal
-- text of the score, and as the final score the decimal text of the score times the plugin's weight,
-- as an int64, both for the pod, node and plugin of the call; all other scores stay, and so do all
-- other fields of the pod's result, the results of the other pods and the weights.
pub step-scores :
    (ns pod node plugin : String) (score : ℤ) (s : Store)
    → IsSound s
    → (t : Store) × (step ns pod (scores node plugin score) s ≡ returns t)
      × IsSound t
      × ((j : Key) (n p : String)
          → (score_text t j n p
              ≡ with_text (score_text s) (new_key ns pod) node plugin (format_int score) j n p)
            × (final_text t j n p
                ≡ with_text
                    (final_text s)
                    (new_key ns pod)
                    node
                    plugin
                    (format_int (apply_weight_on_score s plugin score))
                    j
                    n
                    p))
      × SameButScores s t
step-scores ns pod node plugin score s h =
    let k = new_key ns pod in
    let (t, q, w) =
      record_step k node plugin (format_int score) (λ r. r.score) set_score (λ r m. refl) s h
        (current-IsFine s k h).score in
    let g : IsSound t =
      (subst (Ensures (Kept k s)) q (
        field-Kept k (MadeOf IsMade) (λ r. record_at node plugin (format_int score) r.score)
          set_score s h (λ r f. record_at-MadeOf node plugin (format_int score) r.score f.score)
          (λ r f g p. assumption))).sound in
    let (u, q', w') =
      record_step k node plugin (format_int (apply_weight_on_score t plugin score))
        (λ r. r.final_score) set_final (λ r m. refl) t g (current-IsFine t k g).final_score in
    let e =
      scores_as ns pod node plugin score s
      ∙ ap (λ x. x >>= λ t. step ns pod (normalizes node plugin score) t) q
      ∙ normalizes_as ns pod node plugin score t
      ∙ q' in
    (
      u,
      e,
      IsSound-after ns pod _ s u h e,
      λ j n p. (
        ap (λ x. text_at x n p)
              (kept_field k (λ r. r.score) t u (set_final (current t k) w'.wrote_to) refl w'.wrote
                j)
            ∙ w.texts j n p,
        w'.texts j n p
            ∙ ap
                (λ (o : Option String).
                  with_text (λ i n p. o) k node plugin
                    (format_int (apply_weight_on_score t plugin score)) j n p)
                (ap (λ x. text_at x n p)
                  (kept_field k (λ r. r.final_score) s t (set_score (current s k) w.wrote_to) refl
                    w.wrote j))
            ∙ ap (λ x. with_text (final_text s) k node plugin (format_int x) j n p)
                (same_weight s t plugin score w.wrote.weight),
      ),
      (
        λ j.
            kept_field k without_scores t u (set_final (current t k) w'.wrote_to) refl w'.wrote j
            ∙ kept_field k without_scores s t (set_score (current s k) w.wrote_to) refl w.wrote j,
        w'.wrote.weight ∙ w.wrote.weight,
      ),
    )
