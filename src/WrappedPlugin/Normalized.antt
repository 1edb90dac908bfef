-- ===== src/WrappedPlugin/Normalized.antt =====
-- The final scores that NormalizeScore of a wrapped plugin records.
use semvi_btp.Common.{
  ◌≡◌, refl, ap, ◌∙◌, String, true, Option, none, some, [], ◌∷◌, returns, ◌==◌, if◌then◌else◌,
}
use semvi_btp.Common.Int.{ℤ, format_int}
use semvi_btp.ResultStore.{Store}
use semvi_btp.ResultStore.Calls.{normalizes, step, apply_weight_on_score}
use semvi_btp.ResultStore.Safety.{IsSound}
use semvi_btp.ResultStore.Recorded.{final_text}
use semvi_btp.ResultStore.Texts.{step-normalizes, step-weight, same_weight}
use semvi_btp.WrappedPlugin.Framework.{Framework}
use semvi_btp.WrappedPlugin.Action.{pure, original, record_call, ◌>>=◌}
use semvi_btp.WrappedPlugin.Plugin.{WrappedPlugin, NodeScoreList, Normalized}
use semvi_btp.WrappedPlugin.Methods.Guards.{finish}
use semvi_btp.WrappedPlugin.Methods.Scoring.{
  record_normalized, normalize_score, normalize_with, extensions,
}
use semvi_btp.WrappedPlugin.Records.{or_text, or_text_assoc, at_key, key_of}

-- The text of the last score of a node, weighted as in the store.
abbrev pub last_score : Store → String → NodeScoreList → String → Option String
last_score s plugin [] node = none
last_score s plugin ((n, score) ∷ rest) node =
    or_text (last_score s plugin rest node)
      (if n == node then some (format_int (apply_weight_on_score s plugin score)) else none)

last_score-weight :
    (s t : Store) (plugin node : String) (l : NodeScoreList)
    → t.score_plugin_weight ≡ s.score_plugin_weight
    → last_score t plugin l node ≡ last_score s plugin l node
last_score-weight s t plugin node [] e = refl
last_score-weight s t plugin node ((n, score) ∷ rest) e =
    ap
      (λ x.
        or_text x
          (if n == node then some (format_int (apply_weight_on_score t plugin score)) else none))
      (last_score-weight s t plugin node rest e)
    ∙ ap
        (λ x.
          or_text (last_score s plugin rest node) (if n == node then some (format_int x) else none))
        (same_weight s t plugin score e)

module _ (K : Framework) (E : Type 0) where
  open K use {Pod, namespace, pod_name, Status, is_success}

  record_normalized_cons :
      (pod : Pod) (plugin node : String) (score : ℤ) (rest : NodeScoreList) (e : E) (s t : Store)
      → step (namespace pod) (pod_name pod) (normalizes node plugin score) s ≡ returns t
      → record_normalized K E pod plugin ((node, score) ∷ rest) (record { env = e; store = s })
        ≡ record_normalized K E pod plugin rest (record { env = e; store = t })
  unfolding record_normalized ◌>>=◌ record_call
  record_normalized_cons pod plugin node score rest e s t q = rw q refl

  record_normalized_lem :
      (pod : Pod) (plugin : String) (l : NodeScoreList) (e : E) (s : Store)
      → IsSound s
      → (t : Store) × (record_normalized K E pod plugin l (record { env = e; store = s })
          ≡ returns (tt, record { env = e; store = t }))
        × IsSound t
        × ((node : String)
            → final_text t (key_of K E pod) node plugin
              ≡ or_text (last_score s plugin l node) (final_text s (key_of K E pod) node plugin))
  unfolding record_normalized pure
  record_normalized_lem pod plugin [] e s h = (s, refl, h, λ node. refl)
  record_normalized_lem pod plugin ((n, score) ∷ rest) e s h =
      let k = key_of K E pod in
      let (t, q, sound, texts) =
        step-normalizes (namespace pod) (pod_name pod) n plugin score s h in
      let (u, q', sound', texts') = record_normalized_lem pod plugin rest e t sound in
      let text = format_int (apply_weight_on_score s plugin score) in
      let weight = step-weight (namespace pod) (pod_name pod) (normalizes n plugin score) s t h q in
      (
        u,
        record_normalized_cons pod plugin n score rest e s t q ∙ q',
        sound',
        λ node.
            let before = final_text s k node plugin in
            texts' node
            ∙ ap (λ x. or_text x (final_text t k node plugin))
                (last_score-weight s t plugin node rest weight)
            ∙ ap (or_text (last_score s plugin rest node)) (texts k node plugin)
            ∙ ap (or_text (last_score s plugin rest node)) (at_key K E k n node plugin text before)
            ∙ or_text_assoc K E (last_score s plugin rest node)
                (if n == node then some text else none) before,
      )

  normalize_seen_as :
      (w : WrappedPlugin K E) (pod : Pod) (f : Pod → NodeScoreList → E → Normalized K E × E)
      (given : NodeScoreList)
      → w.extenders.normalize_score ≡ none
      → (e : E) (s t : Store)
      → let r = f pod given e in
        is_success r.0.0 ≡ true
        → record_normalized K E pod w.original_name r.0.1 (record { env = r.1; store = s })
          ≡ returns (tt, record { env = r.1; store = t })
        → normalize_with K E w pod (some f) given (record { env = e; store = s })
          ≡ returns (r.0, record { env = r.1; store = t })
  unfolding finish ◌>>=◌ original pure
  normalize_seen_as w pod f given h e s t b q = rw (h, b, q) refl

  -- NormalizeScore of a wrapped plugin without a normalize-score extender, where the original
  -- returns a success, answers as the original does and leaves the environment as it does. On a
  -- sound store it does not panic and the store stays sound. For every node the final score is the
  -- last normalized score of the node times the plugin's weight as an int64, and where the
  -- normalized list has none it is what it was.
  pub normalize_score-records :
      (w : WrappedPlugin K E) (pod : Pod) (given : NodeScoreList)
      (f : Pod → NodeScoreList → E → Normalized K E × E)
      → extensions K E w.originals.score ≡ some f
      → w.extenders.normalize_score ≡ none
      → (e : E) (s : Store) → IsSound s
      → is_success (f pod given e).0.0 ≡ true
      → let r = f pod given e in
        (t : Store) × (normalize_score K E w pod given (record { env = e; store = s })
          ≡ returns (r.0, record { env = r.1; store = t }))
        × IsSound t
        × ((node : String)
            → final_text t (key_of K E pod) node w.original_name
              ≡ or_text
                  (last_score s w.original_name r.0.1 node)
                  (final_text s (key_of K E pod) node w.original_name))
  unfolding normalize_score
  normalize_score-records w pod given f h x e s g b =
      let r = f pod given e in
      let (t, q, sound, texts) = record_normalized_lem pod w.original_name r.0.1 r.1 s g in
      (
        t,
        ap (λ o. normalize_with K E w pod o given (record { env = e; store = s })) h
            ∙ normalize_seen_as w pod f given x e s t b q,
        sound,
        texts,
      )
