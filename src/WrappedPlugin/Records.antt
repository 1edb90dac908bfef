-- ===== src/WrappedPlugin/Records.antt =====
-- What a wrapped plugin without extenders records, and that it answers as the original does.
use semvi_btp.Common.{
  ◌≡◌, refl, ap, ◌∙◌, String, true, ◌&&◌, Option, none, some, List, [], ◌∷◌, map, inl, inr, returns,
  ◌==◌, eq_refl, if◌then◌else◌, Bool-cases,
}
use semvi_btp.Common.Int.{format_int}
use semvi_btp.ResultStore.{Store, new_key}
use semvi_btp.ResultStore.Calls.{
  filters, scores, step, passed_filter_message, apply_weight_on_score,
}
use semvi_btp.ResultStore.Safety.{IsSound}
use semvi_btp.ResultStore.Recorded.{filter_text, score_text, final_text, with_text, SameButScores}
use semvi_btp.ResultStore.Texts.{step-filters, step-scores}
use semvi_btp.WrappedPlugin.Framework.{Framework}
use semvi_btp.WrappedPlugin.Action.{World, pure, original, record_call, ◌>>=◌}
use semvi_btp.WrappedPlugin.Plugin.{WrappedPlugin, ScorePlugin}
use semvi_btp.WrappedPlugin.Methods.Guards.{unless_refused, finish, message_or}
use semvi_btp.WrappedPlugin.Methods.Filtering.{filter, filter_by}
use semvi_btp.WrappedPlugin.Methods.Scoring.{score, score_by}
use semvi_btp.WrappedPlugin.Requests.{Request, filter_request, serve, invoke, discard}

abbrev pub or_text : Option String → Option String → Option String
or_text none b = b
or_text (some a) b = some a

module _ (K : Framework) (E : Type 0) where
  open K use {Pod, namespace, pod_name, NodeInfo, node_name, Status, is_success, NodeToStatusReader}

  abbrev pub key_of : Pod → String
  key_of pod = new_key (namespace pod) (pod_name pod)

  -- The text that Filter records for a status.
  abbrev pub filter_message : Status → String
  filter_message s = message_or K E passed_filter_message s

  filter_by_as :
      (w : WrappedPlugin K E) (pod : Pod) (n : NodeInfo) (f : Pod → NodeInfo → E → Status × E)
      → w.extenders.filter ≡ none
      → (e : E) (s t : Store)
      → let r = f pod n e in
        step
            (namespace pod)
            (pod_name pod)
            (filters (node_name n) w.original_name (filter_message r.0))
            s
          ≡ returns t
        → filter_by K E w pod n (some f) (record { env = e; store = s })
          ≡ returns (r.0, record { env = r.1; store = t })
  unfolding unless_refused finish ◌>>=◌ original record_call pure
  filter_by_as w pod n f h e s t q = rw (h, q) refl

  -- Filter of a wrapped plugin without a filter extender answers as the original does and leaves
  -- the environment as the original does. On a sound store it does not panic, the store stays sound,
  -- and the filter texts are as before but for the pod, the node and the plugin, where the text is
  -- the message of the original's status, or "passed" where it is a success.
  pub filter-records :
      (w : WrappedPlugin K E) (pod : Pod) (n : NodeInfo) (f : Pod → NodeInfo → E → Status × E)
      → w.originals.filter ≡ some f
      → w.extenders.filter ≡ none
      → (e : E) (s : Store) → IsSound s
      → let r = f pod n e in
        (t : Store) × (filter K E w pod n (record { env = e; store = s })
          ≡ returns (r.0, record { env = r.1; store = t }))
        × IsSound t
        × ((j node plugin : String)
            → filter_text t j node plugin
              ≡ with_text
                  (filter_text s)
                  (key_of pod)
                  (node_name n)
                  w.original_name
                  (filter_message r.0)
                  j
                  node
                  plugin)
  unfolding filter
  filter-records w pod n f h x e s g =
      let (t, q, sound, texts) =
        step-filters (namespace pod) (pod_name pod) (node_name n) w.original_name
          (filter_message (f pod n e).0) s g in
      (
        t,
        ap (λ o. filter_by K E w pod n o (record { env = e; store = s })) h
            ∙ filter_by_as w pod n f x e s t q,
        sound,
        texts,
      )

  -- The message of the last of the nodes that has the name.
  abbrev pub last_message : (NodeInfo → Status) → List NodeInfo → String → Option String
  last_message verdict [] node = none
  last_message verdict (n ∷ ns) node =
      or_text (last_message verdict ns node)
        (if node_name n == node then some (filter_message (verdict n)) else none)

  abbrev pub filter_all :
      WrappedPlugin K E → Pod → List NodeInfo → List (WrappedPlugin K E × Request K E)
  filter_all w pod nodes = map (λ n. (w, filter_request pod n)) nodes

  pub or_text_assoc : (a b c : Option String) → or_text a (or_text b c) ≡ or_text (or_text a b) c
  or_text_assoc none b c = refl
  or_text_assoc (some a) b c = refl

  serve_filter :
      (w : WrappedPlugin K E) (pod : Pod) (n : NodeInfo)
      (rest : List (WrappedPlugin K E × Request K E)) (world next : World E) (a : Status)
      → filter K E w pod n world ≡ returns (a, next)
      → serve K E ((w, filter_request pod n) ∷ rest) world ≡ serve K E rest next
  unfolding serve invoke discard ◌>>=◌ pure
  serve_filter w pod n rest world next a e = rw e refl

  -- A text that was recorded at the key and the plugin, read there.
  pub at_key :
      (k node n plugin text : String) (b : Option String)
      → (if (k == k) && ((node == n) && (plugin == plugin)) then some text else b)
        ≡ or_text (if node == n then some text else none) b
  at_key k node n plugin text b = elim (Bool-cases (node == n)) [
    | inl e ↦ rw (e, eq_refl k, eq_refl plugin) refl
    | inr e ↦ rw (e, eq_refl k) refl
  ]

  -- A scheduler that asks a wrapped plugin to filter one node after another leaves, for every node
  -- name, the message of the last node of that name, and what was there before where no node has it.
  -- The original's verdict on a node depends on the pod and the node alone, and there is no filter
  -- extender; the store is sound before, and no call panics.
  pub serve-filter_all :
      (w : WrappedPlugin K E) (pod : Pod) (f : Pod → NodeInfo → E → Status × E)
      (verdict : NodeInfo → Status)
      → w.originals.filter ≡ some f
      → w.extenders.filter ≡ none
      → ((n : NodeInfo) (e : E) → (f pod n e).0 ≡ verdict n)
      → (nodes : List NodeInfo) (e : E) (s : Store) → IsSound s
      → (r : World E) × (serve K E (filter_all w pod nodes) (record { env = e; store = s })
          ≡ returns (tt, r))
        × IsSound r.store
        × ((node : String)
            → filter_text r.store (key_of pod) node w.original_name
              ≡ or_text
                  (last_message verdict nodes node)
                  (filter_text s (key_of pod) node w.original_name))
  unfolding serve pure
  serve-filter_all w pod f verdict h x d [] e s g =
      (record { env = e; store = s }, refl, g, λ node. refl)
  serve-filter_all w pod f verdict h x d (n ∷ ns) e s g =
      let k = key_of pod in
      let (t, q, sound, texts) = filter-records w pod n f h x e s g in
      let (r, q', sound', texts') =
        serve-filter_all w pod f verdict h x d ns (f pod n e).1 t sound in
      (
        r,
        serve_filter w pod n (filter_all w pod ns) _ _ (f pod n e).0 q ∙ q',
        sound',
        λ node.
            let before = filter_text s k node w.original_name in
            texts' node
            ∙ ap (or_text (last_message verdict ns node)) (texts k node w.original_name)
            ∙ ap (or_text (last_message verdict ns node))
                (at_key k (node_name n) node w.original_name (filter_message (f pod n e).0) before)
            ∙ ap
                (λ v.
                  or_text (last_message verdict ns node) (
                    or_text (if node_name n == node then some (filter_message v) else none) before))
                (d n e)
            ∙ or_text_assoc (last_message verdict ns node) _ before,
      )

  score_by_as :
      (w : WrappedPlugin K E) (pod : Pod) (node : String) (p : ScorePlugin K E)
      → w.extenders.score ≡ none
      → (e : E) (s t : Store)
      → let r = p.score pod node e in
        is_success r.0.1 ≡ true
        → step (namespace pod) (pod_name pod) (scores node w.original_name r.0.0) s ≡ returns t
        → score_by K E w pod node (some p) (record { env = e; store = s })
          ≡ returns (r.0, record { env = r.1; store = t })
  unfolding unless_refused finish ◌>>=◌ original record_call pure
  score_by_as w pod node p h e s t b q = rw (h, b, q) refl

  -- Score of a wrapped plugin without a score extender, where the original returns a success,
  -- answers as the original does and leaves the environment as the original does. On a sound store
  -- it does not panic and the store stays sound. The score, and as the final score the score times
  -- the plugin's weight as an int64, are recorded for the pod, node and plugin, and nothing else: all
  -- other scores and final scores, all other fields of every pod's result, and the weights stay.
  pub score-records :
      (w : WrappedPlugin K E) (pod : Pod) (node : String) (p : ScorePlugin K E)
      → w.originals.score ≡ some p
      → w.extenders.score ≡ none
      → (e : E) (s : Store) → IsSound s
      → is_success (p.score pod node e).0.1 ≡ true
      → let r = p.score pod node e in
        (t : Store) × (score K E w pod node (record { env = e; store = s })
          ≡ returns (r.0, record { env = r.1; store = t }))
        × IsSound t
        × ((j n plugin : String)
            → (score_text t j n plugin
                ≡ with_text
                    (score_text s)
                    (key_of pod)
                    node
                    w.original_name
                    (format_int r.0.0)
                    j
                    n
                    plugin)
              × (final_text t j n plugin
                  ≡ with_text
                      (final_text s)
                      (key_of pod)
                      node
                      w.original_name
                      (format_int (apply_weight_on_score s w.original_name r.0.0))
                      j
                      n
                      plugin))
        × SameButScores s t
  unfolding score
  score-records w pod node p h x e s g b =
      let (t, q, sound, texts, rest) =
        step-scores (namespace pod) (pod_name pod) node w.original_name (p.score pod node e).0.0 s
          g in
      (
        t,
        ap (λ o. score_by K E w pod node o (record { env = e; store = s })) h
            ∙ score_by_as w pod node p x e s t b q,
        sound,
        texts,
        rest,
      )
