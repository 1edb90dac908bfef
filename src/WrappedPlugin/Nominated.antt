-- ===== src/WrappedPlugin/Nominated.antt =====
-- PostFilter of a wrapped plugin without an extender: it reads the nominated node of the original's
-- result, which may be nil.
use semvi_btp.Common.{
  ◌≡◌, refl, ap, ◌∙◌, String, true, Option, none, some, ◌⊎◌, inl, inr, returns, panics, Bool-cases,
  Ensures, subst, ◌&&◌, ◌==◌, if◌then◌else◌,
}
use semvi_btp.ResultStore.{Store}
use semvi_btp.ResultStore.Calls.{post_filters, step}
use semvi_btp.ResultStore.Safety.{IsSound, Kept, step-Kept}
use semvi_btp.ResultStore.Nominations.{post_filter_text, listed, step-post_filters}
use semvi_btp.WrappedPlugin.Framework.{Framework}
use semvi_btp.WrappedPlugin.Action.{World, pure, original, record_call, ◌>>=◌}
use semvi_btp.WrappedPlugin.Plugin.{WrappedPlugin, PostFiltered}
use semvi_btp.WrappedPlugin.Methods.Guards.{unless_refused, finish}
use semvi_btp.WrappedPlugin.Methods.Filtering.{nominated, node_names, post_filter, post_filter_by}
use semvi_btp.WrappedPlugin.Records.{key_of}

module _ (K : Framework) (E : Type 0) where
  open K use {
    Pod, namespace, pod_name, Status, is_success, NodeToStatusReader, explicit_nodes,
    nominated_node_name, PostFilterResult,
  }

  -- A nil result with a status that is a success.
  abbrev pub IsNilSuccess : PostFiltered K E → Type 0
  IsNilSuccess r = (r.0 ≡ none) × (is_success r.1 ≡ true)

  -- The node that a result nominates, empty without a success.
  abbrev pub nominee : PostFiltered K E → String
  nominee (none, status) = ""
  nominee (some r, status) = if is_success status then nominated_node_name r else ""

  -- Either the result is nil with a success, or there is a text to record as the nominated node.
  nominated-cases :
      (r : PostFiltered K E)
      → IsNilSuccess r
        ⊎ ((IsNilSuccess r → ⊥) × ((v : World E) → nominated K E r v ≡ returns (nominee r, v)))
  unfolding pure
  nominated-cases (none, status) = elim (Bool-cases (is_success status)) [
    | inl h ↦ inl (refl, h)
    | inr h ↦ inr (λ p. absurd cc, λ v. rw h refl)
  ]
  nominated-cases (some r, status) = elim (Bool-cases (is_success status)) [
    | inl h ↦ inr (λ p. absurd cc, λ v. rw h refl)
    | inr h ↦ inr (λ p. absurd cc, λ v. rw h refl)
  ]

  module _ (w : WrappedPlugin K E) (pod : Pod) (statuses : NodeToStatusReader)
      (f : Pod → NodeToStatusReader → E → PostFiltered K E × E)
      (alone : w.extenders.post_filter ≡ none) (e : E) (s : Store) where
    post_filter_by_nil :
        (status : Status) (after : E)
        → f pod statuses e ≡ ((none, status), after)
        → is_success status ≡ true
        → post_filter_by K E w pod statuses (some f) (record { env = e; store = s }) ≡ panics
    unfolding unless_refused finish ◌>>=◌ original
    post_filter_by_nil status after q b = rw (alone, q, b) refl

    post_filter_by_named :
        (t : Store)
        → let r = f pod statuses e in
          ((v : World E) → nominated K E r.0 v ≡ returns (nominee r.0, v))
          → step
              (namespace pod)
              (pod_name pod)
              (post_filters
                (nominee r.0)
                w.original_name
                (node_names K E (explicit_nodes statuses)))
              s
            ≡ returns t
          → post_filter_by K E w pod statuses (some f) (record { env = e; store = s })
            ≡ returns (r.0, record { env = r.1; store = t })
    unfolding unless_refused finish ◌>>=◌ original record_call pure
    post_filter_by_named t n q = rw (alone, n, q) refl

  -- PostFilter of a wrapped plugin without a post-filter extender, on a sound store: it panics if the
  -- original returns a nil result with a status that is a success, and else it does not, answers as
  -- the original does, and leaves the environment as the original does. The store is then sound, has
  -- the same weights, and the same results of all other pods. Its post-filter texts are as before but
  -- for the pod, the plugin and the node that the original nominates with a success, if it is among
  -- the nodes that the statuses name: there the text is that of a preemption victim.
  pub post_filter-cases :
      (w : WrappedPlugin K E) (pod : Pod) (statuses : NodeToStatusReader)
      (f : Pod → NodeToStatusReader → E → PostFiltered K E × E)
      → w.originals.post_filter ≡ some f
      → w.extenders.post_filter ≡ none
      → (e : E) (s : Store) → IsSound s
      → let r = f pod statuses e in
        let answer = post_filter K E w pod statuses (record { env = e; store = s }) in
        ((r.0.0 ≡ none) × (is_success r.0.1 ≡ true) × (answer ≡ panics))
        ⊎ (((r.0.0 ≡ none) × (is_success r.0.1 ≡ true) → ⊥)
            × (t : Store) × (answer ≡ returns (r.0, record { env = r.1; store = t }))
            × Kept (key_of K E pod) s t
            × ((j n plugin : String)
                → post_filter_text t j n plugin ≡ (
                    if (key_of K E pod == j)
                      && (listed n (node_names K E (explicit_nodes statuses))
                          && ((nominee r.0 == n) && (w.original_name == plugin)))
                    then some "preemption victim"
                    else post_filter_text s j n plugin)))
  unfolding post_filter
  post_filter-cases w pod statuses f h alone e s g =
      let by = λ (o : Option (Pod → NodeToStatusReader → E → PostFiltered K E × E)).
        post_filter_by K E w pod statuses o (record { env = e; store = s }) in
      let r = f pod statuses e in
      elim (nominated-cases r.0) [
        | inl (nil, success) ↦ inl (
          nil,
          success,
          ap by h
              ∙ post_filter_by_nil w pod statuses f alone e s r.0.1 r.1
                  (ap (λ (x : Option PostFilterResult). ((x, r.0.1), r.1)) nil) success,
        )
        | inr (other, named) ↦
            let nodes = node_names K E (explicit_nodes statuses) in
            let (t, q, sound, texts, entries) =
              step-post_filters (namespace pod) (pod_name pod) (nominee r.0) w.original_name nodes s
                g in
            let c = post_filters (nominee r.0) w.original_name nodes in
            let kept : Kept (key_of K E pod) s t =
              subst (Ensures (Kept (key_of K E pod) s)) q
                (step-Kept (namespace pod) (pod_name pod) c s g) in
            inr (
              other,
              t,
              ap by h ∙ post_filter_by_named w pod statuses f alone e s t named q,
              kept,
              texts,
            )
      ]
