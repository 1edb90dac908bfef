-- ===== src/ResultStore/Nominations.antt =====
-- What AddPostFilterResult leaves: an entry for each of the nodes, and the nomination of one.
use semvi_btp.Common.{
  ◌≡◌, refl, String, Bool, true, false, ◌&&◌, Option, some, List, [], ◌∷◌, inl, inr, returns, ◌==◌,
  eq_iff, arith, if◌then◌else◌, Bool-cases,
}
use semvi_btp.Common.GoMap.{GoMap, has, IsMade, MadeOf}
use semvi_btp.ResultStore.Defs.{Key, Store, new_key}
use semvi_btp.ResultStore.Writes.{current, with_result-Wrote}
use semvi_btp.ResultStore.Nodes.{text_at, ensure_node-HasNode, put_at-WroteAt}
use semvi_btp.ResultStore.Calls.{
  post_filters, step, post_filter_nodes, post_filter_nominated_message, add_post_filter_result,
}
use semvi_btp.ResultStore.Safety.{IsSound, current-IsFine, IsSound-IsMade}
use semvi_btp.ResultStore.Recorded.{current-Wrote, IsSound-after}

abbrev pub post_filter_text : Store → Key → String → String → Option String
post_filter_text s k node plugin = text_at (current s k).post_filter node plugin

-- The pod's result has an entry for the node, with or without a text.
abbrev pub has_post_filter : Store → Key → String → Bool
has_post_filter s k node = has (current s k).post_filter node

-- One of the names is the node.
abbrev pub listed : String → List String → Bool
listed node [] = false
listed node (n ∷ ns) = if n == node then true else listed node ns

-- The map after the loop over the names.
record Nominates (nominated plugin : String) (names : List String) (m t : GoMap (GoMap String))
    : Type 0 where
  pub texts :
      (n p : String)
      → text_at t n p ≡ (
          if listed n names && ((nominated == n) && (plugin == p))
          then some "preemption victim"
          else text_at m n p)
  pub nodes : (n : String) → has t n ≡ (if listed n names then true else has m n)

post_filter_nodes-Nominates :
    (nominated plugin : String) (names : List String) (m : GoMap (GoMap String))
    → MadeOf IsMade m
    → (t : GoMap (GoMap String)) × (post_filter_nodes nominated plugin names m ≡ returns t)
      × Nominates nominated plugin names m t
unfolding post_filter_nodes
post_filter_nodes-Nominates nominated plugin [] m h =
    (m, refl, record { texts = λ n p. refl; nodes = λ n. refl })
post_filter_nodes-Nominates nominated plugin (name ∷ names) m h =
    let (t, e, there) = ensure_node-HasNode name m h in
    let (u, q, wrote) =
      put_at-WroteAt name plugin post_filter_nominated_message t there.still_made there.there in
    elim (Bool-cases (name == nominated)) [
      | inl hit ↦
          let (v, r, later) =
            post_filter_nodes-Nominates nominated plugin names u wrote.still_made in
          (
            v,
            rw (e, hit, q) r,
            record {
              texts = λ n p. ground (
                arith,
                later.texts n p,
                wrote.texts n p,
                there.texts n p,
                eq_iff name nominated,
                eq_iff name n,
                eq_iff nominated n,
              );
              nodes = λ n. ground (arith, later.nodes n, wrote.nodes n, there.nodes n);
            },
          )
      | inr miss ↦
          let (v, r, later) =
            post_filter_nodes-Nominates nominated plugin names t there.still_made in
          (
            v,
            rw (e, miss) r,
            record {
              texts = λ n p. ground (
                arith,
                later.texts n p,
                there.texts n p,
                eq_iff name nominated,
                eq_iff name n,
                eq_iff nominated n,
              );
              nodes = λ n. ground (arith, later.nodes n, there.nodes n);
            },
          )
    ]

-- AddPostFilterResult on a sound store does not panic and leaves a sound store. For the pod, the
-- plugin and the nominated node, if that is among the nodes of the call, the text is that of a
-- preemption victim; all other texts of post-filters stay. Each of the nodes has an entry for the
-- pod, with a text or not, and no other node gets one.
pub step-post_filters :
    (ns pod nominated plugin : String) (names : List String) (s : Store)
    → IsSound s
    → let k = new_key ns pod in
      (t : Store) × (step ns pod (post_filters nominated plugin names) s ≡ returns t)
      × IsSound t
      × ((j : Key) (n p : String)
          → post_filter_text t j n p ≡ (
              if (k == j) && (listed n names && ((nominated == n) && (plugin == p)))
              then some "preemption victim"
              else post_filter_text s j n p))
      × ((j : Key) (n : String)
          → has_post_filter t j n
            ≡ (if (k == j) && listed n names then true else has_post_filter s j n))
unfolding step add_post_filter_result
step-post_filters ns pod nominated plugin names s h =
    let k = new_key ns pod in
    let old = current s k in
    let (m, e, after) =
      post_filter_nodes-Nominates nominated plugin names old.post_filter
        (current-IsFine s k h).post_filter in
    let (t, q, w) =
      with_result-Wrote k _ s (record old { post_filter = m }) (IsSound-IsMade s.results h)
        (rw e refl) in
    let now = λ (j : Key). current-Wrote k j (record old { post_filter = m }) s t w in
    (
      t,
      q,
      IsSound-after ns pod (post_filters nominated plugin names) s t h q,
      λ j n p. elim (Bool-cases (k == j)) [
        | inl hit ↦ ground (arith, now j, after.texts n p, (eq_iff k j).0 hit)
        | inr miss ↦ ground (arith, now j)
      ],
      λ j n. elim (Bool-cases (k == j)) [
        | inl hit ↦ ground (arith, now j, after.nodes n, (eq_iff k j).0 hit)
        | inr miss ↦ ground (arith, now j)
      ],
    )
