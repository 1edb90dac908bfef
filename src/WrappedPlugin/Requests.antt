-- ===== src/WrappedPlugin/Requests.antt =====
-- Sequences of calls of the scheduler on wrapped plugins that share the result store.
use semvi_btp.Common.{String, List, [], ◌∷◌, Ensures, All}
use semvi_btp.WrappedPlugin.Framework.{Framework}
use semvi_btp.WrappedPlugin.Action.{World, Action, pure, ◌>>=◌, ◌>>◌}
use semvi_btp.WrappedPlugin.Plugin.{WrappedPlugin, NodeScoreList}
use semvi_btp.WrappedPlugin.Methods.Filtering.{pre_enqueue, pre_filter, filter, post_filter}
use semvi_btp.WrappedPlugin.Methods.Scoring.{score, normalize_score, pre_score}
use semvi_btp.WrappedPlugin.Methods.Binding.{permit, reserve, unreserve, pre_bind, bind, post_bind}
use semvi_btp.WrappedPlugin.Safety.{Safe, IsSoundAfter, Safe-pure, Safe-bind}
use semvi_btp.WrappedPlugin.Methods.Safety.{
  HasNominee, pre_enqueue-Safe, pre_filter-Safe, filter-Safe, post_filter-Safe, score-Safe,
  normalize_score-Safe, pre_score-Safe, permit-Safe, reserve-Safe, unreserve-Safe, pre_bind-Safe,
  bind-Safe, post_bind-Safe,
}
use semvi_btp.ResultStore.Safety.{IsSound}

module _ (K : Framework) (E : Type 0) where
  open K use {Pod, NodeInfo, NodeToStatusReader}

  -- A call of a method that acts on the world, with its arguments.
  pub data Request : Type 0 where
    pre_enqueue_request : Pod → Request
    pre_filter_request : Pod → Request
    filter_request : Pod → NodeInfo → Request
    post_filter_request : Pod → NodeToStatusReader → Request
    pre_score_request : Pod → List NodeInfo → Request
    score_request : Pod → String → Request
    normalize_score_request : Pod → NodeScoreList → Request
    reserve_request : Pod → String → Request
    unreserve_request : Pod → String → Request
    permit_request : Pod → String → Request
    pre_bind_request : Pod → String → Request
    bind_request : Pod → String → Request
    post_bind_request : Pod → String → Request

  unfoldable pub discard : {A : Type 0} → Action E A → Action E (Unit {0})
  discard m = m >>= λ _. pure tt

  unfoldable pub invoke : WrappedPlugin K E → Request → Action E (Unit {0})
  invoke w (pre_enqueue_request pod) = discard (pre_enqueue K E w pod)
  invoke w (pre_filter_request pod) = discard (pre_filter K E w pod)
  invoke w (filter_request pod n) = discard (filter K E w pod n)
  invoke w (post_filter_request pod statuses) = discard (post_filter K E w pod statuses)
  invoke w (pre_score_request pod nodes) = discard (pre_score K E w pod nodes)
  invoke w (score_request pod node) = discard (score K E w pod node)
  invoke w (normalize_score_request pod l) = discard (normalize_score K E w pod l)
  invoke w (reserve_request pod node) = discard (reserve K E w pod node)
  invoke w (unreserve_request pod node) = unreserve K E w pod node
  invoke w (permit_request pod node) = discard (permit K E w pod node)
  invoke w (pre_bind_request pod node) = discard (pre_bind K E w pod node)
  invoke w (bind_request pod node) = discard (bind K E w pod node)
  invoke w (post_bind_request pod node) = post_bind K E w pod node

  unfoldable pub serve : List (WrappedPlugin K E × Request) → Action E (Unit {0})
  serve [] = pure tt
  serve ((w, r) ∷ rest) = do invoke w r; serve rest

  discard-Safe : {A : Type 0} (m : Action E A) → Safe m → Safe (discard m)
  unfolding discard
  discard-Safe m h = Safe-bind m (λ _. pure tt) h (λ a. Safe-pure tt)

  -- A call asks for a nominee only where the original returns one on success.
  abbrev pub HasNominees : List (WrappedPlugin K E × Request) → Type 0
  HasNominees l = All (λ r. HasNominee K r.0.originals.post_filter) l

  invoke-Safe :
      (w : WrappedPlugin K E) (r : Request)
      → HasNominee K w.originals.post_filter
      → Safe (invoke w r)
  unfolding invoke
  invoke-Safe w (pre_enqueue_request pod) h = discard-Safe _ (pre_enqueue-Safe K w pod)
  invoke-Safe w (pre_filter_request pod) h = discard-Safe _ (pre_filter-Safe K w pod)
  invoke-Safe w (filter_request pod n) h = discard-Safe _ (filter-Safe K w pod n)
  invoke-Safe w (post_filter_request pod statuses) h =
      discard-Safe _ (post_filter-Safe K w pod statuses h)
  invoke-Safe w (pre_score_request pod nodes) h = discard-Safe _ (pre_score-Safe K w pod nodes)
  invoke-Safe w (score_request pod node) h = discard-Safe _ (score-Safe K w pod node)
  invoke-Safe w (normalize_score_request pod l) h = discard-Safe _ (normalize_score-Safe K w pod l)
  invoke-Safe w (reserve_request pod node) h = discard-Safe _ (reserve-Safe K w pod node)
  invoke-Safe w (unreserve_request pod node) h = unreserve-Safe K w pod node
  invoke-Safe w (permit_request pod node) h = discard-Safe _ (permit-Safe K w pod node)
  invoke-Safe w (pre_bind_request pod node) h = discard-Safe _ (pre_bind-Safe K w pod node)
  invoke-Safe w (bind_request pod node) h = discard-Safe _ (bind-Safe K w pod node)
  invoke-Safe w (post_bind_request pod node) h = post_bind-Safe K w pod node

  serve-Safe : (l : List (WrappedPlugin K E × Request)) → HasNominees l → Safe (serve l)
  unfolding serve
  serve-Safe [] h = Safe-pure tt
  serve-Safe ((w, r) ∷ rest) h =
      Safe-bind (invoke w r) (λ _. serve rest) (invoke-Safe w r h.0) (λ a. serve-Safe rest h.1)

  -- Any sequence of method calls on wrapped plugins, of any kinds and on any pods, whatever the
  -- original plugins and the extenders return, does not panic on a sound store and leaves a sound
  -- store, if no original PostFilter returns a nil result with a success.
  pub serve-IsSound :
      (l : List (WrappedPlugin K E × Request)) (w : World E)
      → HasNominees l
      → IsSound w.store
      → Ensures IsSoundAfter (serve l w)
  serve-IsSound l w h s = (serve-Safe l h).at w s
