-- ===== src/WrappedPlugin/Methods/Safety.antt =====
-- Every method of a wrapped plugin is safe in the result store.
use semvi_btp.Common.{◌≡◌, String, true, Option, none, some, List, [], ◌∷◌, inl, inr, Bool-cases}
use semvi_btp.WrappedPlugin.Framework.{Framework}
use semvi_btp.WrappedPlugin.Action.{Action, Hook}
use semvi_btp.WrappedPlugin.Plugin.{
  WrappedPlugin, NodeScoreList, ScorePlugin, PreFilterPlugin, ReservePlugin, PostFiltered,
  Normalized, NormalizeScorePluginExtender,
}
use semvi_btp.WrappedPlugin.Methods.Guards
use semvi_btp.WrappedPlugin.Methods.Filtering
use semvi_btp.WrappedPlugin.Methods.Scoring
use semvi_btp.WrappedPlugin.Methods.Binding
use semvi_btp.WrappedPlugin.Safety.{
  Safe, Safe-pure, Safe-record, Safe-bind, Safe-original_then, safe_rules,
}

module _ (K : Framework) {E : Type 0} where
  open K use {
    Pod, NodeInfo, Status, is_success, PostFilterResult, nominated_node_name, NodeToStatusReader,
    Duration,
  }

  Safe-unless_refused :
      {X A : Type 0} (x : Option X) (before : X → Hook E A) (status : A → Status)
      (rest : Action E A)
      → Safe rest
      → Safe (Guards.unless_refused K E x before status rest)
  unfolding Guards.unless_refused
  Safe-unless_refused none before status rest h = h
  Safe-unless_refused (some x) before status rest h = search (safe_rules)

  Safe-unless_stopped :
      {X : Type 0} (x : Option X) (before : X → Hook E Status) (rest : Action E (Unit {0}))
      → Safe rest
      → Safe (Guards.unless_stopped K E x before rest)
  unfolding Guards.unless_stopped
  Safe-unless_stopped none before rest h = h
  Safe-unless_stopped (some x) before rest h = search (safe_rules)

  Safe-finish :
      {X A : Type 0} (x : Option X) (after : X → A → Hook E A) (a : A)
      → Safe (Guards.finish K E x after a)
  unfolding Guards.finish
  Safe-finish none after a = search (safe_rules)
  Safe-finish (some x) after a = search (safe_rules)

  Safe-record_normalized :
      (pod : Pod) (plugin : String) (l : NodeScoreList)
      → Safe (Scoring.record_normalized K E pod plugin l)
  unfolding Scoring.record_normalized
  Safe-record_normalized pod plugin [] = search (safe_rules)
  Safe-record_normalized pod plugin ((node, n) ∷ rest) =
      Safe-bind _ _ (Safe-record _ _ _) (λ _. Safe-record_normalized pod plugin rest)

  pre_enqueue_by-Safe :
      (w : WrappedPlugin K E) (pod : Pod) (o : Option (Pod → E → Status × E))
      → Safe (Filtering.pre_enqueue_by K E w pod o)
  pre_enqueue_by-Safe w pod none = search (safe_rules)
  pre_enqueue_by-Safe w pod (some f) = search (safe_rules)

  pub pre_enqueue-Safe :
      (w : WrappedPlugin K E) (pod : Pod) → Safe (Filtering.pre_enqueue K E w pod)
  unfolding Filtering.pre_enqueue
  pre_enqueue-Safe w pod = pre_enqueue_by-Safe w pod _

  pre_filter_by-Safe :
      (w : WrappedPlugin K E) (pod : Pod) (o : Option (PreFilterPlugin K E))
      → Safe (Filtering.pre_filter_by K E w pod o)
  pre_filter_by-Safe w pod none = search (safe_rules)
  pre_filter_by-Safe w pod (some f) = search (safe_rules, Safe-unless_refused, Safe-finish)

  pub pre_filter-Safe : (w : WrappedPlugin K E) (pod : Pod) → Safe (Filtering.pre_filter K E w pod)
  unfolding Filtering.pre_filter
  pre_filter-Safe w pod = pre_filter_by-Safe w pod _

  filter_by-Safe :
      (w : WrappedPlugin K E) (pod : Pod) (n : NodeInfo)
      (o : Option (Pod → NodeInfo → E → Status × E))
      → Safe (Filtering.filter_by K E w pod n o)
  filter_by-Safe w pod n none = search (safe_rules)
  filter_by-Safe w pod n (some f) = search (safe_rules, Safe-unless_refused, Safe-finish)

  pub filter-Safe :
      (w : WrappedPlugin K E) (pod : Pod) (n : NodeInfo) → Safe (Filtering.filter K E w pod n)
  unfolding Filtering.filter
  filter-Safe w pod n = filter_by-Safe w pod n _

  score_by-Safe :
      (w : WrappedPlugin K E) (pod : Pod) (node : String) (o : Option (ScorePlugin K E))
      → Safe (Scoring.score_by K E w pod node o)
  score_by-Safe w pod node none = search (safe_rules)
  score_by-Safe w pod node (some f) = search (safe_rules, Safe-unless_refused, Safe-finish)

  pub score-Safe :
      (w : WrappedPlugin K E) (pod : Pod) (node : String) → Safe (Scoring.score K E w pod node)
  unfolding Scoring.score
  score-Safe w pod node = score_by-Safe w pod node _

  pre_score_by-Safe :
      (w : WrappedPlugin K E) (pod : Pod) (nodes : List NodeInfo)
      (o : Option (Pod → List NodeInfo → E → Status × E))
      → Safe (Scoring.pre_score_by K E w pod nodes o)
  pre_score_by-Safe w pod nodes none = search (safe_rules)
  pre_score_by-Safe w pod nodes (some f) = search (safe_rules, Safe-unless_refused, Safe-finish)

  pub pre_score-Safe :
      (w : WrappedPlugin K E) (pod : Pod) (nodes : List NodeInfo)
      → Safe (Scoring.pre_score K E w pod nodes)
  unfolding Scoring.pre_score
  pre_score-Safe w pod nodes = pre_score_by-Safe w pod nodes _

  permit_by-Safe :
      (w : WrappedPlugin K E) (pod : Pod) (node : String)
      (o : Option (Pod → String → E → (Status × Duration) × E))
      → Safe (Binding.permit_by K E w pod node o)
  permit_by-Safe w pod node none = search (safe_rules)
  permit_by-Safe w pod node (some f) = search (safe_rules, Safe-unless_refused, Safe-finish)

  pub permit-Safe :
      (w : WrappedPlugin K E) (pod : Pod) (node : String) → Safe (Binding.permit K E w pod node)
  unfolding Binding.permit
  permit-Safe w pod node = permit_by-Safe w pod node _

  unreserve_by-Safe :
      (w : WrappedPlugin K E) (pod : Pod) (node : String) (o : Option (ReservePlugin K E))
      → Safe (Binding.unreserve_by K E w pod node o)
  unreserve_by-Safe w pod node none = search (safe_rules)
  unreserve_by-Safe w pod node (some f) = search (safe_rules, Safe-unless_stopped, Safe-finish)

  pub unreserve-Safe :
      (w : WrappedPlugin K E) (pod : Pod) (node : String) → Safe (Binding.unreserve K E w pod node)
  unfolding Binding.unreserve
  unreserve-Safe w pod node = unreserve_by-Safe w pod node _

  pre_bind_by-Safe :
      (w : WrappedPlugin K E) (pod : Pod) (node : String)
      (o : Option (Pod → String → E → Status × E))
      → Safe (Binding.pre_bind_by K E w pod node o)
  pre_bind_by-Safe w pod node none = search (safe_rules)
  pre_bind_by-Safe w pod node (some f) = search (safe_rules, Safe-unless_refused, Safe-finish)

  pub pre_bind-Safe :
      (w : WrappedPlugin K E) (pod : Pod) (node : String) → Safe (Binding.pre_bind K E w pod node)
  unfolding Binding.pre_bind
  pre_bind-Safe w pod node = pre_bind_by-Safe w pod node _

  bind_by-Safe :
      (w : WrappedPlugin K E) (pod : Pod) (node : String)
      (o : Option (Pod → String → E → Status × E))
      → Safe (Binding.bind_by K E w pod node o)
  bind_by-Safe w pod node none = search (safe_rules)
  bind_by-Safe w pod node (some f) = search (safe_rules, Safe-unless_refused, Safe-finish)

  pub bind-Safe :
      (w : WrappedPlugin K E) (pod : Pod) (node : String) → Safe (Binding.bind K E w pod node)
  unfolding Binding.bind
  bind-Safe w pod node = bind_by-Safe w pod node _

  post_bind_by-Safe :
      (w : WrappedPlugin K E) (pod : Pod) (node : String)
      (o : Option (Pod → String → E → Unit {0} × E))
      → Safe (Binding.post_bind_by K E w pod node o)
  post_bind_by-Safe w pod node none = search (safe_rules)
  post_bind_by-Safe w pod node (some f) = search (safe_rules, Safe-unless_stopped, Safe-finish)

  pub post_bind-Safe :
      (w : WrappedPlugin K E) (pod : Pod) (node : String) → Safe (Binding.post_bind K E w pod node)
  unfolding Binding.post_bind
  post_bind-Safe w pod node = post_bind_by-Safe w pod node _

  reserve_by-Safe :
      (w : WrappedPlugin K E) (pod : Pod) (node : String) (o : Option (ReservePlugin K E))
      → Safe (Binding.reserve_by K E w pod node o)
  reserve_by-Safe w pod node none = search (safe_rules)
  reserve_by-Safe w pod node (some f) = search (safe_rules, Safe-unless_refused, Safe-finish)

  pub reserve-Safe :
      (w : WrappedPlugin K E) (pod : Pod) (node : String) → Safe (Binding.reserve K E w pod node)
  unfolding Binding.reserve
  reserve-Safe w pod node =
      Safe-bind _ _ (Safe-record _ _ _) (λ _. reserve_by-Safe w pod node w.originals.reserve)

  before_normalize-Safe :
      (x : Option (NormalizeScorePluginExtender K E)) (pod : Pod) (given : NodeScoreList)
      (rest : NodeScoreList → Action E (Normalized K E))
      → ((l : NodeScoreList) → Safe (rest l))
      → Safe (Scoring.before_normalize K E x pod given rest)
  before_normalize-Safe none pod given rest h = h given
  before_normalize-Safe (some x) pod given rest h = search (safe_rules)

  normalize_with-Safe :
      (w : WrappedPlugin K E) (pod : Pod)
      (o : Option (Pod → NodeScoreList → E → Normalized K E × E)) (given : NodeScoreList)
      → Safe (Scoring.normalize_with K E w pod o given)
  normalize_with-Safe w pod none given = search (safe_rules)
  normalize_with-Safe w pod (some f) given =
      before_normalize-Safe _ pod given (Scoring.normalize_seen K E w pod f)
        λ seen. search (safe_rules, Safe-record_normalized, Safe-finish)

  pub normalize_score-Safe :
      (w : WrappedPlugin K E) (pod : Pod) (given : NodeScoreList)
      → Safe (Scoring.normalize_score K E w pod given)
  unfolding Scoring.normalize_score
  normalize_score-Safe w pod given = normalize_with-Safe w pod _ given

  -- On success the original post-filter returns a result that is not nil.
  abbrev pub HasNominee : Option (Pod → NodeToStatusReader → E → PostFiltered K E × E) → Type 0
  HasNominee none = Unit
  HasNominee (some f) =
      (pod : Pod) (statuses : NodeToStatusReader) (e : E)
      → let (r, s) = (f pod statuses e).0 in
        is_success s ≡ true → (a : PostFilterResult) × (r ≡ some a)

  nominated-Safe :
      (r : PostFiltered K E)
      → (is_success r.1 ≡ true → (a : PostFilterResult) × (r.0 ≡ some a))
      → Safe (Filtering.nominated K E r)
  nominated-Safe (none, s) h = elim (Bool-cases (is_success s)) [
    | inl e ↦ let (a, q) = h e in cc q
    | inr e ↦ rw e (Safe-pure "")
  ]
  nominated-Safe (some r, s) h = search (safe_rules)

  post_filter_by-Safe :
      (w : WrappedPlugin K E) (pod : Pod) (statuses : NodeToStatusReader)
      (o : Option (Pod → NodeToStatusReader → E → PostFiltered K E × E))
      → HasNominee o
      → Safe (Filtering.post_filter_by K E w pod statuses o)
  post_filter_by-Safe w pod statuses none h = search (safe_rules)
  post_filter_by-Safe w pod statuses (some f) h = Safe-unless_refused _ _ _ _ (
      Safe-original_then (f pod statuses) _ λ e.
        Safe-bind _ _ (nominated-Safe (f pod statuses e).0 (h pod statuses e))
          λ name. search (safe_rules, Safe-finish))

  pub post_filter-Safe :
      (w : WrappedPlugin K E) (pod : Pod) (statuses : NodeToStatusReader)
      → HasNominee w.originals.post_filter
      → Safe (Filtering.post_filter K E w pod statuses)
  unfolding Filtering.post_filter
  post_filter-Safe w pod statuses h = post_filter_by-Safe w pod statuses w.originals.post_filter h
