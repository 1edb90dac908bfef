-- ===== src/WrappedPlugin/Methods/Scoring.antt =====
-- Scoring and normalizing of a wrapped plugin.
use semvi_btp.Common.{String, Bool, true, false, Option, none, some, List, [], ◌∷◌, if◌then◌else◌}
use semvi_btp.Common.Int.{ℤ, pos}
use semvi_btp.ResultStore.Calls.{scores, normalizes, pre_scores, success_message}
use semvi_btp.WrappedPlugin.Framework.{Framework}
use semvi_btp.WrappedPlugin.Action.{Action, pure, original, hook, ◌>>=◌, ◌>>◌}
use semvi_btp.WrappedPlugin.Plugin.{
  WrappedPlugin, NodeScoreList, ScorePlugin, Normalized, NormalizeScorePluginExtender,
}
use semvi_btp.WrappedPlugin.Methods.Guards.{unless_refused, finish, store_call, message_or}

module _ (K : Framework) (E : Type 0) where
  open K use {
    Pod, NodeInfo, node_name, QueuedPodInfo, Status, is_success, is_wait, nil_status, unschedulable,
    skip, PreFilterResult, unsorted_node_names, nominated_node_name, NodeToStatusReader,
    explicit_nodes, PreFilterExtensions, Duration, zero_duration, duration_text,
  }

  -- ScoreExtensions: the wrapper itself, if the original has extensions
  unfoldable pub has_score_extensions : WrappedPlugin K E → Bool
  has_score_extensions w = elim w.originals.score [
    | none ↦ false
    | some p ↦ elim p.score_extensions [ none ↦ false | some f ↦ true ]
  ]

  -- The loop of NormalizeScore over the normalized scores.
  unfoldable pub record_normalized : Pod → String → NodeScoreList → Action E (Unit {0})
  record_normalized pod plugin [] = pure tt
  record_normalized pod plugin ((node, n) ∷ rest) =
      store_call K E pod (normalizes node plugin n) >>= λ _. record_normalized pod plugin rest

  -- The part of NormalizeScore before the original plugin: Before may write to the scores.
  abbrev pub before_normalize :
      Option (NormalizeScorePluginExtender K E)
      → Pod
      → NodeScoreList
      → (NodeScoreList → Action E (Normalized K E))
      → Action E (Normalized K E)
  before_normalize none pod given rest = rest given
  before_normalize (some x) pod given rest = do
    (s, seen) ← hook (x.before pod given)
    if is_success s then rest seen else pure (s, seen)

  -- The part after it, on the scores that Before left.
  abbrev pub normalize_seen :
      WrappedPlugin K E
      → Pod
      → (Pod → NodeScoreList → E → Normalized K E × E)
      → NodeScoreList
      → Action E (Normalized K E)
  normalize_seen w pod f seen = do
    (s, result) ← original (f pod seen)
    if is_success s then record_normalized pod w.original_name result else pure tt
    finish K E w.extenders.normalize_score (λ x. x.after pod) (s, result)

  abbrev pub normalize_with :
      WrappedPlugin K E
      → Pod
      → Option (Pod → NodeScoreList → E → Normalized K E × E)
      → NodeScoreList
      → Action E (Normalized K E)
  normalize_with w pod none given = pure (nil_status, given)
  normalize_with w pod (some f) given =
      before_normalize w.extenders.normalize_score pod given (normalize_seen w pod f)

  abbrev pub extensions :
      Option (ScorePlugin K E) → Option (Pod → NodeScoreList → E → Normalized K E × E)
  extensions none = none
  extensions (some p) = p.score_extensions

  unfoldable pub normalize_score :
      WrappedPlugin K E → Pod → NodeScoreList → Action E (Normalized K E)
  normalize_score w pod node_scores =
      normalize_with w pod (extensions w.originals.score) node_scores

  abbrev pub score_by :
      WrappedPlugin K E → Pod → String → Option (ScorePlugin K E) → Action E (ℤ × Status)
  score_by w pod node none = pure (pos 0, nil_status)
  score_by w pod node (some p) =
      unless_refused K E w.extenders.score (λ x. x.before pod node) (λ r. r.1)
        (do
          (n, s) ← original (p.score pod node)
          if is_success s then store_call K E pod (scores node w.original_name n) else pure tt
          finish K E w.extenders.score (λ x. x.after pod node) (n, s))

  unfoldable pub score : WrappedPlugin K E → Pod → String → Action E (ℤ × Status)
  score w pod node = score_by w pod node w.originals.score

  abbrev pub pre_score_by :
      WrappedPlugin K E
      → Pod
      → List NodeInfo
      → Option (Pod → List NodeInfo → E → Status × E)
      → Action E Status
  pre_score_by w pod nodes none = pure nil_status
  pre_score_by w pod nodes (some f) =
      unless_refused K E w.extenders.pre_score (λ x. x.before pod nodes) (λ s. s)
        (do
          s ← original (f pod nodes)
          store_call K E pod (pre_scores w.original_name (message_or K E success_message s))
          finish K E w.extenders.pre_score (λ x. x.after pod nodes) s)

  unfoldable pub pre_score : WrappedPlugin K E → Pod → List NodeInfo → Action E Status
  pre_score w pod nodes = pre_score_by w pod nodes w.originals.pre_score
