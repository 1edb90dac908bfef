-- ===== src/WrappedPlugin/Methods/Filtering.antt =====
-- Enqueueing, filtering and post-filtering of a wrapped plugin.
use semvi_btp.Common.{String, Bool, false, Option, none, some, List, [], panics, if◌then◌else◌}
use semvi_btp.ResultStore.Calls.{
  filters, post_filters, pre_filters, success_message, passed_filter_message,
}
use semvi_btp.WrappedPlugin.Framework.{Framework}
use semvi_btp.WrappedPlugin.Action.{Action, pure, original, ◌>>=◌, ◌>>◌}
use semvi_btp.WrappedPlugin.Plugin.{WrappedPlugin, PreFilterPlugin, PreFiltered, PostFiltered}
use semvi_btp.WrappedPlugin.Methods.Guards.{unless_refused, finish, store_call, message_or}

module _ (K : Framework) (E : Type 0) where
  open K use {
    Pod, NodeInfo, node_name, QueuedPodInfo, Status, is_success, is_wait, nil_status, unschedulable,
    skip, PreFilterResult, unsorted_node_names, nominated_node_name, NodeToStatusReader,
    explicit_nodes, PreFilterExtensions, Duration, zero_duration, duration_text,
  }

  abbrev pub pre_enqueue_by :
      WrappedPlugin K E → Pod → Option (Pod → E → Status × E) → Action E Status
  pre_enqueue_by w pod none = pure nil_status
  pre_enqueue_by w pod (some f) = original (f pod)

  unfoldable pub pre_enqueue : WrappedPlugin K E → Pod → Action E Status
  pre_enqueue w pod = pre_enqueue_by w pod w.originals.pre_enqueue

  unfoldable pub pre_filter_extensions : WrappedPlugin K E → Option PreFilterExtensions
  pre_filter_extensions w = elim w.originals.pre_filter [
    | none ↦ none
    | some p ↦ some p.pre_filter_extensions
  ]

  -- The node names of a pre-filter result, nil or not.
  abbrev pub unsorted : Option PreFilterResult → Option (List String)
  unsorted none = none
  unsorted (some r) = some (unsorted_node_names r)

  abbrev pub pre_filter_by :
      WrappedPlugin K E → Pod → Option (PreFilterPlugin K E) → Action E (PreFiltered K E)
  pre_filter_by w pod none = pure (none, nil_status)
  pre_filter_by w pod (some p) =
      unless_refused K E w.extenders.pre_filter (λ x. x.before pod) (λ r. r.1)
        (do
          (result, s) ← original (p.pre_filter pod)
          store_call K E pod
              (pre_filters w.original_name (message_or K E success_message s) (unsorted result))
          finish K E w.extenders.pre_filter (λ x. x.after pod) (result, s))

  unfoldable pub pre_filter : WrappedPlugin K E → Pod → Action E (PreFiltered K E)
  pre_filter w pod = pre_filter_by w pod w.originals.pre_filter

  abbrev pub filter_by :
      WrappedPlugin K E
      → Pod
      → NodeInfo
      → Option (Pod → NodeInfo → E → Status × E)
      → Action E Status
  filter_by w pod node_info none = pure nil_status
  filter_by w pod node_info (some f) =
      unless_refused K E w.extenders.filter (λ x. x.before pod node_info) (λ s. s)
        (do
          s ← original (f pod node_info)
          store_call K E pod (
              filters (node_name node_info) w.original_name
                (message_or K E passed_filter_message s))
          finish K E w.extenders.filter (λ x. x.after pod node_info) s)

  unfoldable pub filter : WrappedPlugin K E → Pod → NodeInfo → Action E Status
  filter w pod node_info = filter_by w pod node_info w.originals.filter

  -- r.NominatedNodeName on success, which panics on a nil r; "" otherwise
  abbrev pub nominated : PostFiltered K E → Action E String
  nominated (none, s) = if is_success s then (λ w. panics) else pure ""
  nominated (some r, s) = if is_success s then pure (nominated_node_name r) else pure ""

  abbrev pub node_names : Option (List String) → List String
  node_names none = []
  node_names (some names) = names

  abbrev pub post_filter_by :
      WrappedPlugin K E
      → Pod
      → NodeToStatusReader
      → Option (Pod → NodeToStatusReader → E → PostFiltered K E × E)
      → Action E (PostFiltered K E)
  post_filter_by w pod statuses none = pure (none, unschedulable)
  post_filter_by w pod statuses (some f) =
      unless_refused K E w.extenders.post_filter (λ x. x.before pod statuses) (λ r. r.1)
        (do
          r ← original (f pod statuses)
          name ← nominated r
          store_call K E pod
              (post_filters name w.original_name (node_names (explicit_nodes statuses)))
          finish K E w.extenders.post_filter (λ x. x.after pod statuses) r)

  unfoldable pub post_filter :
      WrappedPlugin K E → Pod → NodeToStatusReader → Action E (PostFiltered K E)
  post_filter w pod statuses = post_filter_by w pod statuses w.originals.post_filter

  -- Less of a wrapped plugin with queue sort, whose original may be nil.
  unfoldable pub less :
      Option (QueuedPodInfo → QueuedPodInfo → Bool) → QueuedPodInfo → QueuedPodInfo → Bool
  less none pod1 pod2 = false
  less (some original_less) pod1 pod2 = original_less pod1 pod2
