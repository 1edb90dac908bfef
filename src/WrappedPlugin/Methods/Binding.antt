-- ===== src/WrappedPlugin/Methods/Binding.antt =====
-- Reserving, permitting and binding of a wrapped plugin.
use semvi_btp.Common.{String, Option, none, some, if◌then◌else◌}
use semvi_btp.ResultStore.Calls.{
  permits, selects, reserves, binds, pre_binds, success_message, wait_message,
}
use semvi_btp.WrappedPlugin.Framework.{Framework}
use semvi_btp.WrappedPlugin.Action.{Action, pure, original, ◌>>=◌, ◌>>◌}
use semvi_btp.WrappedPlugin.Plugin.{WrappedPlugin, ReservePlugin}
use semvi_btp.WrappedPlugin.Methods.Guards.{
  unless_refused, unless_stopped, finish, store_call, message_or,
}

module _ (K : Framework) (E : Type 0) where
  open K use {
    Pod, NodeInfo, node_name, QueuedPodInfo, Status, is_success, is_wait, nil_status, unschedulable,
    skip, PreFilterResult, unsorted_node_names, nominated_node_name, NodeToStatusReader,
    explicit_nodes, PreFilterExtensions, Duration, zero_duration, duration_text,
  }

  -- The message that Permit records: wait overrides success, success the status's message.
  abbrev pub permit_message : Status → String
  permit_message s = if is_wait s then wait_message else message_or K E success_message s

  abbrev pub permit_by :
      WrappedPlugin K E
      → Pod
      → String
      → Option (Pod → String → E → (Status × Duration) × E)
      → Action E (Status × Duration)
  permit_by w pod node none = pure (nil_status, zero_duration)
  permit_by w pod node (some f) =
      unless_refused K E w.extenders.permit (λ x. x.before pod node) (λ r. r.0)
        (do
          (s, timeout) ← original (f pod node)
          store_call K E pod (permits w.original_name (permit_message s) (duration_text timeout))
          finish K E w.extenders.permit (λ x. x.after pod node) (s, timeout))

  unfoldable pub permit : WrappedPlugin K E → Pod → String → Action E (Status × Duration)
  permit w pod node = permit_by w pod node w.originals.permit

  abbrev pub reserve_by :
      WrappedPlugin K E → Pod → String → Option (ReservePlugin K E) → Action E Status
  reserve_by w pod node none = pure nil_status
  reserve_by w pod node (some p) =
      unless_refused K E w.extenders.reserve (λ x. x.before_reserve pod node) (λ s. s)
        (do
          s ← original (p.reserve pod node)
          store_call K E pod (reserves w.original_name (message_or K E success_message s))
          finish K E w.extenders.reserve (λ x. x.after_reserve pod node) s)

  unfoldable pub reserve : WrappedPlugin K E → Pod → String → Action E Status
  reserve w pod node =
      store_call K E pod (selects node) >>= λ _. reserve_by w pod node w.originals.reserve

  abbrev pub unreserve_by :
      WrappedPlugin K E → Pod → String → Option (ReservePlugin K E) → Action E (Unit {0})
  unreserve_by w pod node none = pure tt
  unreserve_by w pod node (some p) =
      unless_stopped K E w.extenders.reserve (λ x. x.before_unreserve pod node)
        (do
          original (p.unreserve pod node)
          finish K E w.extenders.reserve (λ x _. x.after_unreserve pod node) tt)

  unfoldable pub unreserve : WrappedPlugin K E → Pod → String → Action E (Unit {0})
  unreserve w pod node = unreserve_by w pod node w.originals.reserve

  abbrev pub pre_bind_by :
      WrappedPlugin K E → Pod → String → Option (Pod → String → E → Status × E) → Action E Status
  pre_bind_by w pod node none = pure nil_status
  pre_bind_by w pod node (some f) =
      unless_refused K E w.extenders.pre_bind (λ x. x.before pod node) (λ s. s)
        (do
          s ← original (f pod node)
          store_call K E pod (pre_binds w.original_name (message_or K E success_message s))
          finish K E w.extenders.pre_bind (λ x. x.after pod node) s)

  unfoldable pub pre_bind : WrappedPlugin K E → Pod → String → Action E Status
  pre_bind w pod node = pre_bind_by w pod node w.originals.pre_bind

  abbrev pub bind_by :
      WrappedPlugin K E → Pod → String → Option (Pod → String → E → Status × E) → Action E Status
  bind_by w pod node none = pure (skip "called wrapped bind plugin is nil")
  bind_by w pod node (some f) =
      unless_refused K E w.extenders.bind (λ x. x.before pod node) (λ s. s)
        (do
          s ← original (f pod node)
          store_call K E pod (binds w.original_name (message_or K E success_message s))
          finish K E w.extenders.bind (λ x. x.after pod node) s)

  unfoldable pub bind : WrappedPlugin K E → Pod → String → Action E Status
  bind w pod node = bind_by w pod node w.originals.bind

  abbrev pub post_bind_by :
      WrappedPlugin K E
      → Pod
      → String
      → Option (Pod → String → E → Unit {0} × E)
      → Action E (Unit {0})
  post_bind_by w pod node none = pure tt
  post_bind_by w pod node (some f) =
      unless_stopped K E w.extenders.post_bind (λ x. x.before pod node)
        (do original (f pod node); finish K E w.extenders.post_bind (λ x _. x.after pod node) tt)

  unfoldable pub post_bind : WrappedPlugin K E → Pod → String → Action E (Unit {0})
  post_bind w pod node = post_bind_by w pod node w.originals.post_bind
