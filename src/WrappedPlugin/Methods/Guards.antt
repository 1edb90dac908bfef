-- ===== src/WrappedPlugin/Methods/Guards.antt =====
-- What the methods of a wrapped plugin share: an extender before, an extender after, the record.
use semvi_btp.Common.{String, Option, none, some, if◌then◌else◌}
use semvi_btp.ResultStore.Calls.{Call}
use semvi_btp.WrappedPlugin.Framework.{Framework}
use semvi_btp.WrappedPlugin.Action.{Action, Hook, pure, hook, record_call, ◌>>=◌}

module _ (K : Framework) (E : Type 0) where
  open K use {Pod, namespace, pod_name, Status, is_success, message}

  -- if extender != nil { a := Before..(); if !status(a).IsSuccess() { return a } }; rest
  unfoldable pub unless_refused :
      {X A : Type 0} → Option X → (X → Hook E A) → (A → Status) → Action E A → Action E A
  unless_refused none before status rest = rest
  unless_refused (some x) before status rest = do
    a ← hook (before x)
    if is_success (status a) then rest else pure a

  -- if extender != nil { s := Before..(); if !s.IsSuccess() { return } }; rest, for methods that
  -- return nothing
  unfoldable pub unless_stopped :
      {X : Type 0} → Option X → (X → Hook E Status) → Action E (Unit {0}) → Action E (Unit {0})
  unless_stopped none before rest = rest
  unless_stopped (some x) before rest = do
    s ← hook (before x)
    if is_success s then rest else pure tt

  -- if extender != nil { return After..(a) }; return a
  unfoldable pub finish : {X A : Type 0} → Option X → (X → A → Hook E A) → A → Action E A
  finish none after a = pure a
  finish (some x) after a = hook (after x a)

  -- A call of the store for the pod.
  abbrev pub store_call : Pod → Call → Action E (Unit {0})
  store_call pod c = record_call (namespace pod) (pod_name pod) c

  -- The success message, or the status's message.
  abbrev pub message_or : String → Status → String
  message_or success s = if is_success s then success else message s
