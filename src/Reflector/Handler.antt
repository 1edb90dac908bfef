-- ===== src/Reflector/Handler.antt =====
-- simulator/scheduler/storereflector/storereflector.go: the handler that storeAllResultToPodFunc
-- returns, with RetryWithExponentialBackOff of simulator/util/retry.go. wait.ExponentialBackoff is a
-- parameter. An attempt has the variable `pod`, which an attempt overwrites, and the world.
use semvi_btp.Common.{
  ℕ, ◌*◌, Bool, true, false, not, Option, none, some, [], ◌∷◌, ◌==◌, if◌then◌else◌, Try, ok, err,
}
use semvi_btp.Common.Errors.{GoError, message, wrapped, root}
use semvi_btp.Reflector.Defs.{
  Pod, ResultStore, World, Client, collect, with_annotations, delete_all,
}
use semvi_btp.Reflector.History.{Json, ResultSet, update_result_history}
use Prim.Native.String as Text

-- wait.Backoff; durations are in nanoseconds.
pub record Backoff : Type 0 where
  pub duration : ℕ
  pub factor : ℕ
  pub jitter : ℕ
  pub steps : ℕ

abbrev pub retry_backoff_initial_duration : ℕ
retry_backoff_initial_duration = 100 * 1000000

abbrev pub retry_backoff_steps : ℕ
retry_backoff_steps = 6

abbrev pub retry_backoff : Backoff
retry_backoff = record {
  duration = retry_backoff_initial_duration;
  factor = 3;
  jitter = 0;
  steps = retry_backoff_steps;
}

pub record Attempt (W S R : Type 0) : Type 0 where
  pub pod : Pod R
  pub world : World W S

-- A condition that changes a state, as ExponentialBackoff calls it, and what ExponentialBackoff does.
abbrev pub Condition : Type 0 → Type 0 → Type 0
Condition P E = P → P × Try (GoError E) Bool

abbrev pub ExponentialBackoff : Type 0 → Type 0 → Type 0
ExponentialBackoff P E = Backoff → Condition P E → P → P × Option (GoError E)

unfoldable pub retry_with_exponential_back_off :
    {P E : Type 0} → ExponentialBackoff P E → Condition P E → P → P × Option (GoError E)
retry_with_exponential_back_off exponential_backoff fn p = exponential_backoff retry_backoff fn p

module _ {W S R E : Type 0} (store : ResultStore S R) (json : Json E)
    (client : Client W S R E) where
  abbrev pub holds : (E → Bool) → Option E → Bool
  holds test none = false
  holds test (some e) = test e

  abbrev pub updated : Pod R → World W S × Option (GoError E) → Attempt W S R × Try (GoError E) Bool
  updated pod (world, none) = (record { pod = pod; world = world }, ok true)
  updated pod (world, some e) = (
    record { pod = pod; world = world },
    if holds client.is_not_found (root e)
        then ok true
        else if holds client.is_conflict (root e)
        then ok false
        else err (wrapped "update pod" e),
  )

  -- From the test for results on; an error of the history is only logged.
  abbrev pub write_results : Pod R → World W S → ResultSet → Attempt W S R × Try (GoError E) Bool
  write_results pod world [] = (record { pod = pod; world = world }, ok true)
  write_results pod world (r ∷ rs) =
      let (with_history, failure) = update_result_history json pod (r ∷ rs) in
      updated with_history (client.update_pod with_history world)

  abbrev pub reflect : Pod R → World W S → Attempt W S R × Try (GoError E) Bool
  reflect pod world =
      let (stores, result_set, annos) = collect store pod world.stores [] pod.annotations in
      write_results (with_annotations pod annos)
        (record { cluster = world.cluster; stores = stores }) result_set

  abbrev pub got :
      Pod R → World W S × Try (GoError E) (Pod R) → Attempt W S R × Try (GoError E) Bool
  got pod (world, err e) = (
    record { pod = pod; world = world },
    if holds client.is_not_found (root e) then ok true else err (wrapped "get pod" e),
  )
  got pod (world, ok new_pod) =
      if not (new_pod.uid == pod.uid)
      then (
        record { pod = pod; world = world },
        err (
            message (
              Text.◌++◌ "pod UID is different: "
                (Text.◌++◌ new_pod.uid (Text.◌++◌ " != " pod.uid)))),
      )
      else reflect new_pod world

  unfoldable pub update_func : Attempt W S R → Attempt W S R × Try (GoError E) Bool
  unfolding collect update_result_history
  update_func a = got a.pod (client.get_pod a.pod.namespace a.pod.name a.world)

  abbrev pub after_retry : Attempt W S R × Option (GoError E) → World W S
  after_retry (a, some e) = a.world
  after_retry (a, none) = record {
    cluster = a.world.cluster;
    stores = delete_all store a.pod a.world.stores;
  }

  -- The handler on a new object: `none` if it is not a pod.
  unfoldable pub store_all_result_to_pod :
      ExponentialBackoff (Attempt W S R) E → Option (Pod R) → World W S → World W S
  unfolding update_func retry_with_exponential_back_off delete_all
  store_all_result_to_pod exponential_backoff none world = world
  store_all_result_to_pod exponential_backoff (some pod) world = after_retry (
      retry_with_exponential_back_off exponential_backoff update_func
        (record { pod = pod; world = world }))
