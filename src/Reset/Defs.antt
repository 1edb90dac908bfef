-- ===== src/Reset/Defs.antt =====
-- simulator/reset/reset.go. The etcd client is a parameter on its state `W`, and the scheduler service
-- one on its state `X`. `order` is the order in which the goroutines put the initial data.
use semvi_btp.Common.{
  String, Bool, not, Option, none, some, List, [], ◌∷◌, map, if◌then◌else◌, Run, returns, ◌>>=◌,
  Try, ok, err,
}
use semvi_btp.Common.GoMap.{insert}
use semvi_btp.Common.Errors.{GoError, raised, wrapped}
use semvi_btp.Snapshot.Apply.{Task, wait}
use Prim.Native.String as Text

abbrev pub etcd_prefix : String
etcd_prefix = "/kube-scheduler-simulator"

-- The client's calls with a prefix, and Put.
pub record Etcd (W E : Type 0) : Type 0 where
  pub get_with_prefix : String → W → Try E (List (String × String))
  pub delete_with_prefix : String → W → W × Option E
  pub put : String → String → W → W × Option E

-- ResetScheduler, and the test for ErrServiceDisabled.
pub record SchedulerService (X E : Type 0) : Type 0 where
  pub reset_scheduler : X → X × Option (GoError E)
  pub is_disabled : GoError E → Bool

-- The entries that were read, as a map.
unfoldable pub store_all : List (String × String) → List (String × String) → List (String × String)
store_all [] initial = initial
store_all ((k, v) ∷ kvs) initial = store_all kvs (insert k v initial)

module _ {W X E : Type 0} (etcd : Etcd W E) (schedulers : SchedulerService X E)
    (order : List (String × String) → List (String × String)) where
  abbrev pub initial_data :
      Try E (List (String × String)) → Try (GoError E) (List (String × String))
  initial_data (ok kvs) = ok (store_all kvs [])
  initial_data (err e) = err (wrapped "get all data in etcd" (raised e))

  -- The service is its initial data.
  unfoldable pub new_reset_service : W → Try (GoError E) (List (String × String))
  unfolding store_all
  new_reset_service w = initial_data (etcd.get_with_prefix etcd_prefix w)

  abbrev pub put_failure : String → String → W × Option E → W × Option (GoError E)
  put_failure k v (w, none) = (w, none)
  put_failure k v (w, some e) = (
    w,
    some (
        wrapped
          (Text.◌++◌ "put initial data in etcd: key: "
            (Text.◌++◌ k (Text.◌++◌ ", value: " (Text.◌++◌ v ", error"))))
          (raised e)),
  )

  abbrev pub put_task : String × String → Task W E
  put_task (k, v) w = returns (put_failure k v (etcd.put k v w))

  abbrev pub scheduler_failure : Option (GoError E) → Option (GoError E)
  scheduler_failure none = none
  scheduler_failure (some e) =
      if not (schedulers.is_disabled e) then some (wrapped "reset scheduler" e) else none

  abbrev pub reset_with : W → X × Option (GoError E) → Run (W × X × Option (GoError E))
  reset_with w (x, e) = returns (w, x, scheduler_failure e)

  abbrev pub after_puts : X → W × Option (GoError E) → Run (W × X × Option (GoError E))
  after_puts x (w, some e) = returns (w, x, some e)
  after_puts x (w, none) = reset_with w (schedulers.reset_scheduler x)

  abbrev pub after_delete :
      List (String × String) → X → W × Option E → Run (W × X × Option (GoError E))
  after_delete initial x (w, some e) =
      returns (w, x, some (wrapped "delete all data in etcd" (raised e)))
  after_delete initial x (w, none) = wait (map put_task (order initial)) w >>= after_puts x

  unfoldable pub reset : List (String × String) → W → X → Run (W × X × Option (GoError E))
  unfolding wait
  reset initial w x = after_delete initial x (etcd.delete_with_prefix etcd_prefix w)
