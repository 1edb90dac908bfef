-- ===== src/Recorder/Loop.antt =====
-- simulator/recorder/recorder.go: Run with the event handlers that it registers, and the goroutine
-- `record`, as the sequence of what happens: an event handler is called, the ticker fires, and in the
-- end the context is done. flushRecords takes all records in one step, since it holds the lock.
use semvi_btp.Common.{ℕ, suc, Option, none, some, List, [], ◌∷◌, Try, ok, err}
use semvi_btp.Common.Errors.{GoError, raised, wrapped}
use semvi_btp.Common.Kubernetes.{GroupVersionResource, Objects}
use semvi_btp.Recorder.Defs.{
  add_event, update_event, delete_event, Record, Service, record_event, flush_records,
}

-- What an informer calls: the functions that Run registers.
pub data Notice (O : Type 0) : Type 0 where
  added : Option O → Notice O
  updated : Option O → Option O → Notice O
  deleted : Option O → Notice O

module _ {T O : Type 0} (objects : Objects O) where
  abbrev pub handle : T → Notice O → List (Record T O) → List (Record T O)
  handle now (added obj) records = record_event objects now obj add_event records
  handle now (updated old obj) records = record_event objects now obj update_event records
  handle now (deleted obj) records = record_event objects now obj delete_event records

module _ {E : Type 0} (add_handler : GroupVersionResource → Option E) where
  abbrev pub handler_failure : Option E → Option (GoError E) → Option (GoError E)
  handler_failure (some e) rest = some (wrapped "failed to add event handler" (raised e))
  handler_failure none rest = rest

  unfoldable pub add_handlers : List GroupVersionResource → Option (GoError E)
  add_handlers [] = none
  add_handlers (gvr ∷ gvrs) = let rest = add_handlers gvrs in handler_failure (add_handler gvr) rest

  -- Run's error, given what os.Create gives.
  unfoldable pub run : {T O F : Type 0} → Try E F → Service T O → Option (GoError E)
  unfolding add_handlers
  run (err e) s = some (wrapped "failed to create record file" (raised e))
  run (ok f) s = add_handlers s.gvrs

pub data Step (T O : Type 0) : Type 0 where
  notified : T → Notice O → Step T O
  ticked : Step T O

-- The records that wait, the file's content, and how many flushes failed (each is logged).
pub record Recording (T O : Type 0) : Type 0 where
  pub pending : List (Record T O)
  pub file : List ℕ
  pub failures : ℕ

module _ {T O E : Type 0} (objects : Objects O) (marshal : Record T O → Try E (List ℕ))
    (write : List ℕ → List ℕ → List ℕ × Option E) where
  abbrev pub logged : ℕ → List (Record T O) × List ℕ × Option (GoError E) → Recording T O
  logged n (records, file, none) = record { pending = records; file = file; failures = n }
  logged n (records, file, some e) = record { pending = records; file = file; failures = suc n }

  abbrev pub flush : Recording T O → Recording T O
  flush s = logged s.failures (flush_records marshal write s.pending s.file)

  abbrev pub step : Step T O → Recording T O → Recording T O
  step (notified now n) s = record {
    pending = handle objects now n s.pending;
    file = s.file;
    failures = s.failures;
  }
  step ticked s = flush s

  unfoldable pub steps : List (Step T O) → Recording T O → Recording T O
  unfolding flush_records record_event
  steps [] s = s
  steps (x ∷ xs) s = steps xs (step x s)

  -- What the goroutine leaves when these steps happened and the context was then done.
  unfoldable pub record_until_done : List (Step T O) → Recording T O → Recording T O
  unfolding steps flush_records
  record_until_done xs s = flush (steps xs s)
