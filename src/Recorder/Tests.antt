-- ===== src/Recorder/Tests.antt =====
-- A recording of three events with two ticks, with objects that are numbers.
use semvi_btp.Common.{
  ◌≡◌, refl, ap, ℕ, String, Option, none, some, List, [], ◌∷◌, ◌++◌, ◌==◌, if◌then◌else◌, Try, ok,
}
use semvi_btp.Common.Kubernetes.{Objects}
use semvi_btp.Recorder.Defs.{Record, new, default_gvrs, record_event, flush_records, contents}
use semvi_btp.Recorder.Loop.{
  Step, notified, ticked, Recording, added, updated, deleted, steps, record_until_done, run,
  add_handlers,
}
use semvi_btp.Recorder.Log.{Appends, lines, recorded, record_until_done-lines}
use mathlib.Core.Path as P

abbrev objects : Objects ℕ
objects = record {
  with_object = λ fields. 100;
  get_api_version = λ o. "v1";
  get_kind = λ o. "Pod";
  get_name = λ o. "web";
  get_namespace = λ o. "default";
}

abbrev marshal : Record Unit ℕ → Try String (List ℕ)
marshal r = if r.event == "Delete" then ok (68 ∷ []) else ok (65 ∷ r.resource ∷ [])

abbrev write : List ℕ → List ℕ → List ℕ × Option String
write file content = (file ++ content, none)

write-Appends : Appends write
write-Appends file content after h = P.sym (ap (λ x. x.0) h)

abbrev events : List (Step Unit ℕ)
events =
    ticked
    ∷ notified tt (added (some 1))
    ∷ ticked
    ∷ notified tt (updated (some 1) (some 2))
    ∷ notified tt (added none)
    ∷ notified tt (deleted (some 2))
    ∷ []

abbrev empty : Recording Unit ℕ
empty = record { pending = []; file = []; failures = 0 }

abbrev after : Recording Unit ℕ
after = record_until_done objects marshal write events empty

after-file : after.file ≡ 65 ∷ 1 ∷ 10 ∷ 65 ∷ 2 ∷ 10 ∷ 68 ∷ 10 ∷ []
unfolding record_until_done steps flush_records contents record_event
after-file = refl

-- A failed write loses the batch.
abbrev broken : List ℕ → List ℕ → List ℕ × Option String
broken file content = (file, some "no space left on device")

lost :
    record_until_done objects marshal broken events empty
    ≡ record { pending = []; file = []; failures = 2 }
unfolding record_until_done steps flush_records contents record_event
lost = refl

record_until_done-lines_example :
    (after.pending ≡ [])
    × (after.failures ≡ 0 → after.file ≡ lines marshal (recorded objects events))
unfolding lines
record_until_done-lines_example =
    record_until_done-lines objects marshal write write-Appends events empty

new_default :
    (new {T = Unit} {O = ℕ}
      (record { given_gvrs = none; record_file = "r"; flush_interval = none })).gvrs
    ≡ default_gvrs
unfolding new
new_default = refl

run_failing :
    run {E = String}
      (λ gvr. if gvr.resource == "nodes" then some "x" else none)
      (ok tt)
      (new {T = Unit} {O = ℕ}
        (record { given_gvrs = some []; record_file = "r"; flush_interval = none }))
    ≡ none
unfolding run new add_handlers
run_failing = refl
