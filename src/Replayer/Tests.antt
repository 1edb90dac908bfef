-- ===== src/Replayer/Tests.antt =====
-- The replay of a recording of objects that are numbers, on a list of what was done.
use semvi_btp.Common.{
  ◌≡◌, refl, ap, sym, ℕ, String, false, Option, none, some, List, [], ◌∷◌, ◌++◌, ◌==◌, eqb, ◌+◌,
  if◌then◌else◌, Try, ok, err,
}
use semvi_btp.Common.Errors.{raised, wrapped}
use semvi_btp.Common.Kubernetes.{Objects}
use semvi_btp.Recorder.Defs.{Record, record_event, flush_records, contents}
use semvi_btp.Recorder.Loop.{
  Step, notified, ticked, Recording, added, updated, deleted, steps, record_until_done,
}
use semvi_btp.Recorder.Log.{Appends, recorded}
use semvi_btp.Replayer.Defs.{
  Applier, Reader, end_of_file, broken, apply_event, load_record_from_line, replay_loop, replay,
}
use semvi_btp.Replayer.Lines.{split_lines, replay_lines, replay-replay_lines}
use semvi_btp.Replayer.RoundTrip.{apply_all, IsKept, replay-record_until_done}

abbrev objects : Objects ℕ
objects = record {
  with_object = λ fields. 100;
  get_api_version = λ o. "v1";
  get_kind = λ o. "Pod";
  get_name = λ o. "web";
  get_namespace = λ o. "default";
}

abbrev marshal : Record Unit ℕ → Try String (List ℕ)
marshal r =
    if r.event == "Add"
    then ok (65 ∷ r.resource ∷ [])
    else if r.event == "Update"
    then ok (85 ∷ r.resource ∷ [])
    else ok (68 ∷ r.resource ∷ [])

abbrev of_code : ℕ → String
of_code c = if eqb c 65 then "Add" else if eqb c 85 then "Update" else "Delete"

abbrev unmarshal : List ℕ → Try String (Record Unit ℕ)
unmarshal (c ∷ o ∷ end ∷ []) = ok (record { time = tt; event = of_code c; resource = o })
unmarshal other = err "invalid character"

abbrev write : List ℕ → List ℕ → List ℕ × Option String
write file content = (file ++ content, none)

write-Appends : Appends write
write-Appends file content after h = sym (ap (λ x. x.0) h)

-- Object 1 is there before; object 3 cannot be updated.
abbrev applier : Applier (List ℕ) ℕ String
applier = record {
  create = λ o w.
      if eqb o 1 then (w, some (wrapped "create" (raised "exists"))) else (w ++ (o ∷ []), none);
  update = λ o w. if eqb o 3 then (w, some (raised "conflict")) else (w ++ ((200 + o) ∷ []), none);
  delete = λ o w. (w ++ (o ∷ []), none);
  is_already_exists = λ e. e == "exists";
}

abbrev events : List (Step Unit ℕ)
events =
    notified tt (added (some 1))
    ∷ ticked
    ∷ notified tt (added (some 2))
    ∷ notified tt (updated (some 1) (some 2))
    ∷ notified tt (deleted (some 2))
    ∷ []

abbrev after : Recording Unit ℕ
after =
    record_until_done objects marshal write events
      (record { pending = []; file = []; failures = 0 })

replayed :
    replay unmarshal applier (ok (record { unread = after.file; ending = end_of_file })) []
    ≡ some (2 ∷ 202 ∷ 100 ∷ [], none)
unfolding replay replay_loop load_record_from_line apply_event record_until_done steps flush_records
    contents record_event
replayed = refl

no_failure : after.failures ≡ 0
unfolding record_until_done steps flush_records contents record_event
no_failure = refl

abbrev record_of : String → ℕ → Record Unit ℕ
record_of e o = record { time = tt; event = e; resource = o }

IsKept-add : (o : ℕ) → eqb o 10 ≡ false → IsKept marshal unmarshal (record_of "Add" o)
IsKept-add o h = record {
  json = 65 ∷ o ∷ [];
  read = record_of "Add" o;
  marshals = refl;
  has_no_newline = (refl, (h, tt));
  unmarshals = refl;
  same_event = refl;
  same_resource = refl;
}

IsKept-update : (o : ℕ) → eqb o 10 ≡ false → IsKept marshal unmarshal (record_of "Update" o)
IsKept-update o h = record {
  json = 85 ∷ o ∷ [];
  read = record_of "Update" o;
  marshals = refl;
  has_no_newline = (refl, (h, tt));
  unmarshals = refl;
  same_event = refl;
  same_resource = refl;
}

IsKept-delete : (o : ℕ) → eqb o 10 ≡ false → IsKept marshal unmarshal (record_of "Delete" o)
IsKept-delete o h = record {
  json = 68 ∷ o ∷ [];
  read = record_of "Delete" o;
  marshals = refl;
  has_no_newline = (refl, (h, tt));
  unmarshals = refl;
  same_event = refl;
  same_resource = refl;
}

replay-record_until_done_example :
    replay unmarshal applier (ok (record { unread = after.file; ending = end_of_file })) []
    ≡ some (apply_all marshal unmarshal applier (recorded objects events) [])
unfolding recorded record_event
replay-record_until_done_example =
    replay-record_until_done marshal unmarshal applier objects write write-Appends events []
      no_failure
      (IsKept-add 1 refl, (IsKept-add 2 refl, (IsKept-update 2 refl, (IsKept-delete 100 refl, tt))))

-- A line and a half, then a broken read.
abbrev half : Reader String
half = record { unread = 65 ∷ 2 ∷ 10 ∷ 65 ∷ []; ending = broken "input/output error" }

replay-replay_lines_example :
    replay unmarshal applier (ok half) []
    ≡ some (
        replay_lines unmarshal applier
          (split_lines half.unread).0
          (split_lines half.unread).1
          half.ending
          [])
replay-replay_lines_example = replay-replay_lines unmarshal applier half []

half_replayed :
    replay unmarshal applier (ok half) []
    ≡ some (
      2 ∷ [],
      some (
          wrapped "failed to load record from line"
            (wrapped "failed to read line" (raised "input/output error"))),
    )
unfolding replay replay_loop load_record_from_line apply_event
half_replayed = refl

-- A read that breaks between two lines is not reported.
silent :
    replay unmarshal applier
      (ok (record { unread = 65 ∷ 2 ∷ 10 ∷ []; ending = broken "input/output error" }))
      []
    ≡ some (2 ∷ [], none)
unfolding replay replay_loop load_record_from_line apply_event
silent = refl
