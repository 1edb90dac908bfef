-- ===== src/Replayer/Defs.antt =====
-- simulator/replayer/replayer.go. The bytes of the record file are a list of numbers. The applier and
-- json.Unmarshal are parameters, and so is the state `W` of the cluster that the applier changes.
use semvi_btp.Common.{
  ℕ, zero, suc, String, Bool, true, false, Option, none, some, List, [], ◌∷◌, ◌==◌, eqb, length,
  if◌then◌else◌, Try, ok, err,
}
use semvi_btp.Common.Errors.{GoError, raised, message, wrapped, root, wrap_failure}
use semvi_btp.Recorder.Defs.{Record, add_event, update_event, delete_event, newline}
use Prim.Native.String as Text

-- ResourceApplier, with errors.IsAlreadyExists, which looks for the API's error in the chain.
pub record Applier (W O E : Type 0) : Type 0 where
  pub create : O → W → W × Option (GoError E)
  pub update : O → W → W × Option (GoError E)
  pub delete : O → W → W × Option (GoError E)
  pub is_already_exists : E → Bool

-- A file that is read: the bytes to come, and what a read reports after them, io.EOF or an error.
pub data Ending (E : Type 0) : Type 0 where
  end_of_file : Ending E
  broken : E → Ending E

pub record Reader (E : Type 0) : Type 0 where
  pub unread : List ℕ
  pub ending : Ending E

-- bufio.Reader.ReadBytes of a newline: the bytes up to it and with it, whether it was found, and the
-- bytes after it.
abbrev pub read_to_newline : List ℕ → List ℕ × Bool × List ℕ
read_to_newline [] = ([], false, [])
read_to_newline (c ∷ cs) =
    let (line, found, rest) = read_to_newline cs in
    if eqb c newline then (c ∷ [], true, cs) else (c ∷ line, found, rest)

module _ {T O E : Type 0} (unmarshal : List ℕ → Try E (Record T O)) where
  abbrev pub unmarshalled : Try E (Record T O) → Try (GoError E) (Option (Record T O))
  unmarshalled (ok r) = ok (some r)
  unmarshalled (err e) = err (wrapped "failed to unmarshal record" (raised e))

  -- From the line and the error of the read.
  abbrev pub load_from : List ℕ → Bool → Ending E → Try (GoError E) (Option (Record T O))
  load_from [] found ending = ok none
  load_from (c ∷ cs) true ending = unmarshalled (unmarshal (c ∷ cs))
  load_from (c ∷ cs) false end_of_file = ok none
  load_from (c ∷ cs) false (broken e) = err (wrapped "failed to read line" (raised e))

  unfoldable pub load_record_from_line : Reader E → Try (GoError E) (Option (Record T O)) × Reader E
  load_record_from_line reader =
      let (line, found, rest) = read_to_newline reader.unread in
      (load_from line found reader.ending, record { unread = rest; ending = reader.ending })

module _ {W O E : Type 0} (applier : Applier W O E) where
  -- The test of IsAlreadyExists on a chain of errors.
  abbrev pub already_exists : Option E → Bool
  already_exists none = false
  already_exists (some e) = applier.is_already_exists e

  abbrev pub created : W × Option (GoError E) → W × Option (GoError E)
  created (w, none) = (w, none)
  created (w, some e) =
      if already_exists (root e)
      then (w, none)
      else (w, some (wrapped "failed to create resource" e))

  abbrev pub failing : String → W × Option (GoError E) → W × Option (GoError E)
  failing text (w, e) = (w, wrap_failure text e)

  unfoldable pub apply_event : {T : Type 0} → Record T O → W → W × Option (GoError E)
  apply_event r w =
      if r.event == add_event
      then created (applier.create r.resource w)
      else if r.event == update_event
      then failing "failed to update resource" (applier.update r.resource w)
      else if r.event == delete_event
      then failing "failed to delete resource" (applier.delete r.resource w)
      else (w, some (message (Text.◌++◌ "unknown event: " r.event)))

module _ {T W O E : Type 0} (unmarshal : List ℕ → Try E (Record T O))
    (applier : Applier W O E) where
  -- What a run of the loop ended with; `none` is a run that needs more fuel.
  abbrev Ended : Type 0
  Ended = Option (W × Option (GoError E))

  abbrev pub applied_by : W × Option (GoError E) → (W → Ended) → Ended
  applied_by (w, some e) go_on = some (w, some (wrapped "failed to apply event" e))
  applied_by (w, none) go_on = go_on w

  abbrev pub loaded_by : Try (GoError E) (Option (Record T O)) → W → (Record T O → Ended) → Ended
  loaded_by (err e) w go_on = some (w, some (wrapped "failed to load record from line" e))
  loaded_by (ok none) w go_on = some (w, none)
  loaded_by (ok (some r)) w go_on = go_on r

  -- The loop of Replay, on fuel.
  unfoldable pub replay_loop : ℕ → Reader E → W → Option (W × Option (GoError E))
  unfolding load_record_from_line apply_event
  replay_loop zero reader w = none
  replay_loop (suc n) reader w =
      let (loaded, next) = load_record_from_line unmarshal reader in
      loaded_by loaded w (λ r. applied_by (apply_event applier r w) (replay_loop n next))

  -- Replay on the opened file. Each turn of the loop but the last reads a byte at least.
  unfoldable pub replay : Try E (Reader E) → W → Option (W × Option (GoError E))
  unfolding replay_loop
  replay (err e) w = some (w, some (wrapped "failed to read record file" (raised e)))
  replay (ok reader) w = replay_loop (suc (length reader.unread)) reader w
