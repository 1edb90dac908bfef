-- ===== src/Replayer/RoundTrip.antt =====
-- A recording is replayed as it was recorded.
use semvi_btp.Common.{
  ◌≡◌, refl, ap, ◌∙◌, ℕ, false, Option, none, some, List, [], ◌∷◌, ◌++◌, eqb, All, Try, ok,
}
use semvi_btp.Common.Errors.{GoError}
use semvi_btp.Common.Kubernetes.{Objects}
use semvi_btp.Recorder.Defs.{Record, newline}
use semvi_btp.Recorder.Loop.{Step, Recording, record_until_done}
use semvi_btp.Recorder.Log.{Appends, line, lines, recorded, record_until_done-lines}
use semvi_btp.Replayer.Defs.{Applier, end_of_file, apply_event, replay}
use semvi_btp.Replayer.Lines.{
  split_lines, after_event, replay_line, replay_lines, replay-replay_lines,
}

abbrev pub NoNewline : List ℕ → Type 0
NoNewline bytes = All (λ c. eqb c newline ≡ false) bytes

split_lines-line :
    (b rest : List ℕ)
    → NoNewline b
    → split_lines ((b ++ (newline ∷ [])) ++ rest)
      ≡ ((b ++ (newline ∷ [])) ∷ (split_lines rest).0, (split_lines rest).1)
unfolding split_lines
split_lines-line [] rest h = refl
split_lines-line (c ∷ b) rest (first, h) = rw (first, split_lines-line b rest h) refl

module _ {T O E : Type 0} (marshal : Record T O → Try E (List ℕ))
    (unmarshal : List ℕ → Try E (Record T O)) where
  -- The record is written as JSON without a newline, which is read, with a newline after it, as a
  -- record of the same event and object. (Its time may lose the monotonic clock.)
  pub record IsKept (r : Record T O) : Type 0 where
    pub json : List ℕ
    pub read : Record T O
    pub marshals : marshal r ≡ ok json
    pub has_no_newline : NoNewline json
    pub unmarshals : unmarshal (json ++ (newline ∷ [])) ≡ ok read
    pub same_event : read.event ≡ r.event
    pub same_resource : read.resource ≡ r.resource

  module _ {W : Type 0} (applier : Applier W O E) where
    -- The events of the records, one after the other, to the first that fails.
    unfoldable pub apply_all : List (Record T O) → W → W × Option (GoError E)
    unfolding apply_event
    apply_all [] w = (w, none)
    apply_all (r ∷ rs) w = after_event unmarshal applier (apply_event applier r w) (apply_all rs)

    apply_event_same :
        (q r : Record T O) (w : W)
        → q.event ≡ r.event
        → q.resource ≡ r.resource
        → apply_event applier q w ≡ apply_event applier r w
    unfolding apply_event
    apply_event_same q r w e f = rw (e, f) refl

    split_lines-lines :
        (r : Record T O) (rs : List (Record T O)) (k : IsKept r)
        → split_lines (lines marshal (r ∷ rs)) ≡ (
          (k.json ++ (newline ∷ [])) ∷ (split_lines (lines marshal rs)).0,
          (split_lines (lines marshal rs)).1,
        )
    unfolding lines
    split_lines-lines r rs k =
        ap (λ m. split_lines (line marshal m ++ lines marshal rs)) k.marshals
        ∙ split_lines-line k.json (lines marshal rs) k.has_no_newline

    replay_lines-lines :
        (rs : List (Record T O)) (w : W)
        → All IsKept rs
        → let (complete, last) = split_lines (lines marshal rs) in
          replay_lines unmarshal applier complete last end_of_file w ≡ apply_all rs w
    unfolding replay_lines apply_all lines split_lines
    replay_lines-lines [] w h = refl
    replay_lines-lines (r ∷ rs) w (k, h) =
        let (complete, last) = split_lines (lines marshal rs) in
        let go_on = replay_lines unmarshal applier complete last end_of_file in
        ap (λ x. replay_lines unmarshal applier x.0 x.1 end_of_file w) (split_lines-lines r rs k)
        ∙ ap (λ m. replay_line unmarshal applier m w go_on) k.unmarshals
        ∙ ap (λ x. after_event unmarshal applier x go_on)
            (apply_event_same k.read r w k.same_event k.same_resource)
        ∙ (λ i.
            after_event unmarshal applier (apply_event applier r w)
              (λ v. replay_lines-lines rs v h i))

    -- The replay of a recording. A new recording, no flush of which fails, leaves a file on which
    -- `Replay` ends and applies the recorded events in their order, each once, to the first that
    -- fails. Each recorded event is written as JSON without a newline that is read as that event,
    -- and a write that does not fail appends its data.
    pub replay-record_until_done :
        (objects : Objects O) (write : List ℕ → List ℕ → List ℕ × Option E)
        (appends : Appends write) (xs : List (Step T O)) (w : W)
        → let empty : Recording T O = record { pending = []; file = []; failures = 0 } in
          let t = record_until_done objects marshal write xs empty in
          t.failures ≡ 0
          → All IsKept (recorded objects xs)
          → replay unmarshal applier (ok (record { unread = t.file; ending = end_of_file })) w
            ≡ some (apply_all (recorded objects xs) w)
    unfolding lines
    replay-record_until_done objects write appends xs w h kept =
        let empty : Recording T O = record { pending = []; file = []; failures = 0 } in
        let (all_written, written) =
          record_until_done-lines objects marshal write appends xs empty in
        ap
          (λ bytes.
            replay unmarshal applier (ok (record { unread = bytes; ending = end_of_file })) w)
          (written h)
        ∙ replay-replay_lines unmarshal applier
            (record { unread = lines marshal (recorded objects xs); ending = end_of_file }) w
        ∙ ap (λ r. some r) (replay_lines-lines (recorded objects xs) w kept)
