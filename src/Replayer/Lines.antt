-- ===== src/Replayer/Lines.antt =====
-- A replay goes over the complete lines of the file: the loop against a fold over the lines.
use semvi_btp.Common.{
  ◌≡◌, refl, ℕ, zero, suc, ◌<◌, Bool, true, false, Option, none, some, List, [], ◌∷◌, eqb, length,
  if◌then◌else◌, Try, ok, err, arith, Bool-cases, inl, inr,
}
use semvi_btp.Common.Errors.{GoError, wrapped, raised}
use semvi_btp.Recorder.Defs.{Record, newline}
use semvi_btp.Replayer.Defs.{
  Applier, Ending, end_of_file, broken, Reader, read_to_newline, unmarshalled, load_from,
  load_record_from_line, apply_event, applied_by, loaded_by, replay_loop, replay,
}

-- The complete lines, each with its newline, and what stands after the last newline.
abbrev pub prepend : ℕ → List (List ℕ) × List ℕ → List (List ℕ) × List ℕ
prepend c ([], last) = ([], c ∷ last)
prepend c (line ∷ lines, last) = ((c ∷ line) ∷ lines, last)

unfoldable pub split_lines : List ℕ → List (List ℕ) × List ℕ
split_lines [] = ([], [])
split_lines (c ∷ cs) =
    let (lines, last) = split_lines cs in
    if eqb c newline then ((c ∷ []) ∷ lines, last) else prepend c (lines, last)

abbrev IsRead : List ℕ → List ℕ × Bool × List ℕ → Type 0
IsRead bytes (line, true, rest) =
    (length rest < length bytes)
    × ((c : ℕ) × (cs : List ℕ) × (line ≡ c ∷ cs))
    × (split_lines bytes ≡ (line ∷ (split_lines rest).0, (split_lines rest).1))
IsRead bytes (line, false, rest) = split_lines bytes ≡ ([], line)

IsRead-next :
    (c : ℕ) (cs : List ℕ) (read : List ℕ × Bool × List ℕ)
    → eqb c newline ≡ false
    → IsRead cs read
    → IsRead (c ∷ cs) (c ∷ read.0, read.1, read.2)
unfolding split_lines
IsRead-next c cs (line, true, rest) e (less, cut, same) =
    (omega (arith, less), (c, line, refl), rw (e, same) refl)
IsRead-next c cs (line, false, rest) e same = rw (e, same) refl

read_to_newline-IsRead : (bytes : List ℕ) → IsRead bytes (read_to_newline bytes)
unfolding split_lines
read_to_newline-IsRead [] = refl
read_to_newline-IsRead (c ∷ cs) = elim (Bool-cases (eqb c newline)) [
  | inl e ↦ rw e (omega arith, (c, [], refl), rw e refl)
  | inr e ↦ rw e (IsRead-next c cs (read_to_newline cs) e (read_to_newline-IsRead cs))
]

module _ {T W O E : Type 0} (unmarshal : List ℕ → Try E (Record T O))
    (applier : Applier W O E) where
  -- After the complete lines: a part of a line is ignored at the end of the file, and is an error if
  -- the read broke; if nothing is left, the end is the end, broken or not.
  abbrev pub at_end : List ℕ → Ending E → Option (GoError E)
  at_end [] ending = none
  at_end (c ∷ cs) end_of_file = none
  at_end (c ∷ cs) (broken e) =
      some (wrapped "failed to load record from line" (wrapped "failed to read line" (raised e)))

  abbrev pub after_event :
      W × Option (GoError E) → (W → W × Option (GoError E)) → W × Option (GoError E)
  after_event (w, none) go_on = go_on w
  after_event (w, some e) go_on = (w, some (wrapped "failed to apply event" e))

  abbrev pub replay_line :
      Try E (Record T O) → W → (W → W × Option (GoError E)) → W × Option (GoError E)
  replay_line (ok r) w go_on = after_event (apply_event applier r w) go_on
  replay_line (err e) w go_on = (
    w,
    some (
        wrapped "failed to load record from line"
          (wrapped "failed to unmarshal record" (raised e))),
  )

  -- The events of the lines, one after the other, to the first failure.
  unfoldable pub replay_lines : List (List ℕ) → List ℕ → Ending E → W → W × Option (GoError E)
  unfolding apply_event
  replay_lines [] last ending w = (w, at_end last ending)
  replay_lines (line ∷ lines) last ending w =
      replay_line (unmarshal line) w (replay_lines lines last ending)

  after_event-some :
      (result : W × Option (GoError E)) (slow : W → Option (W × Option (GoError E)))
      (go_on : W → W × Option (GoError E))
      → ((w : W) → slow w ≡ some (go_on w))
      → applied_by unmarshal applier result slow ≡ some (after_event result go_on)
  after_event-some (w, none) slow go_on h = h w
  after_event-some (w, some e) slow go_on h = refl

  replay_line-some :
      (t : Try E (Record T O)) (w : W) (slow : W → Option (W × Option (GoError E)))
      (go_on : W → W × Option (GoError E))
      → ((w : W) → slow w ≡ some (go_on w))
      → loaded_by unmarshal applier
          (unmarshalled unmarshal t)
          w
          (λ r. applied_by unmarshal applier (apply_event applier r w) slow)
        ≡ some (replay_line t w go_on)
  replay_line-some (ok r) w slow go_on h = after_event-some (apply_event applier r w) slow go_on h
  replay_line-some (err e) w slow go_on h = refl

  load_from-end :
      (last : List ℕ) (ending : Ending E) (w : W)
      (go_on : Record T O → Option (W × Option (GoError E)))
      → loaded_by unmarshal applier (load_from unmarshal last false ending) w go_on
        ≡ some (w, at_end last ending)
  load_from-end [] ending w go_on = refl
  load_from-end (c ∷ cs) end_of_file w go_on = refl
  load_from-end (c ∷ cs) (broken e) w go_on = refl

  -- What the loop's result is to be.
  abbrev expected : List ℕ → Ending E → W → W × Option (GoError E)
  expected bytes ending w =
      let (lines, last) = split_lines bytes in replay_lines lines last ending w

  turn :
      (n : ℕ) (bytes : List ℕ) (ending : Ending E) (w : W) (read : List ℕ × Bool × List ℕ)
      → IsRead bytes read
      → length bytes < suc n
      → ((rest : List ℕ) (w : W)
          → length rest < n
          → replay_loop unmarshal applier n (record { unread = rest; ending = ending }) w
            ≡ some (expected rest ending w))
      → loaded_by unmarshal applier (load_from unmarshal read.0 read.1 ending) w (λ r.
        applied_by unmarshal applier
          (apply_event applier r w)
          (replay_loop unmarshal applier n (record { unread = read.2; ending = ending })))
        ≡ some (expected bytes ending w)
  unfolding replay_lines
  turn n bytes ending w (line, true, rest) (less, (c, cs, cut), same) enough all =
      rw (same, cut)
        (replay_line-some (unmarshal (c ∷ cs)) w
          (replay_loop unmarshal applier n (record { unread = rest; ending = ending }))
          (expected rest ending) (λ v. all rest v (omega (arith, less, enough))))
  turn n bytes ending w (line, false, rest) same enough all = rw same (
      load_from-end line ending w (λ r.
        applied_by unmarshal applier (apply_event applier r w)
          (replay_loop unmarshal applier n (record { unread = rest; ending = ending }))))

  replay_loop-replay_lines :
      (n : ℕ) (bytes : List ℕ) (ending : Ending E) (w : W)
      → length bytes < n
      → replay_loop unmarshal applier n (record { unread = bytes; ending = ending }) w
        ≡ some (expected bytes ending w)
  unfolding replay_loop load_record_from_line
  replay_loop-replay_lines zero bytes ending w h = absurd (omega (arith, h))
  replay_loop-replay_lines (suc n) bytes ending w h =
      turn n bytes ending w (read_to_newline bytes) (read_to_newline-IsRead bytes) h
        (λ rest v less. replay_loop-replay_lines n rest ending v less)

  -- `Replay` ends on every file: it applies the events of the complete lines one after the other, to
  -- the first line that is no record or the first event that fails, and leaves out what stands after
  -- the last newline. A broken read is an error if it broke in a line, and counts as the end of the
  -- file if it broke between two lines.
  pub replay-replay_lines :
      (reader : Reader E) (w : W)
      → let (lines, last) = split_lines reader.unread in
        replay unmarshal applier (ok reader) w ≡ some (replay_lines lines last reader.ending w)
  unfolding replay
  replay-replay_lines reader w =
      replay_loop-replay_lines (suc (length reader.unread)) reader.unread reader.ending w
        (omega arith)
