-- ===== src/Recorder/Log.antt =====
-- What the file holds: the lines of all recorded events, in order.
use semvi_btp.Common.{
  ◌≡◌, refl, ap, subst, sym, ◌∙◌, ℕ, ◌≤◌, Option, none, some, List, [], ◌∷◌, ◌++◌, Try, ok, err,
  arith,
}
use semvi_btp.Common.Errors.{GoError, chain}
use semvi_btp.Common.Kubernetes.{Objects}
use mathlib.Core.List.{append_assoc, append-nil}
use semvi_btp.Recorder.Defs.{
  Event, add_event, update_event, delete_event, Record, newline, marshalled, contents,
  write_failure, write_contents, flushed, record_event, flush_records,
}
use semvi_btp.Recorder.Loop.{
  Notice, added, updated, deleted, Step, notified, ticked, Recording, handle, logged, flush, step,
  steps, record_until_done,
}

module _ {T O E : Type 0} (marshal : Record T O → Try E (List ℕ)) where
  abbrev pub line : Try E (List ℕ) → List ℕ
  line (ok b) = b ++ (newline ∷ [])
  line (err e) = []

  -- The lines of the records, one for each record.
  unfoldable pub lines : List (Record T O) → List ℕ
  lines [] = []
  lines (r ∷ rs) = line (marshal r) ++ lines rs

  pub lines-append : (rs qs : List (Record T O)) → lines (rs ++ qs) ≡ lines rs ++ lines qs
  unfolding lines
  lines-append [] qs = refl
  lines-append (r ∷ rs) qs =
      ap (λ x. line (marshal r) ++ x) (lines-append rs qs)
      ∙ sym (append_assoc (line (marshal r)) (lines rs) (lines qs))

  -- A marshalled batch is the lines of its records.
  abbrev IsLines : List (Record T O) → List ℕ → Try (GoError E) (List ℕ) → Type 0
  IsLines rs acc (ok content) = content ≡ acc ++ lines rs
  IsLines rs acc (err e) = Unit

  next-IsLines :
      (r : Record T O) (rs : List (Record T O)) (acc : List ℕ) (m : Try E (List ℕ))
      → marshal r ≡ m
      → ((b : List ℕ) → IsLines rs b (contents marshal rs b))
      → IsLines
          (r ∷ rs)
          acc
          (chain (marshalled m) (λ b. contents marshal rs ((acc ++ b) ++ (newline ∷ []))))
  unfolding lines
  next-IsLines r rs acc (err e) h all = tt
  next-IsLines r rs acc (ok b) h all =
      let next = (acc ++ b) ++ (newline ∷ []) in moved (contents marshal rs next) (all next)
    where
      moved :
          (t : Try (GoError E) (List ℕ))
          → IsLines rs ((acc ++ b) ++ (newline ∷ [])) t
          → IsLines (r ∷ rs) acc t
      moved (ok content) e =
          e
          ∙ ap (λ x. x ++ lines rs) (append_assoc acc b (newline ∷ []))
          ∙ append_assoc acc (b ++ (newline ∷ [])) (lines rs)
          ∙ ap (λ m. acc ++ (line m ++ lines rs)) (sym h)
      moved (err e) u = tt

  contents-IsLines :
      (rs : List (Record T O)) (acc : List ℕ) → IsLines rs acc (contents marshal rs acc)
  unfolding contents lines
  contents-IsLines [] acc = sym (append-nil acc)
  contents-IsLines (r ∷ rs) acc = next-IsLines r rs acc (marshal r) refl (contents-IsLines rs)

module _ {T O : Type 0} (objects : Objects O) where
  -- The records that these steps make.
  unfoldable pub recorded : List (Step T O) → List (Record T O)
  recorded [] = []
  recorded (notified now n ∷ xs) = handle objects now n [] ++ recorded xs
  recorded (ticked ∷ xs) = recorded xs

  recorded_cons :
      (x : Step T O) (xs : List (Step T O)) → recorded (x ∷ xs) ≡ recorded (x ∷ []) ++ recorded xs
  unfolding recorded
  recorded_cons (notified now n) xs =
      ap (λ x. x ++ recorded xs) (sym (append-nil (handle objects now n [])))
  recorded_cons ticked xs = refl

  record_event-append :
      (now : T) (obj : Option O) (e : Event) (rs : List (Record T O))
      → record_event objects now obj e rs ≡ rs ++ record_event objects now obj e []
  unfolding record_event
  record_event-append now none e rs = sym (append-nil rs)
  record_event-append now (some o) e rs = refl

  handle-append :
      (now : T) (n : Notice O) (rs : List (Record T O))
      → handle objects now n rs ≡ rs ++ handle objects now n []
  handle-append now (added obj) rs = record_event-append now obj add_event rs
  handle-append now (updated old obj) rs = record_event-append now obj update_event rs
  handle-append now (deleted obj) rs = record_event-append now obj delete_event rs

-- A write that does not fail appends its data.
abbrev pub Appends : {E : Type 0} → (List ℕ → List ℕ → List ℕ × Option E) → Type 0
Appends write =
    (file content after : List ℕ) → write file content ≡ (after, none) → after ≡ file ++ content

module _ {T O E : Type 0} (objects : Objects O) (marshal : Record T O → Try E (List ℕ))
    (write : List ℕ → List ℕ → List ℕ × Option E) (appends : Appends write) where
  -- What is in the file and what is to come.
  abbrev total : Recording T O → List ℕ
  total s = s.file ++ lines marshal s.pending

  -- The step adds no failure, or it adds one; without one it adds these lines.
  abbrev Adds : Recording T O → List ℕ → Recording T O → Type 0
  Adds s new t = (s.failures ≤ t.failures) × (t.failures ≡ s.failures → total t ≡ total s ++ new)

  abbrev Wrote : List ℕ → List ℕ × Option (GoError E) → Type 0
  Wrote expected (after, none) = after ≡ expected
  Wrote expected (after, some e) = Unit

  write_failure-Wrote :
      (file content : List ℕ) (w : List ℕ × Option E)
      → write file content ≡ w
      → Wrote (file ++ content) (write_failure marshal write w)
  write_failure-Wrote file content (after, none) h = appends file content after h
  write_failure-Wrote file content (after, some e) h = tt

  write_contents-Wrote :
      (file : List ℕ) (rs : List (Record T O)) (t : Try (GoError E) (List ℕ))
      → IsLines marshal rs [] t
      → Wrote (file ++ lines marshal rs) (write_contents marshal write file t)
  write_contents-Wrote file rs (ok content) h =
      subst (λ x. Wrote (file ++ x) (write_failure marshal write (write file content))) h
        (write_failure-Wrote file content (write file content) refl)
  write_contents-Wrote file rs (err e) h = tt

  flushed-Adds :
      (s : Recording T O) (w : List ℕ × Option (GoError E))
      → Wrote (total s) w
      → Adds s [] (logged objects marshal write s.failures (flushed w))
  unfolding lines
  flushed-Adds s (after, none) h =
      (omega arith, λ same. append-nil after ∙ h ∙ sym (append-nil (total s)))
  flushed-Adds s (after, some e) h = (omega arith, λ more. absurd (omega (arith, more)))

  flush-Adds_by :
      (rs : List (Record T O)) (file : List ℕ) (n : ℕ)
      → let s : Recording T O = record { pending = rs; file = file; failures = n } in
        Adds s [] (flush objects marshal write s)
  unfolding flush_records lines
  flush-Adds_by [] file n = (omega arith, λ same. sym (append-nil (file ++ [])))
  flush-Adds_by (r ∷ rs) file n =
      flushed-Adds (record { pending = r ∷ rs; file = file; failures = n })
        (write_contents marshal write file (contents marshal (r ∷ rs) []))
        (write_contents-Wrote file (r ∷ rs) (contents marshal (r ∷ rs) [])
          (contents-IsLines marshal (r ∷ rs) []))

  flush-Adds : (s : Recording T O) → Adds s [] (flush objects marshal write s)
  flush-Adds s = flush-Adds_by s.pending s.file s.failures

  step-Adds :
      (x : Step T O) (s : Recording T O)
      → Adds s (lines marshal (recorded objects (x ∷ []))) (step objects marshal write x s)
  unfolding lines recorded
  step-Adds (notified now n) s = (
    omega arith,
    λ same.
        ap (λ rs. s.file ++ lines marshal rs) (handle-append objects now n s.pending)
        ∙ ap (λ x. s.file ++ x) (lines-append marshal s.pending (handle objects now n []))
        ∙ sym (
            append_assoc s.file (lines marshal s.pending) (lines marshal (handle objects now n [])))
        ∙ ap (λ rs. total s ++ lines marshal rs) (sym (append-nil (handle objects now n []))),
  )
  step-Adds ticked s = flush-Adds s

  Adds-trans :
      (s t u : Recording T O) (first second : List ℕ)
      → Adds s first t
      → Adds t second u
      → Adds s (first ++ second) u
  Adds-trans s t u first second (le, eq) (more, same) = (
    omega (arith, le, more),
    λ h.
        same (omega (arith, le, more, h))
        ∙ ap (λ x. x ++ second) (eq (omega (arith, le, more, h)))
        ∙ append_assoc (total s) first second,
  )

  steps-Adds :
      (xs : List (Step T O)) (s : Recording T O)
      → Adds s (lines marshal (recorded objects xs)) (steps objects marshal write xs s)
  unfolding steps recorded lines
  steps-Adds [] s = (omega arith, λ same. sym (append-nil (total s)))
  steps-Adds (x ∷ xs) s =
      let t = step objects marshal write x s in
      let u = steps objects marshal write xs t in
      let e = recorded_cons objects x xs in
      subst (λ rs. Adds s rs u)
        (sym (lines-append marshal (recorded objects (x ∷ [])) (recorded objects xs))
          ∙ ap (λ rs. lines marshal rs) (sym e))
        (Adds-trans s t u (lines marshal (recorded objects (x ∷ [])))
          (lines marshal (recorded objects xs)) (step-Adds x s) (steps-Adds xs t))

  flushed-empties :
      (n : ℕ) (w : List ℕ × Option (GoError E))
      → (logged objects marshal write n (flushed w)).pending ≡ []
  flushed-empties n (after, none) = refl
  flushed-empties n (after, some e) = refl

  flush-empties :
      (rs : List (Record T O)) (file : List ℕ) (n : ℕ)
      → (logged objects marshal write n (flush_records marshal write rs file)).pending ≡ []
  unfolding flush_records
  flush-empties [] file n = refl
  flush-empties (r ∷ rs) file n =
      flushed-empties n (write_contents marshal write file (contents marshal (r ∷ rs) []))

  -- Nothing waits at the end of the recording, whether the flushes fail or not. If none fails, the
  -- file has got the lines of the records that waited at the start and then of the recorded events,
  -- each once and in order, however the ticks of the flush timer interleave with the events. A write
  -- that does not fail appends its data.
  pub record_until_done-lines :
      (xs : List (Step T O)) (s : Recording T O)
      → ((record_until_done objects marshal write xs s).pending ≡ [])
        × ((record_until_done objects marshal write xs s).failures ≡ s.failures
            → (record_until_done objects marshal write xs s).file
              ≡ (s.file ++ lines marshal s.pending) ++ lines marshal (recorded objects xs))
  unfolding record_until_done lines
  record_until_done-lines xs s =
      let t = steps objects marshal write xs s in
      let u = flush objects marshal write t in
      let empty = flush-empties t.pending t.file t.failures in
      let new = lines marshal (recorded objects xs) in
      let (le, adds) = Adds-trans s t u new [] (steps-Adds xs s) (flush-Adds t) in
      (
        empty,
        λ h.
            sym (append-nil u.file)
            ∙ ap (λ rs. u.file ++ lines marshal rs) (sym empty)
            ∙ adds h
            ∙ ap (λ x. total s ++ x) (append-nil new),
      )
