-- ===== src/Watcher/Watched.antt =====
-- The last resource version of the proxy is that of the last event that was written to the stream.
use semvi_btp.Common.{◌≡◌, refl, ap, ◌⊎◌, inl, inr, Option, none, some, List, [], ◌∷◌, ◌++◌}
use semvi_btp.Common.Errors.{GoError, message}
use semvi_btp.Watcher.Defs.{
  Event, Ending, stopped, closed, Proxy, State, write_event, after_write, end_of, receive, watch,
}

module _ {W O E : Type 0} (proxy : Proxy W O E) where
  -- These events are sent one after the other, each without an error, and each sets the version.
  pub data Sent : List (Event O) → State W → State W → Type 0 where
    nothing_sent : {s : State W} → Sent [] s s
    sent_first :
        {e : Event O} {es : List (Event O)} {s t : State W} (o : O) (w : W)
        → e.object ≡ some o
        → write_event proxy e.event_type o s.stream ≡ (w, none)
        → Sent es (record { lrv = proxy.resource_version o; stream = w }) t
        → Sent (e ∷ es) s t

  -- How the loop ends at a state, by what is left of the events. With none left, the state is the
  -- result, and the error that of a closed channel or none. Else the first that is left is the cause:
  -- it has no object, and the state is the result, or its write failed, and the result has the
  -- version of the state and the stream that the write left.
  abbrev pub EndsAt : Ending → List (Event O) → State W → State W × Option (GoError E) → Type 0
  EndsAt stopped [] s result = result ≡ (s, none)
  EndsAt closed [] s result = result ≡ (s, some (message "closed channel"))
  EndsAt ending (e ∷ es) s result =
      ((e.object ≡ none) × (result ≡ (s, some (message "failed to cast type to metav1.Object"))))
      ⊎ ((o : O) × (w : W) × (failure : GoError E) × (e.object ≡ some o)
          × (write_event proxy e.event_type o s.stream ≡ (w, some failure))
          × (result ≡ (record { lrv = s.lrv; stream = w }, some failure)))

  -- The events split into those that were sent, which lead to a state with the version of the
  -- result, and the rest, which say how the loop ends there; without an error there is no rest, and
  -- the state is that of the result.
  pub record IsWatched (es : List (Event O)) (ending : Ending) (s : State W)
      (result : State W × Option (GoError E)) : Type 0 where
    pub sent : List (Event O)
    pub rest : List (Event O)
    pub reached : State W
    pub splits : es ≡ sent ++ rest
    pub all_sent : Sent sent s reached
    pub same_version : result.0.lrv ≡ reached.lrv
    pub ends : EndsAt ending rest reached result
    pub without_error : result.1 ≡ none → (rest ≡ []) × (result.0 ≡ reached)

  IsWatched-written :
      (e : Event O) (es : List (Event O)) (ending : Ending) (s : State W) (o : O)
      (r : W × Option (GoError E)) (next : State W → State W × Option (GoError E))
      → e.object ≡ some o
      → write_event proxy e.event_type o s.stream ≡ r
      → ((t : State W) → IsWatched es ending t (next t))
      → IsWatched (e ∷ es) ending s (after_write proxy s.lrv o r next)
  IsWatched-written e es ending s o (w, some failure) next h k all = record {
    sent = [];
    rest = e ∷ es;
    reached = s;
    splits = refl;
    all_sent = nothing_sent;
    same_version = refl;
    ends = inr (o, w, failure, h, k, refl);
    without_error = λ none_here. absurd cc;
  }
  IsWatched-written e es ending s o (w, none) next h k all =
      let t : State W = record { lrv = proxy.resource_version o; stream = w } in
      let later = all t in
      record {
        sent = e ∷ later.sent;
        rest = later.rest;
        reached = later.reached;
        splits = ap (λ x. e ∷ x) later.splits;
        all_sent = sent_first o w h k later.all_sent;
        same_version = later.same_version;
        ends = later.ends;
        without_error = later.without_error;
      }

  IsWatched-received :
      (e : Event O) (es : List (Event O)) (ending : Ending) (s : State W) (object : Option O)
      (next : State W → State W × Option (GoError E))
      → e.object ≡ object
      → ((t : State W) → IsWatched es ending t (next t))
      → IsWatched (e ∷ es) ending s (receive proxy e.event_type object s next)
  IsWatched-received e es ending s none next h all = record {
    sent = [];
    rest = e ∷ es;
    reached = s;
    splits = refl;
    all_sent = nothing_sent;
    same_version = refl;
    ends = inl (h, refl);
    without_error = λ none_here. absurd cc;
  }
  IsWatched-received e es ending s (some o) next h all =
      IsWatched-written e es ending s o (write_event proxy e.event_type o s.stream) next h refl all

  at_end : (ending : Ending) (s : State W) → EndsAt ending [] s (s, end_of proxy ending)
  at_end stopped s = refl
  at_end closed s = refl

  -- The watch loop sends a first part of the events that it receives, one after the other and each
  -- without an error (a bookmark is passed over), and the last resource version of the proxy is that
  -- of the last of them, or the one from before if there is none. If the part is all the events, the
  -- stream has exactly these, and the loop returns no error when it is stopped, and an error when the
  -- channel was closed. If not, the event after the part is the one that fails: it has no object, and
  -- the stream is as the part left it, or its write failed, and the stream is as that left it, with
  -- the write's error as the result.
  pub watch-IsWatched :
      (es : List (Event O)) (ending : Ending) (s : State W)
      → IsWatched es ending s (watch proxy es ending s)
  unfolding watch
  watch-IsWatched [] ending s = record {
    sent = [];
    rest = [];
    reached = s;
    splits = refl;
    all_sent = nothing_sent;
    same_version = refl;
    ends = at_end ending s;
    without_error = λ h. (refl, refl);
  }
  watch-IsWatched (e ∷ es) ending s =
      IsWatched-received e es ending s e.object (watch proxy es ending) refl
        (watch-IsWatched es ending)
