-- ===== src/Watcher/Tests.antt =====
-- A stream that is the list of the objects that were written, and takes no object 9.
use semvi_btp.Common.{◌≡◌, refl, ℕ, String, none, some, List, [], ◌∷◌, eqb, if◌then◌else◌, ok}
use semvi_btp.Common.Errors.{raised, wrapped}
use semvi_btp.Watcher.Defs.{
  Event, added, modified, bookmark, stopped, Proxy, State, watch, send_listed_items,
  list_and_handle_items,
}
use semvi_btp.Watcher.Watched.{IsWatched, watch-IsWatched}

abbrev version : ℕ → String
version n = if eqb n 1 then "v1" else if eqb n 2 then "v2" else "later"

abbrev proxy : Proxy (List ℕ) ℕ String
proxy = record {
  write = λ type o w. if eqb o 9 then (w, some "broken pipe") else (o ∷ w, none);
  resource_version = version;
  text_of = λ o. "object";
  resource_kind = "pods";
}

abbrev start : State (List ℕ)
start = record { lrv = ""; stream = [] }

abbrev events : List (Event ℕ)
events =
    record { event_type = added; object = some 1 }
    ∷ record { event_type = bookmark; object = some 2 }
    ∷ record { event_type = modified; object = some 9 }
    ∷ record { event_type = added; object = some 3 }
    ∷ []

watched : watch proxy events stopped start ≡ (
  record { lrv = "v2"; stream = 1 ∷ [] },
  some (wrapped "call Write to watch event" (raised "broken pipe")),
)
unfolding watch
watched = refl

watch-IsWatched_example : IsWatched proxy events stopped start (watch proxy events stopped start)
watch-IsWatched_example = watch-IsWatched proxy events stopped start

listed :
    list_and_handle_items proxy (ok tt) (λ l. ok "v7") (λ l. ok (1 ∷ 2 ∷ [])) start
    ≡ (record { lrv = "v7"; stream = 2 ∷ 1 ∷ [] }, none)
unfolding send_listed_items
listed = refl
