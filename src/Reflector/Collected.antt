-- ===== src/Reflector/Collected.antt =====
-- What the loops over the stores leave on the pod: every collected result, and the old annotations at
-- other keys.
use semvi_btp.Common.{
  ◌≡◌, refl, String, Bool, true, false, Option, none, some, List, [], ◌∷◌, ◌==◌, eq_refl,
  if◌then◌else◌,
}
use semvi_btp.Common.GoMap.{GoMap, nil_map, made, get, lookup, insert, lookup-insert, entries}
use semvi_btp.Reflector.Defs.{
  Pod, ResultStore, Stores, annotate, with_annotations, take_entries, collect,
}

pub get-annotate :
    (key other value : String) (m : GoMap String)
    → get (annotate key value m) other ≡ (if key == other then some value else get m other)
unfolding lookup
get-annotate key other value nil_map = refl
get-annotate key other value (made m) = lookup-insert key other value m

pub get-annotate_same :
    (key value : String) (m : GoMap String) → get (annotate key value m) key ≡ some value
get-annotate_same key value m = rw (get-annotate key key value m, eq_refl key) refl

abbrev pub or_else : Option String → Option String → Option String
or_else none b = b
or_else (some a) b = some a

-- The annotation at a key is the collected result, if there is one, and else the old annotation.
abbrev pub Overlays : String → Option String → List (String × String) → GoMap String → Type 0
Overlays key old result_set annos = get annos key ≡ or_else (lookup key result_set) old

Overlays-insert :
    (key other value : String) (old : Option String) (result_set : List (String × String))
    (annos : GoMap String)
    → Overlays other old result_set annos
    → Overlays other old (insert key value result_set) (annotate key value annos)
Overlays-insert key other value old result_set annos h =
    rw (get-annotate key other value annos, lookup-insert key other value result_set, h)
      (under (key == other))
  where
    under :
        (t : Bool)
        → (if t then some value else or_else (lookup other result_set) old)
          ≡ or_else (if t then some value else lookup other result_set) old
    under true = refl
    under false = refl

Overlays-take_entries :
    (m : List (String × String)) (key : String) (old : Option String)
    (result_set : List (String × String)) (annos : GoMap String)
    → Overlays key old result_set annos
    → let (all, annotated) = take_entries m result_set annos in Overlays key old all annotated
unfolding take_entries
Overlays-take_entries [] key old result_set annos h = h
Overlays-take_entries ((k, v) ∷ rest) key old result_set annos h =
    Overlays-take_entries rest key old (insert k v result_set) (annotate k v annos)
      (Overlays-insert k key v old result_set annos h)

module _ {S R : Type 0} (store : ResultStore S R) where
  Overlays-collect :
      (pod : Pod R) (stores : Stores S) (key : String) (old : Option String)
      (result_set : List (String × String)) (annos : GoMap String)
      → Overlays key old result_set annos
      → let (after, all, annotated) = collect store pod stores result_set annos in
        Overlays key old all annotated
  unfolding collect
  Overlays-collect pod [] key old result_set annos h = h
  Overlays-collect pod ((name, s) ∷ rest) key old result_set annos h =
      let (t, m) = store.get_stored_result (with_annotations pod annos) s in
      let (more, annotated) = take_entries (entries m) result_set annos in
      Overlays-collect pod rest key old more annotated
        (Overlays-take_entries (entries m) key old result_set annos h)

  -- After the loops, an annotation is the collected result at its key, if there is one, and else what
  -- it was before.
  pub collect-Overlays :
      (pod : Pod R) (stores : Stores S) (key : String)
      → let (after, all, annotated) = collect store pod stores [] pod.annotations in
        Overlays key (get pod.annotations key) all annotated
  unfolding lookup
  collect-Overlays pod stores key =
      Overlays-collect pod stores key (get pod.annotations key) [] pod.annotations refl
