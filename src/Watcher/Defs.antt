-- ===== src/Watcher/Defs.antt =====
-- simulator/resourcewatcher/eventproxy.go: the list that is sent first, and the watch loop. The stream
-- writer is a parameter on its state `W`. An object is `none` if it is no metav1.Object. The loop's
-- input is the events that it receives, and how it ends: stopped, or by a closed channel.
use semvi_btp.Common.{String, Option, none, some, List, [], ◌∷◌, Try, ok, err}
use semvi_btp.Common.Errors.{GoError, raised, message, wrapped}
use Prim.Native.String as Text

pub data EventType : Type 0 where
  added : EventType
  modified : EventType
  deleted : EventType
  bookmark : EventType
  error : EventType
  other : String → EventType

pub record Event (O : Type 0) : Type 0 where
  pub event_type : EventType
  pub object : Option O

pub data Ending : Type 0 where
  stopped : Ending
  closed : Ending

-- The proxy's writer on a resource kind, and the texts of the errors that print an object.
pub record Proxy (W O E : Type 0) : Type 0 where
  pub write : EventType → O → W → W × Option E
  pub resource_version : O → String
  pub text_of : O → String
  pub resource_kind : String

-- The last resource version, and the stream.
pub record State (W : Type 0) : Type 0 where
  pub lrv : String
  pub stream : W

module _ {W O E : Type 0} (proxy : Proxy W O E) where
  abbrev pub listed_by : W × Option E → (W → W × Option (GoError E)) → W × Option (GoError E)
  listed_by (w, some e) next = (w, some (wrapped "call Write to return list item" (raised e)))
  listed_by (w, none) next = next w

  unfoldable pub send_listed_items : List O → W → W × Option (GoError E)
  send_listed_items [] w = (w, none)
  send_listed_items (o ∷ os) w = listed_by (proxy.write added o w) (send_listed_items os)

  abbrev pub items_sent : String → State W → W × Option (GoError E) → State W × Option (GoError E)
  items_sent lrv s (w, some e) =
      (record { lrv = s.lrv; stream = w }, some (wrapped "call ListItemsHandle" e))
  items_sent lrv s (w, none) = (record { lrv = lrv; stream = w }, none)

  -- From the list's accessor and its items.
  abbrev pub extract_list_item : Try E String → Try E (List O) → Try (GoError E) (List O × String)
  extract_list_item (err e) items =
      err (wrapped "failed to ListAccessor, unable to understand list result" (raised e))
  extract_list_item (ok lrv) (err e) =
      err (wrapped "failed to ExtractList, unable to understand list result" (raised e))
  extract_list_item (ok lrv) (ok items) = ok (items, lrv)

  abbrev pub handle_list :
      Try (GoError E) (List O × String) → State W → State W × Option (GoError E)
  handle_list (err e) s = (s, some (wrapped "call HandleListItems" e))
  handle_list (ok (items, lrv)) s = items_sent lrv s (send_listed_items items s.stream)

  -- Given what List gives, and what the library reads of a list.
  abbrev pub list_and_handle_items :
      {L : Type 0}
      → Try E L
      → (L → Try E String)
      → (L → Try E (List O))
      → State W
      → State W × Option (GoError E)
  list_and_handle_items (err e) accessor extract s = (s, some (wrapped "failed to list" (raised e)))
  list_and_handle_items (ok list) accessor extract s =
      handle_list (extract_list_item (accessor list) (extract list)) s

  abbrev pub written : W × Option E → W × Option (GoError E)
  written (w, none) = (w, none)
  written (w, some e) = (w, some (wrapped "call Write to watch event" (raised e)))

  abbrev pub about : String → O → GoError E
  about text o =
      message (Text.◌++◌ proxy.resource_kind (Text.◌++◌ ": " (Text.◌++◌ text (proxy.text_of o))))

  -- The switch on the type of the event.
  abbrev pub write_event : EventType → O → W → W × Option (GoError E)
  write_event added o w = written (proxy.write added o w)
  write_event modified o w = written (proxy.write modified o w)
  write_event deleted o w = written (proxy.write deleted o w)
  write_event bookmark o w = (w, none)
  write_event error o w = (w, some (about "get an error watch event " o))
  write_event (other type) o w =
      (w, some (about (Text.◌++◌ "unsupported event type " (Text.◌++◌ type ", object ")) o))

  -- The last version is that of an event that was written.
  abbrev pub after_write :
      String
      → O
      → W × Option (GoError E)
      → (State W → State W × Option (GoError E))
      → State W × Option (GoError E)
  after_write lrv o (w, some e) next = (record { lrv = lrv; stream = w }, some e)
  after_write lrv o (w, none) next = next (record { lrv = proxy.resource_version o; stream = w })

  abbrev pub receive :
      EventType
      → Option O
      → State W
      → (State W → State W × Option (GoError E))
      → State W × Option (GoError E)
  receive type none s next = (s, some (message "failed to cast type to metav1.Object"))
  receive type (some o) s next = after_write s.lrv o (write_event type o s.stream) next

  abbrev pub end_of : Ending → Option (GoError E)
  end_of stopped = none
  end_of closed = some (message "closed channel")

  unfoldable pub watch : List (Event O) → Ending → State W → State W × Option (GoError E)
  watch [] ending s = (s, end_of ending)
  watch (e ∷ es) ending s = receive e.event_type e.object s (watch es ending)
