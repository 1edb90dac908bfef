-- ===== src/Recorder/Defs.antt =====
-- simulator/recorder/recorder.go: the service, the records that the event handlers make, and what a
-- flush writes. An object of the informer is `none` if it is not an unstructured one. json.Marshal
-- and File.Write are parameters; a write gives the file's new content and an error.
use semvi_btp.Common.{
  ℕ, ◌*◌, String, Option, none, some, List, [], ◌∷◌, ◌++◌, ◌==◌, if◌then◌else◌, Try, ok, err,
}
use semvi_btp.Common.Errors.{GoError, raised, wrapped, chain}
use semvi_btp.Common.Kubernetes.{GroupVersionResource, text, object, no_fields, field, Objects}

abbrev pub Event : Type 0
Event = String

abbrev pub add_event : Event
add_event = "Add"

abbrev pub update_event : Event
update_event = "Update"

abbrev pub delete_event : Event
delete_event = "Delete"

-- Five seconds, in nanoseconds.
abbrev pub default_poll_interval : ℕ
default_poll_interval = 5 * 1000000000

pub record Record (T O : Type 0) : Type 0 where
  pub time : T
  pub event : Event
  pub resource : O

-- Without the client and the mutex.
pub record Service (T O : Type 0) : Type 0 where
  pub gvrs : List GroupVersionResource
  pub path : String
  pub records : List (Record T O)
  pub poll_interval : ℕ

pub record Options : Type 0 where
  pub given_gvrs : Option (List GroupVersionResource)
  pub record_file : String
  pub flush_interval : Option ℕ

abbrev core : String → GroupVersionResource
core name = record { group = ""; version = "v1"; resource = name }

abbrev pub default_gvrs : List GroupVersionResource
default_gvrs =
    core "namespaces"
    ∷ record { group = "scheduling.k8s.io"; version = "v1"; resource = "priorityclasses" }
    ∷ record { group = "storage.k8s.io"; version = "v1"; resource = "storageclasses" }
    ∷ core "persistentvolumeclaims"
    ∷ core "nodes"
    ∷ core "persistentvolumes"
    ∷ core "pods"
    ∷ []

abbrev pub or_default {ℓ} : {A : Type ℓ} → Option A → A → A
or_default none d = d
or_default (some a) d = a

unfoldable pub new : {T O : Type 0} → Options → Service T O
new options = record {
  gvrs = or_default options.given_gvrs default_gvrs;
  path = options.record_file;
  records = [];
  poll_interval = or_default options.flush_interval default_poll_interval;
}

module _ {O : Type 0} (objects : Objects O) where
  -- The object that a delete event keeps.
  abbrev pub delete_object : O → O
  delete_object o = objects.with_object (
      field "apiVersion" (text (objects.get_api_version o)) (
        field "kind" (text (objects.get_kind o)) (
          field "metadata"
            (object (
              field "name" (text (objects.get_name o))
                (field "namespace" (text (objects.get_namespace o)) no_fields)))
            no_fields)))

  abbrev pub recorded_object : Event → O → O
  recorded_object e o = if e == delete_event then delete_object o else o

module _ {T O : Type 0} (objects : Objects O) where
  -- recordEvent, at the time that time.Now gives.
  unfoldable pub record_event : T → Option O → Event → List (Record T O) → List (Record T O)
  record_event now none e records = records
  record_event now (some o) e records =
      records ++ (record { time = now; event = e; resource = recorded_object objects e o } ∷ [])

abbrev pub newline : ℕ
newline = b'\n'

module _ {E : Type 0} where
  abbrev pub marshalled : Try E (List ℕ) → Try (GoError E) (List ℕ)
  marshalled (ok b) = ok b
  marshalled (err e) = err (wrapped "failed to marshal record" (raised e))

module _ {T O E : Type 0} where
  abbrev pub flushed : List ℕ × Option (GoError E) → List (Record T O) × List ℕ × Option (GoError E)
  flushed (after, none) = ([], after, none)
  flushed (after, some e) = ([], after, some (wrapped "failed to append record to file" e))

module _ {T O E : Type 0} (marshal : Record T O → Try E (List ℕ)) where
  -- The loop of appendToFile, from the content so far.
  unfoldable pub contents : List (Record T O) → List ℕ → Try (GoError E) (List ℕ)
  contents [] content = ok content
  contents (r ∷ rs) content =
      chain (marshalled (marshal r)) (λ b. contents rs ((content ++ b) ++ (newline ∷ [])))

  module _ (write : List ℕ → List ℕ → List ℕ × Option E) where
    abbrev pub write_failure : List ℕ × Option E → List ℕ × Option (GoError E)
    write_failure (file, none) = (file, none)
    write_failure (file, some e) = (file, some (wrapped "failed to write record" (raised e)))

    abbrev pub write_contents : List ℕ → Try (GoError E) (List ℕ) → List ℕ × Option (GoError E)
    write_contents file (ok content) = write_failure (write file content)
    write_contents file (err e) = (file, some e)

    abbrev pub append_to_file : List ℕ → List (Record T O) → List ℕ × Option (GoError E)
    append_to_file file records = write_contents file (contents records [])

    -- flushRecords on the service's records and the file: the records left, the file, the error.
    unfoldable pub flush_records :
        List (Record T O) → List ℕ → List (Record T O) × List ℕ × Option (GoError E)
    unfolding contents
    flush_records [] file = ([], file, none)
    flush_records (r ∷ rs) file = flushed (append_to_file file (r ∷ rs))
