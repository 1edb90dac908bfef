-- ===== src/Snapshot/Tests.antt =====
-- Objects that are their names, on a cluster that is the list of what was applied.
use semvi_btp.Common.{
  ◌≡◌, refl, String, false, none, some, List, [], ◌∷◌, ◌==◌, if◌then◌else◌, returns, Try, ok, err,
}
use semvi_btp.Common.Errors.{raised, message, wrapped}
use semvi_btp.Snapshot.Defs.{
  Kind, pod, node, priority_class, namespace, Resources, ignoring_err,
  ignoring_scheduler_configuration, options_of, is_system_priority_class, is_system_namespace,
  is_ignore_namespace, SchedulerService, Configurations, Client,
}
use semvi_btp.Snapshot.Snap.{snap}
use semvi_btp.Snapshot.Apply.{Task, wait, start_named, apply, load}
use semvi_btp.Snapshot.Convert.{convert_resources}
use semvi_btp.Snapshot.Errors.{OnlyRestartFails, load-OnlyRestartFails}
use semvi_btp.Snapshot.RoundTrip.{load-snap}

abbrev items : Kind → List String
items pod = "web" ∷ []
items node = "node-1" ∷ []
items priority_class = "system-node-critical" ∷ "high" ∷ []
items namespace = "kube-system" ∷ "default" ∷ "team" ∷ []
items other = []

abbrev World : Type 0
World = List String

-- Nodes cannot be applied.
abbrev client : Client World String String String
client = record {
  list = λ kind w. ok (items kind);
  apply = λ kind ns a w. if a == "node-1" then (w, some "forbidden") else (a ∷ w, none);
  claim_uid = λ ns name w. err "not found";
}

abbrev configs : Configurations String
configs = record {
  name = λ a. some a;
  namespace_of = λ a. some "default";
  without_uid = λ a. a;
  without_creation = λ a. a;
  with_type = λ v k a. a;
  phase = λ a. none;
  claim_namespace = λ a. none;
  claim_name = λ a. none;
  with_claim_uid = λ uid a. a;
}

abbrev schedulers : SchedulerService World Unit String
schedulers = record {
  get_scheduler_config = λ w. ok none;
  restart_scheduler = λ config w. (w, some (message "no container"));
  is_disabled = λ e. false;
}

abbrev in_order : List (Task World String) → List (Task World String)
in_order ts = ts

abbrev all_items : Resources String Unit
all_items = record {
  pods = items pod;
  nodes = items node;
  pvs = [];
  pvcs = [];
  storage_classes = [];
  priority_classes = items priority_class;
  scheduler_config = none;
  namespaces = items namespace;
}

-- The system's objects are skipped, and the order is that of the phases.
loaded :
    load client schedulers configs in_order
      (ignoring_scheduler_configuration ∷ ignoring_err ∷ [])
      all_items
      []
    ≡ returns ("web" ∷ "high" ∷ "team" ∷ [], none)
unfolding load apply wait start_named is_system_priority_class is_ignore_namespace
    is_system_namespace
loaded = refl

-- Without IgnoreErr the refused node is the error, after the others of its phase.
refused :
    load client schedulers configs in_order (ignoring_scheduler_configuration ∷ []) all_items []
    ≡ returns (
      "web" ∷ "high" ∷ "team" ∷ [],
      some (
          wrapped "failed to apply()"
            (wrapped "apply resources" (wrapped "apply Node" (raised "forbidden")))),
    )
unfolding load apply wait start_named is_system_priority_class is_ignore_namespace
    is_system_namespace
refused = refl

-- IgnoreErr does not ignore the error of the restart.
restart_failed :
    load client schedulers configs in_order (ignoring_err ∷ []) all_items []
    ≡ returns
        ([], some (wrapped "restart scheduler with loaded configuration" (message "no container")))
unfolding load
restart_failed = refl

load-OnlyRestartFails_example :
    OnlyRestartFails client schedulers configs in_order
      (λ P ts h. h)
      (options_of (ignoring_err ∷ []))
      all_items
      []
      (load client schedulers configs in_order (ignoring_err ∷ []) all_items [])
load-OnlyRestartFails_example =
    load-OnlyRestartFails client schedulers configs in_order (λ P ts h. h) (ignoring_err ∷ [])
      all_items [] refl

abbrev marshal : String → Try String String
marshal o = ok o

abbrev unmarshal : Kind → String → Try String String
unmarshal k text = ok text

load-snap_example :
    (s : Resources String Unit) × (r : Resources String Unit) × (snap client schedulers
        (λ o. o)
        []
        []
      ≡ ok s)
    × (convert_resources marshal unmarshal s ≡ ok r)
    × (load client schedulers configs in_order
          (ignoring_scheduler_configuration ∷ [])
          r
          ("other" ∷ [])
        ≡ load client schedulers configs in_order
            (ignoring_scheduler_configuration ∷ [])
            all_items
            ("other" ∷ []))
load-snap_example =
    load-snap marshal unmarshal (λ k o. o) (λ o. o) (λ o. refl) (λ k o. refl) client schedulers
      client schedulers configs in_order (λ o. o) (λ k o. refl) []
      (ignoring_scheduler_configuration ∷ []) [] ("other" ∷ []) items none (λ k. refl) refl
