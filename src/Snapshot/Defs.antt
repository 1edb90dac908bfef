-- ===== src/Snapshot/Defs.antt =====
-- simulator/snapshot/snapshot.go: the resources, the options, and what the service calls. One type
-- holds the objects of all kinds, and one the apply configurations. A pointer that may be nil is an
-- Option.
use semvi_btp.Common.{String, Bool, true, false, ◌||◌, Option, List, [], ◌∷◌, ◌==◌, Try}
use semvi_btp.Common.Errors.{GoError}
use text.Mathlib.Text.{starts_with}

pub data Kind : Type 0 where
  pod : Kind
  node : Kind
  persistent_volume : Kind
  persistent_volume_claim : Kind
  storage_class : Kind
  priority_class : Kind
  namespace : Kind

-- ResourcesForSnap and ResourcesForLoad, for the objects and for the apply configurations.
pub record Resources (X C : Type 0) : Type 0 where
  pub pods : List X
  pub nodes : List X
  pub pvs : List X
  pub pvcs : List X
  pub storage_classes : List X
  pub priority_classes : List X
  pub scheduler_config : Option C
  pub namespaces : List X

pub record Options : Type 0 where
  pub ignore_err : Bool
  pub ignore_scheduler_configuration : Bool

pub data SnapshotOption : Type 0 where
  ignore_err_option : Bool → SnapshotOption
  ignore_scheduler_configuration_option : Bool → SnapshotOption

abbrev pub ignoring_err : SnapshotOption
ignoring_err = ignore_err_option true

abbrev pub ignoring_scheduler_configuration : SnapshotOption
ignoring_scheduler_configuration = ignore_scheduler_configuration_option true

abbrev pub set_option : SnapshotOption → Options → Options
set_option (ignore_err_option b) o = record {
  ignore_err = b;
  ignore_scheduler_configuration = o.ignore_scheduler_configuration;
}
set_option (ignore_scheduler_configuration_option b) o = record {
  ignore_err = o.ignore_err;
  ignore_scheduler_configuration = b;
}

abbrev pub set_options : List SnapshotOption → Options → Options
set_options [] o = o
set_options (x ∷ xs) o = set_options xs (set_option x o)

abbrev pub options_of : List SnapshotOption → Options
options_of xs =
    set_options xs (record { ignore_err = false; ignore_scheduler_configuration = false })

unfoldable pub is_system_priority_class : String → Bool
is_system_priority_class name = starts_with name "system-"

unfoldable pub is_system_namespace : String → Bool
is_system_namespace name = starts_with name "kube-"

unfoldable pub is_ignore_namespace : String → Bool
unfolding is_system_namespace
is_ignore_namespace name = is_system_namespace name || (name == "default")

-- The scheduler service; `is_disabled` is the test for ErrServiceDisabled.
pub record SchedulerService (W C E : Type 0) : Type 0 where
  pub get_scheduler_config : W → Try (GoError E) (Option C)
  pub restart_scheduler : Option C → W → W × Option (GoError E)
  pub is_disabled : GoError E → Bool

-- Accessors of an apply configuration. A volume's phase is nil if its status is.
pub record Configurations (A : Type 0) : Type 0 where
  pub name : A → Option String
  pub namespace_of : A → Option String
  pub without_uid : A → A
  pub without_creation : A → A
  pub with_type : String → String → A → A
  pub phase : A → Option String
  pub claim_namespace : A → Option String
  pub claim_name : A → Option String
  pub with_claim_uid : Option String → A → A

-- The client: lists, forced applies in a namespace, and the UID of a claim.
pub record Client (W O A E : Type 0) : Type 0 where
  pub list : Kind → W → Try E (List O)
  pub apply : Kind → Option String → A → W → W × Option E
  pub claim_uid : String → String → W → Try E String
