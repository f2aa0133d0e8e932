-- ===== src/Startup/Runtime.antt =====
-- What the start of the program uses of k8s.io/apimachinery, k8s.io/client-go, flag and
-- sigs.k8s.io/controller-runtime, none of which is code of this repository.
use paperless_ngx_operator.Prelude.{ℕ, Bool, String, Option, List, Error, Result, ◌⊎◌}

-- `schema.GroupVersion`
pub record GroupVersion : Type 0 where
  pub group : String
  pub version : String

-- `runtime.Scheme` with the functions that change one, and `runtime.NewSchemeBuilder(fs...)` with
-- its `AddToScheme`. The Go types of `AddKnownTypes` are given by their names.
pub record SchemeLibrary : Type 1 where
  pub Scheme : Type 0
  pub new_scheme : Scheme
  pub clientgo_add_to_scheme : Scheme → Result Scheme
  pub add_known_types : GroupVersion → List String → Scheme → Scheme
  pub add_to_group_version : GroupVersion → Scheme → Scheme
  pub builder_add_to_scheme : List (Scheme → Result Scheme) → Scheme → Result Scheme

-- The object types that the start of the program names.
pub data ObjectType : Type 0 where
  paperless_instance_type deployment_type service_type persistent_volume_claim_type secret_type :
      ObjectType

-- The fields of `ctrl.Options` that the operator sets.
pub record ManagerOptions (L : SchemeLibrary) : Type 0 where
  pub scheme : L.Scheme
  pub cache_disabled_for : List ObjectType
  pub metrics_bind_address : String
  pub health_probe_bind_address : String
  pub leader_election : Bool
  pub leader_election_id : String

-- A controller as `ctrl.NewControllerManagedBy` builds it: the type it is for, and those whose
-- objects it owns, in the order of the calls.
pub record ControllerBuilder : Type 0 where
  pub for : Option ObjectType
  pub owned : List ObjectType

-- A flag that is bound before `flag.Parse`: its name, default value and usage. `zap_flags` are
-- those of the logger.
pub data Flag : Type 0 where
  string_flag : String → String → String → Flag
  bool_flag : String → Bool → String → Flag
  zap_flags : Flag

-- The flags that the command line sets.
pub record CommandLine : Type 0 where
  pub strings : String → Option String
  pub bools : String → Option Bool

-- The calls that reach outside the program, in the order in which they are made, and the lines
-- of the log.
pub data Call (L : SchemeLibrary) : Type 0 where
  get_config : Call L
  new_manager : ManagerOptions L → Call L
  add_healthz_check : String → Call L
  add_readyz_check : String → Call L
  complete_controller : ControllerBuilder → Call L
  start : Call L

pub data Event (L : SchemeLibrary) : Type 0 where
  called : Call L → Event L
  logged_info : String → String → Event L
  logged_error : Error → String → Event L

-- How the calls are answered, each by any function of what has happened before. The parse of the
-- flags ends the program with an exit code where the command line is malformed or asks for help.
pub record World (L : SchemeLibrary) : Type 0 where
  pub flag_parse : List Flag → ℕ ⊎ CommandLine
  pub answer : List (Event L) → Call L → Result (Unit {0})
