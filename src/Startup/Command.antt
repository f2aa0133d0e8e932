-- ===== src/Startup/Command.antt =====
-- cmd/main.go, and SetupWithManager of internal/controller/paperlessinstance_controller.go. The
-- program talks to the outside by calls; what it has called and logged so far is its state.

pub mod Stages
use paperless_ngx_operator.Prelude.{
  ℕ, Bool, true, false, String, Option, none, some, List, [], ◌∷◌, ◌++◌, Error, Result, ok, err,
  ◌⊎◌, inl, inr,
}
use paperless_ngx_operator.Version.{version_string}
use paperless_ngx_operator.Startup.Runtime.{
  SchemeLibrary, ObjectType, paperless_instance_type, deployment_type, service_type,
  persistent_volume_claim_type, ControllerBuilder, ManagerOptions, Flag, string_flag, bool_flag,
  zap_flags, CommandLine, Call, get_config, new_manager, add_healthz_check, add_readyz_check,
  complete_controller, start, Event, called, logged_info, logged_error, World,
}
use paperless_ngx_operator.Startup.Options.{Config, controller_options}

-- How the program ends: `main` returns, `os.Exit`, or a panic.
pub data Exit : Type 0 where
  returned : Exit
  exited : ℕ → Exit
  panicked : Error → Exit

-- What has happened so far, newest first.
abbrev pub Events : SchemeLibrary → Type 0
Events L = List (Event L)

abbrev pub Main : SchemeLibrary → Type 0 → Type 0
Main L A = Events L → (Exit ⊎ A) × Events L

module _ {L : SchemeLibrary} where
  pub pure : {A : Type 0} → A → Main L A
  pure a h = (inr a, h)

  pub exit : {A : Type 0} → Exit → Main L A
  exit x h = (inl x, h)

  pub log : Event L → Main L (Unit {0})
  log e h = (inr tt, e ∷ h)

  -- A call whose error is a value.
  pub call : (Events L → Call L → Result (Unit {0})) → Call L → Main L (Result (Unit {0}))
  call answer c h = (inr (answer h c), called c ∷ h)

  abbrev pub continue : {A B : Type 0} → Exit ⊎ A → (A → Main L B) → Main L B
  continue (inl x) f h = (inl x, h)
  continue (inr a) f h = f a h

  infixl 5 ◌>>=◌ ◌>>◌
  -- Opening this opens the actions above.
  unfoldable pub ◌>>=◌ : {A B : Type 0} → Main L A → (A → Main L B) → Main L B
  unfolding pure exit log call
  ◌>>=◌ m f h = continue (m h).0 f (m h).1

  abbrev pub ◌>>◌ : {A B : Type 0} → Main L A → Main L B → Main L B
  m >> k = m >>= λ _. k

-- The controller of `SetupWithManager`: for the custom resource, owning the kinds that the
-- reconciler applies, except for the Cluster.
abbrev pub for_type : ObjectType → ControllerBuilder → ControllerBuilder
for_type t b = record b { for = some t }

abbrev pub owns : ObjectType → ControllerBuilder → ControllerBuilder
owns t b = record b { owned = b.owned ++ (t ∷ []) }

abbrev pub new_controller_managed_by : ControllerBuilder
new_controller_managed_by = record { for = none; owned = [] }

abbrev pub flags : List Flag
flags =
    string_flag "metrics-bind-address" ":8080" "address the metrics endpoint binds to"
    ∷ string_flag "health-probe-bind-address" ":8081" "address the probe endpoint binds to"
    ∷ bool_flag "leader-elect" false "elect a leader before acting"
    ∷ zap_flags
    ∷ []

-- The value of a flag: its default, unless the command line sets it.
abbrev pub flag_value : {A : Type 0} → A → Option A → A
flag_value default none = default
flag_value default (some v) = v

abbrev pub parsed_config : CommandLine → Config
parsed_config line = record {
  metrics_address = flag_value ":8080" (line.strings "metrics-bind-address");
  probe_address = flag_value ":8081" (line.strings "health-probe-bind-address");
  leader_election = flag_value false (line.bools "leader-elect");
}

module _ {L : SchemeLibrary} (W : World L) where
  unfoldable pub setup_with_manager : Main L (Result (Unit {0}))
  setup_with_manager = call W.answer (
      complete_controller (
        owns persistent_volume_claim_type (
          owns service_type
            (owns deployment_type (for_type paperless_instance_type new_controller_managed_by)))))

  abbrev pub or_stop : ℕ ⊎ CommandLine → Main L CommandLine
  or_stop (inl code) = exit (exited code)
  or_stop (inr line) = pure line

  abbrev pub must : {A : Type 0} → Result A → Main L A
  must (ok a) = pure a
  must (err e) = exit (panicked e)

  -- `ctrl.GetConfigOrDie`
  abbrev pub get_config_or_die : Main L (Unit {0})
  get_config_or_die = do
    r ← call W.answer get_config
    elim r [ ok done ↦ pure tt | err e ↦ exit (exited 1) ]

  -- `if err := ...; err != nil { log.Error(err, message); os.Exit(1) }`
  abbrev pub or_exit : String → Main L (Result (Unit {0})) → Main L (Unit {0})
  or_exit message m = do
    r ← m
    elim r [ ok done ↦ pure tt | err e ↦ do log (logged_error e message); exit (exited 1) ]

  -- What `main` does with the options of the manager.
  unfoldable pub run_manager : ManagerOptions L → Main L (Unit {0})
  run_manager options = do
    or_exit "unable to create manager" (call W.answer (new_manager options))
    or_exit "unable to register health check" (call W.answer (add_healthz_check "healthz"))
    or_exit "unable to register readiness check" (call W.answer (add_readyz_check "readyz"))
    or_exit "unable to create controller" setup_with_manager
    or_exit "manager exited with error" (call W.answer start)

  -- What `main` does after the flags are parsed.
  unfoldable pub set_up : String → String → CommandLine → Main L (Unit {0})
  set_up version commit line = do
    log (logged_info "starting paperless-ngx-operator" (version_string version commit))
    get_config_or_die
    options ← must (controller_options L (parsed_config line))
    run_manager options

  -- `main`, for a version and a commit that the linker has stamped.
  unfoldable pub main : String → String → Main L (Unit {0})
  main version commit = do line ← or_stop (W.flag_parse flags); set_up version commit line
