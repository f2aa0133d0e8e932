-- ===== src/Startup/Command/Stages.antt =====
-- The stages of the start (cmd/main.go), and the ways in which it can end.
use paperless_ngx_operator.Prelude.{
  ℕ, String, Option, none, some, List, [], ◌∷◌, Error, Result, ok, err, Result-cases, ◌⊎◌, inl, inr,
  ◌≡◌, refl,
}
use paperless_ngx_operator.Version.{version_string}
use paperless_ngx_operator.Startup.Runtime.{
  SchemeLibrary, paperless_instance_type, deployment_type, service_type,
  persistent_volume_claim_type, ControllerBuilder, CommandLine, ManagerOptions, Call, get_config,
  new_manager, add_healthz_check, add_readyz_check, complete_controller, start, called, logged_info,
  logged_error, World,
}
use paperless_ngx_operator.Startup.Options.{Config, controller_options}
use paperless_ngx_operator.Startup.Command.{
  Exit, returned, exited, panicked, Events, Main, ◌>>=◌, ◌>>◌, call, flags, parsed_config, must,
  or_exit, get_config_or_die, setup_with_manager, run_manager, or_stop, set_up, main,
}

-- A call, with the line that is logged where it fails, or a panic.
pub data Stage (L : SchemeLibrary) : Type 0 where
  stage : Call L → Option String → Stage L
  panic : Error → Stage L

abbrev pub log_failure : {L : SchemeLibrary} → Error → Option String → Events L → Events L
log_failure e none h = h
log_failure e (some message) h = logged_error e message ∷ h

-- The controller is for the custom resource and owns Deployments, Services and claims.
abbrev pub controller : ControllerBuilder
controller = record {
  for = some paperless_instance_type;
  owned = deployment_type ∷ service_type ∷ persistent_volume_claim_type ∷ [];
}

module _ {L : SchemeLibrary} where
  abbrev manager_stages : Result (ManagerOptions L) → List (Stage L)
  manager_stages (err e) = panic e ∷ []
  manager_stages (ok options) =
      stage (new_manager options) (some "unable to create manager")
      ∷ stage (add_healthz_check "healthz") (some "unable to register health check")
      ∷ stage (add_readyz_check "readyz") (some "unable to register readiness check")
      ∷ stage (complete_controller controller) (some "unable to create controller")
      ∷ stage start (some "manager exited with error")
      ∷ []

  abbrev pub stages : Config → List (Stage L)
  stages c = stage get_config none ∷ manager_stages (controller_options L c)

  module _ (W : World L) where
    -- The stages run in turn from one history to another, up to the first that fails.
    pub data Ran : List (Stage L) → Events L → Events L → Exit → Type 0 where
      finished : {h : Events L} → Ran [] h h returned
      passed :
          {c : Call L} {message : Option String} {rest : List (Stage L)} {h k : Events L} {x : Exit}
          → W.answer h c ≡ ok tt
          → Ran rest (called c ∷ h) k x
          → Ran (stage c message ∷ rest) h k x
      failed :
          {c : Call L} {message : Option String} {rest : List (Stage L)} {h : Events L} {e : Error}
          → W.answer h c ≡ err e
          → Ran (stage c message ∷ rest) h (log_failure e message (called c ∷ h)) (exited 1)
      panics :
          {rest : List (Stage L)} {h : Events L} {e : Error} → Ran (panic e ∷ rest) h h (panicked e)

    -- The exit code of an outcome: `main` that returns ends the program with 0.
    abbrev pub exit_of : Exit ⊎ Unit {0} → Exit
    exit_of (inl x) = x
    exit_of (inr done) = returned

    or_exit-Ran :
        (c : Call L) (message : String) (rest : List (Stage L)) (m : Main L (Unit {0}))
        (h : Events L)
        → Ran rest (called c ∷ h) (m (called c ∷ h)).1 (exit_of (m (called c ∷ h)).0)
        → Ran
            (stage c (some message) ∷ rest)
            h
            ((or_exit W message (call W.answer c) >> m) h).1
            (exit_of ((or_exit W message (call W.answer c) >> m) h).0)
    unfolding ◌>>=◌
    or_exit-Ran c message rest m h r = elim (Result-cases (W.answer h c)) [
      | inl (done, is) ↦ rw is (passed is r)
      | inr (e, is) ↦ rw is (failed is)
    ]

    last-Ran :
        (c : Call L) (message : String) (h : Events L)
        → Ran
            (stage c (some message) ∷ [])
            h
            (or_exit W message (call W.answer c) h).1
            (exit_of (or_exit W message (call W.answer c) h).0)
    unfolding ◌>>=◌
    last-Ran c message h = elim (Result-cases (W.answer h c)) [
      | inl (done, is) ↦ rw is (passed is finished)
      | inr (e, is) ↦ rw is (failed is)
    ]

    run_manager-Ran :
        (options : ManagerOptions L) (h : Events L)
        → Ran
            (manager_stages (ok options))
            h
            (run_manager W options h).1
            (exit_of (run_manager W options h).0)
    unfolding run_manager setup_with_manager
    run_manager-Ran options h = or_exit-Ran (new_manager options) _ _ _ h (
        or_exit-Ran (add_healthz_check "healthz") _ _ _ _ (
          or_exit-Ran (add_readyz_check "readyz") _ _ _ _
            (or_exit-Ran (complete_controller controller) _ _ _ _ (last-Ran start _ _))))

    options-Ran :
        (r : Result (ManagerOptions L)) (h : Events L)
        → Ran
            (manager_stages r)
            h
            ((must W r >>= run_manager W) h).1
            (exit_of ((must W r >>= run_manager W) h).0)
    unfolding ◌>>=◌
    options-Ran (ok options) h = run_manager-Ran options h
    options-Ran (err e) h = panics

    config-Ran :
        (rest : List (Stage L)) (m : Main L (Unit {0})) (h : Events L)
        → Ran rest
            (called get_config ∷ h)
            (m (called get_config ∷ h)).1
            (exit_of (m (called get_config ∷ h)).0)
        → Ran
            (stage get_config none ∷ rest)
            h
            ((get_config_or_die W >> m) h).1
            (exit_of ((get_config_or_die W >> m) h).0)
    unfolding ◌>>=◌
    config-Ran rest m h r = elim (Result-cases (W.answer h get_config)) [
      | inl (done, is) ↦ rw is (passed is r)
      | inr (e, is) ↦ rw is (failed is)
    ]

    -- How the start ends: the parse of the flags ends it, or the stages run after the first line of the log.
    pub data Started (version commit : String) : Events L → Exit → Type 0 where
      misused : {code : ℕ} → W.flag_parse flags ≡ inl code → Started version commit [] (exited code)
      ran :
          {line : CommandLine} {k : Events L} {x : Exit}
          → W.flag_parse flags ≡ inr line
          → Ran
              (stages (parsed_config line))
              (logged_info "starting paperless-ngx-operator" (version_string version commit) ∷ [])
              k
              x
          → Started version commit k x

    parsed-Started :
        (version commit : String) (r : ℕ ⊎ CommandLine)
        → W.flag_parse flags ≡ r
        → Started version commit
            ((or_stop W r >>= set_up W version commit) []).1
            (exit_of ((or_stop W r >>= set_up W version commit) []).0)
    unfolding ◌>>=◌ set_up
    parsed-Started version commit (inl code) is = misused is
    parsed-Started version commit (inr line) is = ran is (
        config-Ran _ (must W (controller_options L (parsed_config line)) >>= run_manager W) _
          (options-Ran (controller_options L (parsed_config line)) _))

    -- The program parses its flags, and then runs the stages of the configuration in turn up to the
    -- first that fails: it exits with 1 there, after the line of the log for that stage, it panics where
    -- the scheme cannot be built, and it returns only after every stage has succeeded.
    pub main-Started :
        (version commit : String)
        → Started version commit (main W version commit []).1 (exit_of (main W version commit []).0)
    unfolding main
    main-Started version commit = parsed-Started version commit (W.flag_parse flags) refl
