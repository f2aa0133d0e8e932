-- ===== src/Tests/OfStartup.antt =====
-- The theorems of `Startup` on a concrete library and command line.
use paperless_ngx_operator.Prelude.{
  Bool, true, false, String, ◌==◌, ◌&&◌, ◌||◌, none, List, [], ◌∷◌, failure, Result, ok, err, inl,
  inr, ◌≡◌, refl,
}
use paperless_ngx_operator.Prelude.{if◌then◌else◌}
use paperless_ngx_operator.Startup.Options.{group_version}
use paperless_ngx_operator.Startup.Runtime.{secret_type}
use paperless_ngx_operator.Kube.Objects.{deployment, service, pvc, unstructured}
use paperless_ngx_operator.Kube.Access.{Need, needs_of, all_permitted}
use paperless_ngx_operator.Controller.Client.{
  Request, get_instance, get_secret, get_crd, create_secret, apply_patch, merge_patch_secret,
  patch_status,
}
use paperless_ngx_operator.Controller.Runs.{Grows}
use paperless_ngx_operator.Controller.Reconcile.{reconcile}
use paperless_ngx_operator.Controller.Role.{role}
use paperless_ngx_operator.Controller.Role.Authorized.{
  lists_secret, Documented, reconcile-permitted,
}
use paperless_ngx_operator.Tests.Fixtures.{foreign, server, machinery, deleted, key}
use paperless_ngx_operator.Startup.Runtime.{
  GroupVersion, SchemeLibrary, ManagerOptions, CommandLine, World, Call, add_readyz_check,
}
use paperless_ngx_operator.Startup.Options.{controller_options, add_to_scheme, add_known_types}
use paperless_ngx_operator.Startup.Command.{exited, parsed_config, run_manager, set_up, main, ◌>>=◌}
use paperless_ngx_operator.Startup.Command.Stages.{Started, exit_of, main-Started}

-- A scheme is the test whether a kind of a version is recognized.
abbrev Recognized : Type 0
Recognized = GroupVersion → String → Bool

abbrev same_version : GroupVersion → GroupVersion → Bool
same_version a b = (a.group == b.group) && (a.version == b.version)

abbrev is_one_of : List String → String → Bool
is_one_of [] kind = false
is_one_of (k ∷ kinds) kind = (k == kind) || is_one_of kinds kind

abbrev build : List (Recognized → Result Recognized) → Recognized → Result Recognized
build [] s = ok s
build (f ∷ fs) s = let rest = build fs in elim (f s) [ ok t ↦ rest t | err e ↦ err e ]

abbrev library : SchemeLibrary
library = record {
  Scheme = Recognized;
  new_scheme = λ gv kind. false;
  clientgo_add_to_scheme = λ s. ok λ gv kind. (kind == "Deployment") || s gv kind;
  add_known_types =
      λ gv kinds s other kind. (same_version gv other && is_one_of kinds kind) || s other kind;
  add_to_group_version = λ gv s. s;
  builder_add_to_scheme = build;
}

-- A command line that sets no flag, and a world in which the readiness check is refused.
abbrev unset : CommandLine
unset = record { strings = λ name. none; bools = λ name. none }

abbrev refuse_readiness : Call library → Result (Unit {0})
refuse_readiness (add_readyz_check name) =
    err (failure (record { message = "started"; not_found = false }))
refuse_readiness c = ok tt

abbrev failing : World library
failing = record { flag_parse = λ fs. inr unset; answer = λ h. refuse_readiness }

-- The start ends with a log line and the code 1 where the readiness check cannot be registered.
readiness_fails : (main failing "1.0" "abc" []).0 ≡ inl (exited 1)
unfolding main set_up run_manager ◌>>=◌ controller_options add_to_scheme add_known_types
readiness_fails = refl

main-Started_example :
    Started failing "1.0" "abc"
      (main failing "1.0" "abc" []).1
      (exit_of failing (main failing "1.0" "abc" []).0)
main-Started_example = main-Started failing "1.0" "abc"

-- What the requests need, as the documentation has it, with a cache that is off for Secrets.
abbrev demanded : ManagerOptions library → Request foreign → List Need
demanded o (get_instance k) =
    needs_of "paperless.p3l1.de" "paperlessinstances" ("list" ∷ "watch" ∷ [])
demanded o (get_secret k) =
    needs_of "" "secrets"
      (if lists_secret o.cache_disabled_for then "get" ∷ [] else ("list" ∷ "watch" ∷ []))
demanded o (get_crd name) = needs_of "apiextensions.k8s.io" "customresourcedefinitions" ("get" ∷ [])
demanded o (create_secret s) = needs_of "" "secrets" ("create" ∷ [])
demanded o (merge_patch_secret k body) = needs_of "" "secrets" ("patch" ∷ [])
demanded o (patch_status sent base) =
    needs_of "paperless.p3l1.de" "paperlessinstances/status" ("patch" ∷ [])
demanded o (apply_patch (deployment d) body) =
    needs_of "apps" "deployments" ("patch" ∷ "create" ∷ [])
demanded o (apply_patch (service s) body) = needs_of "" "services" ("patch" ∷ "create" ∷ [])
demanded o (apply_patch (pvc p) body) =
    needs_of "" "persistentvolumeclaims" ("patch" ∷ "create" ∷ [])
demanded o (apply_patch (unstructured u) body) =
    needs_of "postgresql.cnpg.io" "clusters" ("patch" ∷ "create" ∷ [])

demanded-Documented : Documented library demanded
demanded-Documented = record {
  instance_read = λ o k. (inr (inl refl), (inr (inr (inl refl)), tt));
  secret_uncached = λ o k off. rw off (inl refl, tt);
  crd_read = λ o name. (inl refl, tt);
  secret_created = λ o s. (inl refl, tt);
  secret_patched = λ o k body. (inl refl, tt);
  status_patched = λ o sent base. (inl refl, tt);
  deployment_applied = λ o d body. (inl refl, (inr (inl refl), tt));
  service_applied = λ o s body. (inl refl, (inr (inl refl), tt));
  pvc_applied = λ o p body. (inl refl, (inr (inl refl), tt));
  cluster_applied = λ o u body version kind. (inl refl, (inr (inl refl), tt));
}

-- The options for a command line that sets no flag.
abbrev made_options : ManagerOptions library
made_options = record {
  scheme = λ other kind.
      (same_version group_version other
        && is_one_of ("PaperlessInstance" ∷ "PaperlessInstanceList" ∷ []) kind)
      || ((kind == "Deployment") || false);
  cache_disabled_for = secret_type ∷ [];
  metrics_bind_address = ":8080";
  health_probe_bind_address = ":8081";
  leader_election = false;
  leader_election_id = "paperless-ngx-operator.paperless.p3l1.de";
}

made_options_lem : controller_options library (parsed_config unset) ≡ ok made_options
unfolding controller_options add_to_scheme add_known_types
made_options_lem = refl

reconcile-permitted_example :
    Grows
      (λ q k. all_permitted role (demanded made_options q) ≡ true)
      []
      (reconcile (server deleted) machinery key []).1
reconcile-permitted_example =
    reconcile-permitted library demanded demanded-Documented (server deleted) machinery
      (parsed_config unset) made_options key [] made_options_lem
