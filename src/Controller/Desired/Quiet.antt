-- ===== src/Controller/Desired/Quiet.antt =====
-- The parts of a reconcile that apply nothing
-- (internal/controller/paperlessinstance_controller.go, internal/controller/deletion_policy.go).
use paperless_ngx_operator.Prelude.{
  ℤ, Bool, true, false, String, Option, none, some, Result, ok, err,
}
use paperless_ngx_operator.Kube.{Foreign}
use paperless_ngx_operator.Kube.Objects.{ObjectMeta, Secret}
use paperless_ngx_operator.Api.Types.{ExternalDatabase}
use paperless_ngx_operator.Controller.Client.{Server, Machinery}
use paperless_ngx_operator.Controller.Runs.{
  Keeps, Keeps-bind, Keeps-call, Keeps-gets, Keeps-attempt, Keeps-wrapping, keeps_rules,
}
use paperless_ngx_operator.Controller.Steps.Trace.{mark-Keeps}
use paperless_ngx_operator.Controller.Secrets.{
  Builder, wanted_references, patch_ownership, reconcile_secret_ownership, generate,
  create_generated, after_get, ensure_generated_secret, reconcile_secrets,
}
use paperless_ngx_operator.Controller.Database.{
  report_external, check_external, reconcile_external_database, cnpg_installed,
}
use paperless_ngx_operator.Controller.Steps.{report_workload}
use paperless_ngx_operator.Controller.Desired.Places.{NoApply}

module _ {F : Foreign} (S : Server F) (K : Machinery F) where
  wanted_references-NoApply :
      (want : Bool) (meta : ObjectMeta F) → Keeps NoApply (wanted_references S K want meta)
  wanted_references-NoApply true meta = search keeps_rules
  wanted_references-NoApply false meta = search keeps_rules

  patch_ownership-NoApply :
      (want : Bool) (secret : Secret F) → Keeps NoApply (patch_ownership S K want secret)
  unfolding patch_ownership
  patch_ownership-NoApply want secret =
      Keeps-bind _ _ (wanted_references-NoApply want secret.metadata) λ refs.
        Keeps-bind _ _ (search keeps_rules) λ list.
          Keeps-bind _ _ (search keeps_rules) λ body. Keeps-wrapping _ _ (Keeps-call _ _ λ h. tt)

  reconcile_secret_ownership-NoApply :
      (secret : Secret F) → Keeps NoApply (reconcile_secret_ownership S K secret)
  unfolding reconcile_secret_ownership
  reconcile_secret_ownership-NoApply secret = search (keeps_rules, patch_ownership-NoApply)

  create_generated-NoApply :
      (name : String) (o : Option (Secret F)) → Keeps NoApply (create_generated S K name o)
  unfolding create_generated
  create_generated-NoApply name none = search keeps_rules
  create_generated-NoApply name (some c) =
      Keeps-bind _ _ (search keeps_rules) λ meta. Keeps-wrapping _ _ (Keeps-call _ _ λ h. tt)

  generate-NoApply : (build : Builder F) → Keeps NoApply (generate S K build)
  generate-NoApply build = search keeps_rules

  after_get-NoApply :
      (name : String) (build : Builder F) (r : Result (Secret F))
      → Keeps NoApply (after_get S K name build r)
  unfolding after_get
  after_get-NoApply name build (ok existing) = reconcile_secret_ownership-NoApply existing
  after_get-NoApply name build (err e) =
      search (keeps_rules, generate-NoApply, create_generated-NoApply)

  ensure_generated_secret-NoApply :
      (name : String) (build : Builder F) → Keeps NoApply (ensure_generated_secret S K name build)
  unfolding ensure_generated_secret
  ensure_generated_secret-NoApply name build = Keeps-bind _ _ (Keeps-gets _) λ i.
      Keeps-bind _ _ (Keeps-attempt _ (Keeps-call _ _ λ h. tt)) λ r. after_get-NoApply name build r

  pub reconcile_secrets-NoApply : Keeps NoApply (reconcile_secrets S K)
  unfolding reconcile_secrets
  reconcile_secrets-NoApply = search (keeps_rules, ensure_generated_secret-NoApply)

  report_external-NoApply :
      (name : String) (o : Option String) → Keeps NoApply (report_external S K name o)
  unfolding report_external
  report_external-NoApply name none = search (keeps_rules, mark-Keeps S K)
  report_external-NoApply name (some key) = search (keeps_rules, mark-Keeps S K)

  check_external-NoApply :
      (name : String) (r : Result (Secret F)) → Keeps NoApply (check_external S K name r)
  unfolding check_external
  check_external-NoApply name (ok s) = report_external-NoApply name _
  check_external-NoApply name (err e) = search (keeps_rules, mark-Keeps S K)

  pub reconcile_external_database-NoApply :
      (ext : ExternalDatabase) → Keeps NoApply (reconcile_external_database S K ext)
  unfolding reconcile_external_database
  reconcile_external_database-NoApply ext =
      Keeps-bind _ _ (Keeps-gets _) λ i.
        Keeps-bind _ _ (Keeps-attempt _ (Keeps-call _ _ λ h. tt)) λ r. check_external-NoApply _ r

  pub cnpg_installed-NoApply : Keeps NoApply (cnpg_installed S K)
  unfolding cnpg_installed
  cnpg_installed-NoApply =
      Keeps-bind _ _ (Keeps-attempt _ (Keeps-call _ _ λ h. tt)) λ r. search keeps_rules

  pub report_workload-NoApply : (n : ℤ) → Keeps NoApply (report_workload S K n)
  unfolding report_workload
  report_workload-NoApply n = search (keeps_rules, mark-Keeps S K)
