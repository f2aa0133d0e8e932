-- ===== src/Controller/Desired/Targets/Whole.antt =====
-- The places of what the steps and a whole reconcile apply, however they end
-- (internal/controller/paperlessinstance_controller.go, internal/controller/deletion_policy.go).
use paperless_ngx_operator.Prelude.{
  ℤ, Bool, true, false, String, Option, none, some, ◌∷◌, ◌++◌, Result, ok, err, ◌≡◌, sym, ap, ◌∙◌,
  wrap_error-eq-ok,
}
use paperless_ngx_operator.Kube.{Foreign}
use paperless_ngx_operator.Kube.Objects.{ObjectKey, deployment, service, pvc, unstructured}
use paperless_ngx_operator.Api.Types.{PaperlessInstance, ExternalDatabase}
use paperless_ngx_operator.Resources.Storage.{pvcs}
use paperless_ngx_operator.Resources.Cache.{valkey_deployment, valkey_service, valkey_pvc}
use paperless_ngx_operator.Resources.Database.{cnpg_cluster}
use paperless_ngx_operator.Controller.Client.{
  Server, Machinery, History, M, State, get_instance, ◌>>=◌,
}
use paperless_ngx_operator.Controller.Runs.{
  Keeps, Keeps-pure, Keeps-wrapping, Keeps-bind, Grows, same, more, Grows-trans, keeps_rules,
}
use paperless_ngx_operator.Controller.Runs.From.{
  From, From-Keeps, From-bind, From-current, From-wrapping, From-attempt, From-bind-lift,
}
use paperless_ngx_operator.Controller.Steps.{
  reconcile_storage, reconcile_cache, report_workload, reconcile_workload,
}
use paperless_ngx_operator.Controller.Steps.Trace.{mark-Keeps, set_condition-SameButStatus}
use paperless_ngx_operator.Controller.Database.{
  apply_cluster, reconcile_managed_database, database_step, reconcile_database,
}
use paperless_ngx_operator.Controller.Reconcile.{
  fail_step, settle, step, after_database, reconcile_instance, patch_status_of, reconcile_found,
  reconcile, seeded,
}
use paperless_ngx_operator.Controller.Desired.{
  Slot, wanted, storage_wants, database_wants, cache_wants, workload_wants,
}
use paperless_ngx_operator.Controller.Desired.Quiet.{
  reconcile_secrets-NoApply, reconcile_external_database-NoApply, cnpg_installed-NoApply,
}
use paperless_ngx_operator.Controller.Desired.Targets.{
  AppliesIn, quiet-Keeps, apply_owned-Keeps, apply_stateful-Keeps, apply_pvcs-Keeps,
  apply_if_some-Keeps, slots-split, Inside, Inside-version, built_cluster,
}

module _ {F : Foreign} (S : Server F) (K : Machinery F) (P : Slot → Type 0)
    (i : PaperlessInstance F) (inside : Inside P i) where
  reconcile_storage-From : From i (AppliesIn P) (reconcile_storage S K)
  unfolding reconcile_storage storage_wants
  reconcile_storage-From = From-current _ λ j version.
      From-Keeps _ (apply_pvcs-Keeps S K P (pvcs j) (Inside-version version inside).storage)

  reconcile_cache-From : From i (AppliesIn P) (reconcile_cache S K)
  unfolding reconcile_cache cache_wants
  reconcile_cache-From = From-current _ λ j version.
      let (d, rest) =
        slots-split P (wanted deployment (valkey_deployment j))
          (wanted service (valkey_service j) ++ wanted pvc (valkey_pvc j))
          (Inside-version version inside).cache in
      let (s, p) =
        slots-split P (wanted service (valkey_service j)) (wanted pvc (valkey_pvc j)) rest in
      From-Keeps _ (
        Keeps-bind _ _ (apply_if_some-Keeps S K P deployment _ _ d) λ x.
          Keeps-bind _ _ (apply_if_some-Keeps S K P service _ _ s)
            λ y. apply_if_some-Keeps S K P pvc _ _ p)

  report_workload-Keeps : (n : ℤ) → Keeps (AppliesIn P) (report_workload S K n)
  unfolding report_workload
  report_workload-Keeps n = search (keeps_rules, mark-Keeps S K)

  reconcile_workload-From : From i (AppliesIn P) (reconcile_workload S K)
  unfolding reconcile_workload workload_wants
  reconcile_workload-From = From-current _ λ j version.
      let places = (Inside-version version inside).workload in
      From-Keeps _ (
        Keeps-bind _ _ (Keeps-wrapping _ _ (apply_owned-Keeps S K P _ places.0)) λ x.
          Keeps-bind _ _ (Keeps-wrapping _ _ (apply_owned-Keeps S K P _ places.1.0))
            report_workload-Keeps)

  apply_cluster-From :
      (installed : Bool)
      → i.spec.database.external ≡ none
      → From i (AppliesIn P) (apply_cluster S K installed)
  unfolding apply_cluster database_wants
  apply_cluster-From false managed = From-Keeps _ (search (keeps_rules, mark-Keeps S K))
  apply_cluster-From true managed = From-current _ λ j version. From-bind-lift _ _ λ c built.
      From-bind _ _
        (From-wrapping _ _ (
          From-Keeps _ (
            apply_stateful-Keeps S K P (unstructured c) (
              built_cluster P c j.spec.database.external (cnpg_cluster j)
                (ap (λ x. x.database.external) (sym version.spec) ∙ managed)
                (wrap_error-eq-ok _ _ built) (Inside-version version inside).database))))
        λ n. From-Keeps _ (search (keeps_rules, mark-Keeps S K))

  database_step-From :
      (o : Option ExternalDatabase)
      → i.spec.database.external ≡ o
      → From i (AppliesIn P) (database_step S K o)
  unfolding reconcile_managed_database
  database_step-From (some ext) is =
      From-Keeps _ (quiet-Keeps S K P _ (reconcile_external_database-NoApply S K ext))
  database_step-From none is =
      From-bind _ _
        (From-wrapping _ _ (From-Keeps _ (quiet-Keeps S K P _ (cnpg_installed-NoApply S K))))
        λ installed. apply_cluster-From installed is

  reconcile_database-From : From i (AppliesIn P) (reconcile_database S K)
  unfolding reconcile_database
  reconcile_database-From =
      From-current _ λ j version. database_step-From _ (ap (λ x. x.database.external) version.spec)

  settle-Keeps :
      {A : Type 0} (reason prefix : String) (r : Result A)
      → Keeps (AppliesIn P) (settle S K reason prefix r)
  unfolding fail_step
  settle-Keeps reason prefix (ok a) = search keeps_rules
  settle-Keeps reason prefix (err e) = search (keeps_rules, mark-Keeps S K)

  step-From :
      {A B : Type 0} (reason prefix : String) (m : M F A) (f : A → M F B)
      → From i (AppliesIn P) m
      → ((a : A) → From i (AppliesIn P) (f a))
      → From i (AppliesIn P) (step S K reason prefix m >>= f)
  step-From reason prefix m f k rest =
      From-bind _ _
        (From-bind _ _ (From-attempt _ k) λ r. From-Keeps _ (settle-Keeps reason prefix r)) rest

  after_database-From : (ready : Bool) → From i (AppliesIn P) (after_database S K ready)
  unfolding after_database
  after_database-From false = From-Keeps _ (search (keeps_rules, mark-Keeps S K))
  after_database-From true =
      step-From _ _ _ _ reconcile_cache-From
        λ x. step-From _ _ _ _ reconcile_workload-From λ y. From-Keeps _ (Keeps-pure _)

  reconcile_instance-From : From i (AppliesIn P) (reconcile_instance S K)
  unfolding reconcile_instance
  reconcile_instance-From =
      step-From _ _ _ _ (From-Keeps _ (quiet-Keeps S K P _ (reconcile_secrets-NoApply S K))) λ x.
        step-From _ _ _ _ reconcile_storage-From
          λ y. step-From _ _ _ _ reconcile_database-From after_database-From

  pub reconcile-AppliesIn :
      (key : ObjectKey) (h : History F)
      → S.instance_answer h key ≡ ok i
      → Grows (AppliesIn P) h (reconcile S K key h).1
  unfolding reconcile reconcile_found patch_status_of ◌>>=◌
  reconcile-AppliesIn key h found =
      let begun : State F = record { inst = seeded S K i; history = get_instance key ∷ h } in
      rw found (
        Grows-trans (more _ same tt) (
          more _
            (reconcile_instance-From.at begun (set_condition-SameButStatus S K _ _ _ _ i)).grows
            tt))
