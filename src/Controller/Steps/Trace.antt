-- ===== src/Controller/Steps/Trace.antt =====
-- The requests of the steps other than that of the Secrets.
use paperless_ngx_operator.Controller.Apply.{apply_owned, apply_stateful}
use paperless_ngx_operator.Prelude.{
  ℤ, Bool, true, false, String, Option, none, some, List, [], ◌∷◌, Result, ok, err, refl,
  wrap_error-eq-ok,
}
use paperless_ngx_operator.Kube.{Foreign}
use paperless_ngx_operator.Kube.Objects.{
  Object, Secret, PersistentVolumeClaim, ConditionStatus, pvc, unstructured, deployment, service,
}
use paperless_ngx_operator.Api.Types.{PaperlessInstance, ExternalDatabase}
use paperless_ngx_operator.Controller.Client.{Server, Machinery, Request, History}
use paperless_ngx_operator.Controller.Runs.{
  Keeps, SameButStatus, Keeps-bind-lift, Keeps-modify, Keeps-bind, Keeps-call, Keeps-gets,
  Keeps-attempt, Keeps-wrapping, keeps_rules,
}
use paperless_ngx_operator.Controller.Conditions.{set_condition, mark}
use paperless_ngx_operator.Resources.Database.Cluster.{cnpg_cluster-kind}
use paperless_ngx_operator.Controller.Permitted.{
  Allows, IsOperand, apply_owned-Keeps, apply_stateful-Keeps,
}
use paperless_ngx_operator.Controller.Database.{
  report_external, check_external, reconcile_external_database, cnpg_installed, apply_cluster,
  reconcile_managed_database, database_step, reconcile_database,
}
use paperless_ngx_operator.Controller.Steps.{
  apply_pvcs, reconcile_storage, apply_if_some, object_of, reconcile_cache, report_workload,
  reconcile_workload,
}

module _ {F : Foreign} (S : Server F) (K : Machinery F) where
  pub set_condition-SameButStatus :
      (type reason message : String) (status : ConditionStatus) (i : PaperlessInstance F)
      → SameButStatus i (set_condition K i type status reason message)
  unfolding set_condition
  set_condition-SameButStatus type reason message status i = record {
    name = refl;
    namespace = refl;
    uid = refl;
    generation = refl;
    spec = refl;
  }

  pub mark-Keeps :
      {P : Request F → History F → Type 0} (type : String) (status : ConditionStatus)
      (reason message : String)
      → Keeps P (mark K type status reason message)
  mark-Keeps type status reason message =
      Keeps-modify _ (set_condition-SameButStatus type reason message status)

module _ {F : Foreign} (S : Server F) (K : Machinery F) {P : Request F → History F → Type 0}
    (allows : Allows S K P false) where
  pvc-Keeps : (p : PersistentVolumeClaim F) → Keeps P (apply_stateful S K (pvc p))
  pvc-Keeps p = apply_stateful-Keeps S K allows (pvc p) (λ e. e) tt

  apply_pvcs-Keeps : (ps : List (PersistentVolumeClaim F)) → Keeps P (apply_pvcs S K ps)
  unfolding apply_pvcs
  apply_pvcs-Keeps [] = search keeps_rules
  apply_pvcs-Keeps (p ∷ ps) =
      Keeps-bind _ _ (Keeps-wrapping _ _ (pvc-Keeps p)) λ _. apply_pvcs-Keeps ps

  pub reconcile_storage-Keeps : Keeps P (reconcile_storage S K)
  unfolding reconcile_storage
  reconcile_storage-Keeps = search (keeps_rules, apply_pvcs-Keeps)

  report_external-Keeps : (name : String) (o : Option String) → Keeps P (report_external S K name o)
  unfolding report_external
  report_external-Keeps name none = search (keeps_rules, mark-Keeps S K)
  report_external-Keeps name (some key) = search (keeps_rules, mark-Keeps S K)

  check_external-Keeps :
      (name : String) (r : Result (Secret F)) → Keeps P (check_external S K name r)
  unfolding check_external
  check_external-Keeps name (ok s) = report_external-Keeps name _
  check_external-Keeps name (err e) = search (keeps_rules, mark-Keeps S K)

  external-Keeps : (ext : ExternalDatabase) → Keeps P (reconcile_external_database S K ext)
  unfolding reconcile_external_database
  external-Keeps ext = Keeps-bind _ _ (Keeps-gets _) λ inst.
      Keeps-bind _ _ (Keeps-attempt _ (Keeps-call _ _ λ h. allows.secret_read _ h))
        λ r. check_external-Keeps _ r

  cnpg_installed-Keeps : Keeps P (cnpg_installed S K)
  unfolding cnpg_installed
  cnpg_installed-Keeps =
      Keeps-bind _ _ (Keeps-attempt _ (Keeps-call _ _ λ h. allows.crd_read _ h))
        λ r. search keeps_rules

  apply_cluster-Keeps : (installed : Bool) → Keeps P (apply_cluster S K installed)
  unfolding apply_cluster
  apply_cluster-Keeps false = search (keeps_rules, mark-Keeps S K)
  apply_cluster-Keeps true = Keeps-bind _ _ (Keeps-gets _) λ inst.
      Keeps-bind-lift _ _ λ cluster built.
        Keeps-bind _ _
          (Keeps-wrapping _ _ (
            apply_stateful-Keeps S K allows (unstructured cluster) (λ e. e)
              (cnpg_cluster-kind inst cluster (wrap_error-eq-ok _ _ built))))
          λ n. search (keeps_rules, mark-Keeps S K)

  managed-Keeps : Keeps P (reconcile_managed_database S K)
  unfolding reconcile_managed_database
  managed-Keeps = search (keeps_rules, cnpg_installed-Keeps, apply_cluster-Keeps)

  database_step-Keeps : (o : Option ExternalDatabase) → Keeps P (database_step S K o)
  database_step-Keeps none = managed-Keeps
  database_step-Keeps (some ext) = external-Keeps ext

  pub reconcile_database-Keeps : Keeps P (reconcile_database S K)
  unfolding reconcile_database
  reconcile_database-Keeps = search (keeps_rules, database_step-Keeps)

module _ {F : Foreign} (S : Server F) (K : Machinery F) {P : Request F → History F → Type 0}
    (allows : Allows S K P true) where
  owned-Keeps : (obj : Object F) → IsOperand obj → Keeps P (apply_owned S K obj)
  owned-Keeps obj = apply_owned-Keeps S K allows obj (λ _. refl)

  apply_if_some-Keeps :
      {A : Type 0} (f : A → Object F) (prefix : String) (o : Option A)
      → ((a : A) → IsOperand (f a))
      → Keeps P (apply_if_some S K prefix (object_of S K f o))
  unfolding apply_if_some
  apply_if_some-Keeps f prefix none operand = search keeps_rules
  apply_if_some-Keeps f prefix (some a) operand =
      Keeps-bind _ _ (Keeps-wrapping _ _ (owned-Keeps (f a) (operand a))) λ n. search keeps_rules

  pub reconcile_cache-Keeps : Keeps P (reconcile_cache S K)
  unfolding reconcile_cache
  reconcile_cache-Keeps = Keeps-bind _ _ (Keeps-gets _) λ inst.
      Keeps-bind _ _ (apply_if_some-Keeps deployment _ _ (λ d. tt)) λ x.
        Keeps-bind _ _ (apply_if_some-Keeps service _ _ (λ s. tt))
          λ y. apply_if_some-Keeps pvc _ _ (λ p. tt)

  report_workload-Keeps : (n : ℤ) → Keeps P (report_workload S K n)
  unfolding report_workload
  report_workload-Keeps n = search (keeps_rules, mark-Keeps S K)

  pub reconcile_workload-Keeps : Keeps P (reconcile_workload S K)
  unfolding reconcile_workload
  reconcile_workload-Keeps = Keeps-bind _ _ (Keeps-gets _) λ inst.
      Keeps-bind _ _ (Keeps-wrapping _ _ (owned-Keeps _ tt))
        λ x. Keeps-bind _ _ (Keeps-wrapping _ _ (owned-Keeps _ tt)) report_workload-Keeps
