-- ===== src/Controller/Cost/Steps.antt =====
-- The requests of each step of a reconcile, counted.
use paperless_ngx_operator.Prelude.{
  ℤ, Bool, true, false, String, Option, none, some, List, [], ◌∷◌, Result, ok, err, arith, length,
}
use paperless_ngx_operator.Kube.{Foreign}
use paperless_ngx_operator.Kube.Objects.{
  ObjectMeta, Object, Secret, PersistentVolumeClaim, ConditionStatus, pvc, unstructured,
}
use paperless_ngx_operator.Api.Types.{ExternalDatabase}
use paperless_ngx_operator.Resources.Secrets.{secret_key, admin_secret}
use paperless_ngx_operator.Resources.Storage.{pvcs}
use paperless_ngx_operator.Controller.Client.{Server, Machinery}
use paperless_ngx_operator.Controller.Conditions.{mark}
use paperless_ngx_operator.Controller.Apply.{apply, own, own_by_policy, apply_owned, apply_stateful}
use paperless_ngx_operator.Controller.Secrets.{
  Builder, wanted_references, patch_ownership, reconcile_secret_ownership, generate,
  create_generated, after_get, ensure_generated_secret, reconcile_secrets,
}
use paperless_ngx_operator.Controller.Steps.{
  apply_pvcs, reconcile_storage, apply_if_some, reconcile_cache, report_workload,
  reconcile_workload,
}
use paperless_ngx_operator.Controller.Database.{
  report_external, check_external, reconcile_external_database, cnpg_installed, apply_cluster,
  reconcile_managed_database, database_step, reconcile_database,
}
use paperless_ngx_operator.Controller.Cost.{
  Asks, Asks-pure, Asks-raise, Asks-lift, Asks-gets, Asks-call, Asks-wrapping, Asks-attempt,
  Asks-mono, Asks-if, Asks-modify, Asks-bind,
}

module _ {F : Foreign} (S : Server F) (K : Machinery F) where
  pub mark-Asks :
      (type : String) (status : ConditionStatus) (reason message : String)
      → Asks 0 (mark K type status reason message)
  mark-Asks type status reason message = Asks-modify _

  apply-Asks : (obj : Object F) → Asks 1 (apply S K obj)
  unfolding apply
  apply-Asks obj = Asks-bind _ _ (Asks-lift _) λ gvk.
      Asks-bind _ _ (Asks-lift _)
        λ encoded. Asks-bind _ _ (Asks-lift _) λ explicit. Asks-wrapping _ _ (Asks-call _ _)

  own-Asks : (meta : ObjectMeta F) → Asks 0 (own S K meta)
  own-Asks meta = Asks-bind _ _ (Asks-gets _) λ i. Asks-bind _ _ (Asks-lift _) λ refs. Asks-pure _

  own_by_policy-Asks : (meta : ObjectMeta F) → Asks 0 (own_by_policy S K meta)
  own_by_policy-Asks meta =
      Asks-bind _ _ (Asks-gets _) λ i. Asks-if _ _ _ (own-Asks meta) (Asks-pure meta)

  apply_owned-Asks : (obj : Object F) → Asks 1 (apply_owned S K obj)
  unfolding apply_owned
  apply_owned-Asks obj = Asks-bind _ _ (own-Asks _) λ meta. apply-Asks _

  apply_stateful-Asks : (obj : Object F) → Asks 1 (apply_stateful S K obj)
  unfolding apply_stateful
  apply_stateful-Asks obj = Asks-bind _ _ (own_by_policy-Asks _) λ meta. apply-Asks _

  -- The Secrets: a Get of each, and then a write of it at most.
  wanted_references-Asks :
      (want : Bool) (meta : ObjectMeta F) → Asks 0 (wanted_references S K want meta)
  wanted_references-Asks true meta = Asks-bind _ _ (own-Asks _) λ m. Asks-pure _
  wanted_references-Asks false meta = Asks-pure _

  patch_ownership-Asks : (want : Bool) (s : Secret F) → Asks 1 (patch_ownership S K want s)
  unfolding patch_ownership
  patch_ownership-Asks want s = Asks-bind _ _ (wanted_references-Asks want s.metadata) λ refs.
      Asks-bind _ _ (Asks-lift _)
        λ list. Asks-bind _ _ (Asks-lift _) λ body. Asks-wrapping _ _ (Asks-call _ _)

  reconcile_secret_ownership-Asks : (s : Secret F) → Asks 1 (reconcile_secret_ownership S K s)
  unfolding reconcile_secret_ownership
  reconcile_secret_ownership-Asks s =
      Asks-bind _ _ (Asks-gets _)
        λ i. Asks-if _ _ _ (Asks-mono _ (omega arith) (Asks-pure tt)) (patch_ownership-Asks _ s)

  create_generated-Asks :
      (name : String) (o : Option (Secret F)) → Asks 1 (create_generated S K name o)
  unfolding create_generated
  create_generated-Asks name none = Asks-mono _ (omega arith) (Asks-pure tt)
  create_generated-Asks name (some c) =
      Asks-bind _ _ (own_by_policy-Asks _) λ meta. Asks-wrapping _ _ (Asks-call _ _)

  generate-Asks : (build : Builder F) → Asks 0 (generate S K build)
  generate-Asks build = Asks-bind _ _ (Asks-gets _) λ built. Asks-lift _

  after_get-Asks :
      (name : String) (build : Builder F) (r : Result (Secret F))
      → Asks 1 (after_get S K name build r)
  unfolding after_get
  after_get-Asks name build (ok existing) = reconcile_secret_ownership-Asks existing
  after_get-Asks name build (err e) =
      Asks-if _ _ _ (Asks-mono _ (omega arith) (Asks-raise _))
        (Asks-bind _ _ (generate-Asks build) λ o. create_generated-Asks name o)

  ensure_generated_secret-Asks :
      (name : String) (build : Builder F) → Asks 2 (ensure_generated_secret S K name build)
  unfolding ensure_generated_secret
  ensure_generated_secret-Asks name build =
      Asks-bind _ _ (Asks-gets _)
        λ i. Asks-bind _ _ (Asks-attempt _ (Asks-call _ _)) λ r. after_get-Asks name build r

  pub reconcile_secrets-Asks : Asks 4 (reconcile_secrets S K)
  unfolding reconcile_secrets
  reconcile_secrets-Asks = Asks-bind _ _ (Asks-gets _) λ i.
      Asks-bind _ _ (Asks-wrapping _ _ (ensure_generated_secret-Asks _ secret_key))
        λ x. Asks-wrapping _ _ (ensure_generated_secret-Asks _ admin_secret)

  apply_pvcs-Asks : (ps : List (PersistentVolumeClaim F)) → Asks (length ps) (apply_pvcs S K ps)
  unfolding apply_pvcs
  apply_pvcs-Asks [] = Asks-pure tt
  apply_pvcs-Asks (p ∷ ps) = Asks-mono _ (omega arith) (
      Asks-bind {k = 1} _ _ (Asks-wrapping _ _ (apply_stateful-Asks (pvc p)))
        λ x. apply_pvcs-Asks ps)

  pub reconcile_storage-Asks : Asks 4 (reconcile_storage S K)
  unfolding reconcile_storage pvcs
  reconcile_storage-Asks = Asks-bind _ _ (Asks-gets _) λ i. apply_pvcs-Asks (pvcs i)

  report_external-Asks : (name : String) (o : Option String) → Asks 0 (report_external S K name o)
  unfolding report_external
  report_external-Asks name none = Asks-bind _ _ (mark-Asks _ _ _ _) λ x. Asks-pure _
  report_external-Asks name (some key) = Asks-bind _ _ (mark-Asks _ _ _ _) λ x. Asks-pure _

  check_external-Asks : (name : String) (r : Result (Secret F)) → Asks 0 (check_external S K name r)
  unfolding check_external
  check_external-Asks name (ok s) = report_external-Asks name _
  check_external-Asks name (err e) =
      Asks-if _ _ _ (Asks-bind _ _ (mark-Asks _ _ _ _) λ x. Asks-pure _) (Asks-raise _)

  reconcile_external_database-Asks :
      (ext : ExternalDatabase) → Asks 1 (reconcile_external_database S K ext)
  unfolding reconcile_external_database
  reconcile_external_database-Asks ext =
      Asks-bind _ _ (Asks-gets _)
        λ i. Asks-bind _ _ (Asks-attempt _ (Asks-call _ _)) λ r. check_external-Asks _ r

  cnpg_installed-Asks : Asks 1 (cnpg_installed S K)
  unfolding cnpg_installed
  cnpg_installed-Asks = Asks-bind _ _ (Asks-attempt _ (Asks-call _ _)) λ r. Asks-lift _

  apply_cluster-Asks : (installed : Bool) → Asks 1 (apply_cluster S K installed)
  unfolding apply_cluster
  apply_cluster-Asks false =
      Asks-mono _ (omega arith) (Asks-bind _ _ (mark-Asks _ _ _ _) λ x. Asks-pure _)
  apply_cluster-Asks true = Asks-bind _ _ (Asks-gets _) λ i. Asks-bind _ _ (Asks-lift _) λ c.
      Asks-bind _ _ (Asks-wrapping _ _ (apply_stateful-Asks (unstructured c)))
        λ x. Asks-bind _ _ (mark-Asks _ _ _ _) λ y. Asks-pure _

  database_step-Asks : (o : Option ExternalDatabase) → Asks 2 (database_step S K o)
  unfolding reconcile_managed_database
  database_step-Asks none =
      Asks-bind _ _ (Asks-wrapping _ _ cnpg_installed-Asks) λ b. apply_cluster-Asks b
  database_step-Asks (some ext) = Asks-mono _ (omega arith) (reconcile_external_database-Asks ext)

  pub reconcile_database-Asks : Asks 2 (reconcile_database S K)
  unfolding reconcile_database
  reconcile_database-Asks = Asks-bind _ _ (Asks-gets _) λ i. database_step-Asks _

  apply_if_some-Asks :
      (prefix : String) (o : Option (Object F)) → Asks 1 (apply_if_some S K prefix o)
  unfolding apply_if_some
  apply_if_some-Asks prefix none = Asks-mono _ (omega arith) (Asks-pure tt)
  apply_if_some-Asks prefix (some obj) =
      Asks-bind _ _ (Asks-wrapping _ _ (apply_owned-Asks obj)) λ x. Asks-pure tt

  pub reconcile_cache-Asks : Asks 3 (reconcile_cache S K)
  unfolding reconcile_cache
  reconcile_cache-Asks = Asks-bind _ _ (Asks-gets _) λ i.
      Asks-bind _ _ (apply_if_some-Asks _ _)
        λ x. Asks-bind _ _ (apply_if_some-Asks _ _) λ y. apply_if_some-Asks _ _

  report_workload-Asks : (n : ℤ) → Asks 0 (report_workload S K n)
  unfolding report_workload
  report_workload-Asks n = Asks-if _ _ _ (mark-Asks _ _ _ _) (mark-Asks _ _ _ _)

  pub reconcile_workload-Asks : Asks 2 (reconcile_workload S K)
  unfolding reconcile_workload
  reconcile_workload-Asks = Asks-bind _ _ (Asks-gets _) λ i.
      Asks-bind _ _ (Asks-wrapping _ _ (apply_owned-Asks _))
        λ x. Asks-bind _ _ (Asks-wrapping _ _ (apply_owned-Asks _)) λ n. report_workload-Asks n
