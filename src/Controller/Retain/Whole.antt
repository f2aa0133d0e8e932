-- ===== src/Controller/Retain/Whole.antt =====
-- A whole reconcile under a deletion policy other than Delete.
use paperless_ngx_operator.Prelude.{
  Bool, true, false, String, Option, none, some, List, [], Result, ok, err, ◌≡◌, ◌≢◌, inl, inr,
  refl, arith, Result-cases, wrap_error-eq-ok,
}
use paperless_ngx_operator.Kube.{Foreign}
use paperless_ngx_operator.Kube.Objects.{
  Secret, Object, ObjectKey, PersistentVolumeClaim, Unstructured, Deployment, Service, deployment,
  service, pvc, unstructured, metadata, with_metadata,
}
use paperless_ngx_operator.Api.Types.{PaperlessInstance, ExternalDatabase}
use paperless_ngx_operator.Resources.Names.{valkey_name, derived_name, db_name}
use paperless_ngx_operator.Resources.Secrets.{validate_name}
use paperless_ngx_operator.Kube.Json.{end}
use paperless_ngx_operator.Resources.Cache.{valkey_pvc}
use paperless_ngx_operator.Resources.Database.{cnpg_cluster, cluster_spec, managed_or_zero}
use paperless_ngx_operator.Controller.Client.{Server, Machinery, State, History, M, ◌>>=◌}
use paperless_ngx_operator.Controller.Runs.{
  Grows, Grows-trans, SameButStatus, Keeps, Keeps-pure, Keeps-lift, Keeps-bind, Keeps-wrapping,
  Keeps-call, Keeps-attempt, keeps_rules,
}
use paperless_ngx_operator.Controller.Conditions.{set_condition}
use paperless_ngx_operator.Controller.Steps.{
  apply_if_some, object_of, reconcile_cache, report_workload, reconcile_workload,
}
use paperless_ngx_operator.Controller.Database.{
  report_external, check_external, reconcile_external_database, cnpg_installed, apply_cluster,
  reconcile_managed_database, database_step, reconcile_database,
}
use paperless_ngx_operator.Controller.Reconcile.{
  fail_step, settle, step, after_database, reconcile_instance, patch_status_of, reconcile_found,
  reconcile, seeded,
}
use paperless_ngx_operator.Controller.Runs.From.{
  From, From-Keeps, From-bind, From-current, From-wrapping, From-attempt, From-bind-lift,
}
use paperless_ngx_operator.Controller.Retain.{Survives, Retained, apply_stateful-From}
use paperless_ngx_operator.Controller.Retain.Steps.{
  mark-Keeps, owned-Keeps, reconcile_secrets-From, reconcile_storage-From,
}

module _ {F : Foreign} (S : Server F) (K : Machinery F) (i : PaperlessInstance F) where
  report_external-Keeps :
      (name : String) (o : Option String) → Keeps (Retained S K i) (report_external S K name o)
  unfolding report_external
  report_external-Keeps name none = Keeps-bind _ _ (mark-Keeps S K i _ _ _ _) λ x. Keeps-pure true
  report_external-Keeps name (some key) =
      Keeps-bind _ _ (mark-Keeps S K i _ _ _ _) λ x. Keeps-pure false

  check_external-Keeps :
      (name : String) (r : Result (Secret F)) → Keeps (Retained S K i) (check_external S K name r)
  unfolding check_external
  check_external-Keeps name (ok s) = report_external-Keeps name _
  check_external-Keeps name (err e) = search (keeps_rules, mark-Keeps)

  external-Keeps :
      (ext : ExternalDatabase) → Keeps (Retained S K i) (reconcile_external_database S K ext)
  unfolding reconcile_external_database
  external-Keeps ext =
      Keeps-bind _ _ (search keeps_rules)
        λ j. Keeps-bind _ _ (Keeps-attempt _ (Keeps-call _ _ λ h. tt)) λ r. check_external-Keeps _ r

  cnpg_installed-Keeps : Keeps (Retained S K i) (cnpg_installed S K)
  unfolding cnpg_installed
  cnpg_installed-Keeps = Keeps-bind _ _ (Keeps-attempt _ (Keeps-call _ _ λ h. tt)) λ r. Keeps-lift _

  apply_if_some-Keeps :
      (prefix : String) (o : Option (Object F))
      → ((obj : Object F) (refs : List F.OwnerReference)
          → o ≡ some obj
          → Survives S K i (with_metadata (record (metadata obj) { owner_references = refs }) obj))
      → Keeps (Retained S K i) (apply_if_some S K prefix o)
  unfolding apply_if_some
  apply_if_some-Keeps prefix none h = Keeps-pure tt
  apply_if_some-Keeps prefix (some obj) h =
      Keeps-bind _ _ (Keeps-wrapping _ _ (owned-Keeps S K i obj λ refs. h obj refs refl))
        λ n. Keeps-pure tt

  deployment-Survives :
      (o : Option (Deployment F)) (obj : Object F) (refs : List F.OwnerReference)
      → object_of S K deployment o ≡ some obj
      → Survives S K i (with_metadata (record (metadata obj) { owner_references = refs }) obj)
  deployment-Survives (some d) obj refs h = let is : deployment d ≡ obj = cc in rw (← is) tt
  deployment-Survives none obj refs h = cc

  service-Survives :
      (o : Option (Service F)) (obj : Object F) (refs : List F.OwnerReference)
      → object_of S K service o ≡ some obj
      → Survives S K i (with_metadata (record (metadata obj) { owner_references = refs }) obj)
  service-Survives (some d) obj refs h = let is : service d ≡ obj = cc in rw (← is) tt
  service-Survives none obj refs h = cc

  claim-Survives :
      (o : Option (PersistentVolumeClaim F)) (obj : Object F) (refs : List F.OwnerReference)
      → ((p : PersistentVolumeClaim F) → o ≡ some p → p.metadata.name ≡ valkey_name i)
      → object_of S K pvc o ≡ some obj
      → Survives S K i (with_metadata (record (metadata obj) { owner_references = refs }) obj)
  claim-Survives (some p) obj refs named h =
      let is : pvc p ≡ obj = cc in rw (← is) (inl (named p refl))
  claim-Survives none obj refs named h = cc

  valkey_pvc-name :
      (j : PaperlessInstance F) (p : PersistentVolumeClaim F)
      → SameButStatus i j
      → valkey_pvc j ≡ some p
      → p.metadata.name ≡ valkey_name i
  unfolding valkey_pvc derived_name
  valkey_pvc-name j p version h = rw version.name (ground arith)

  reconcile_cache-From : From i (Retained S K i) (reconcile_cache S K)
  unfolding reconcile_cache
  reconcile_cache-From = From-current _ λ j version. From-Keeps _ (
      Keeps-bind _ _ (apply_if_some-Keeps _ _ λ obj refs h. deployment-Survives _ obj refs h) λ x.
        Keeps-bind _ _ (apply_if_some-Keeps _ _ λ obj refs h. service-Survives _ obj refs h) λ y.
          apply_if_some-Keeps _ _
            λ obj refs h. claim-Survives _ obj refs (λ p. valkey_pvc-name j p version) h)

  reconcile_workload-Keeps : Keeps (Retained S K i) (reconcile_workload S K)
  unfolding reconcile_workload report_workload
  reconcile_workload-Keeps = Keeps-bind _ _ (search keeps_rules) λ j.
      Keeps-bind _ _ (Keeps-wrapping _ _ (owned-Keeps S K i _ λ refs. tt)) λ x.
        Keeps-bind _ _ (Keeps-wrapping _ _ (owned-Keeps S K i _ λ refs. tt))
          λ n. search (keeps_rules, mark-Keeps)

  module _ (retain : i.spec.deletion_policy ≢ "Delete") where
    cnpg_cluster-ownerless :
        (j : PaperlessInstance F) (c : Unstructured F)
        → cnpg_cluster j ≡ ok c
        → c.metadata.owner_references ≡ []
    unfolding cnpg_cluster
    cnpg_cluster-ownerless j c h = elim (Result-cases (validate_name F (db_name j))) [
      | inl (x, valid) ↦
          elim (Result-cases
            (F.set_nested_map end (cluster_spec (managed_or_zero j.spec.database.cnpg)) "spec")) [
              | inl (content, set) ↦ ground arith
              | inr (e, failed) ↦ absurd (ground arith)
            ]
      | inr (e, invalid) ↦ absurd (ground arith)
    ]

    apply_cluster-From : (installed : Bool) → From i (Retained S K i) (apply_cluster S K installed)
    unfolding apply_cluster
    apply_cluster-From false = From-Keeps _ (search (keeps_rules, mark-Keeps))
    apply_cluster-From true = From-current _ λ j version. From-bind-lift _ _ λ c built.
        From-bind _ _
          (From-wrapping _ _ (
            apply_stateful-From S K i retain (unstructured c)
              (cnpg_cluster-ownerless j c (wrap_error-eq-ok _ _ built))))
          λ n. From-Keeps _ (search (keeps_rules, mark-Keeps))

    database_step-From :
        (o : Option ExternalDatabase) → From i (Retained S K i) (database_step S K o)
    unfolding reconcile_managed_database
    database_step-From (some ext) = From-Keeps _ (external-Keeps ext)
    database_step-From none =
        From-bind _ _
          (From-Keeps _ (Keeps-wrapping "checking for CloudNativePG" _ cnpg_installed-Keeps))
          apply_cluster-From

    reconcile_database-From : From i (Retained S K i) (reconcile_database S K)
    unfolding reconcile_database
    reconcile_database-From = From-current _ λ j version. database_step-From _

    settle-Keeps :
        {A : Type 0} (reason prefix : String) (r : Result A)
        → Keeps (Retained S K i) (settle S K reason prefix r)
    unfolding fail_step
    settle-Keeps reason prefix (ok a) = search keeps_rules
    settle-Keeps reason prefix (err e) = search (keeps_rules, mark-Keeps)

    step-From :
        {A B : Type 0} (reason prefix : String) (m : M F A) (f : A → M F B)
        → From i (Retained S K i) m
        → ((a : A) → From i (Retained S K i) (f a))
        → From i (Retained S K i) (step S K reason prefix m >>= f)
    step-From reason prefix m f k rest =
        From-bind _ _
          (From-bind _ _ (From-attempt _ k) λ r. From-Keeps _ (settle-Keeps reason prefix r)) rest

    after_database-From : (ready : Bool) → From i (Retained S K i) (after_database S K ready)
    unfolding after_database
    after_database-From false = From-Keeps _ (search (keeps_rules, mark-Keeps))
    after_database-From true = step-From _ _ _ _ reconcile_cache-From λ x.
        step-From _ _ _ _ (From-Keeps _ reconcile_workload-Keeps) λ y. From-Keeps _ (Keeps-pure _)

    reconcile_instance-From : From i (Retained S K i) (reconcile_instance S K)
    unfolding reconcile_instance
    reconcile_instance-From = step-From _ _ _ _ (reconcile_secrets-From S K i retain) λ x.
        step-From _ _ _ _ (reconcile_storage-From S K i retain)
          λ y. step-From _ _ _ _ reconcile_database-From after_database-From

    found-Retained : (h : History F) → Grows (Retained S K i) h (reconcile_found S K i h).1
    unfolding reconcile_found seeded set_condition patch_status_of ◌>>=◌
    found-Retained h =
        let begun : State F = record { inst = seeded S K i; history = h } in
        Grows.more _
          (reconcile_instance-From.at begun (record {
            name = refl;
            namespace = refl;
            uid = refl;
            generation = refl;
            spec = refl;
          })).grows
          tt

  -- If the deletion policy of an instance is not Delete, then whatever the API server answers, a
  -- reconcile of it gives no owner to what holds its documents and its data: each created Secret,
  -- the applied Cluster and each applied claim but the cache's have no owner references.
  pub reconcile-Retained :
      (key : ObjectKey) (h : History F)
      → i.spec.deletion_policy ≢ "Delete"
      → S.instance_answer h key ≡ ok i
      → Grows (Retained S K i) h (reconcile S K key h).1
  unfolding reconcile
  reconcile-Retained key h retain found =
      rw found (Grows-trans (Grows.more _ Grows.same tt) (found-Retained retain _))
