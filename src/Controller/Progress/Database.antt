-- ===== src/Controller/Progress/Database.antt =====
-- The database step succeeds, and the database is ready, where its surroundings do not fail
-- (internal/controller/paperlessinstance_controller.go).
use paperless_ngx_operator.Prelude.{
  ℕ, true, String, Option, none, some, Result, ok, ◌≡◌, refl, sym, arith, is_some, lookup,
}
use paperless_ngx_operator.Kube.{Foreign}
use paperless_ngx_operator.Kube.Objects.{
  Secret, StringMap, ConditionStatus, Unstructured, unstructured,
}
use paperless_ngx_operator.Resources.Database.{cnpg_cluster}
use paperless_ngx_operator.Api.Types.{PaperlessInstance, ExternalDatabase}
use paperless_ngx_operator.Resources.Database.Cluster.{SetsNested, cnpg_cluster_lem}
use paperless_ngx_operator.Controller.Client.{Server, Machinery}
use paperless_ngx_operator.Controller.Runs.{SameButStatus}
use paperless_ngx_operator.Controller.Conditions.{mark}
use paperless_ngx_operator.Controller.Steps.Trace.{set_condition-SameButStatus}
use paperless_ngx_operator.Controller.Database.{
  required_keys, missing_key, report_external, check_external, reconcile_external_database,
  cnpg_installed, apply_cluster, reconcile_managed_database, database_step, reconcile_database,
}
use paperless_ngx_operator.Controller.Progress.{
  IsOwnable, IsOwnable-SameButStatus, derived_name-SameButStatus, Works, Serves, IsReconcilable,
  Succeeds, Succeeds-pure, Succeeds-lift, Succeeds-gets, Succeeds-wrapping, Succeeds-modify,
  Succeeds-attempt-call, Succeeds-bind,
}
use paperless_ngx_operator.Controller.Progress.Apply.{apply_stateful-Succeeds}

missing_key-eq-none :
    (contents : StringMap)
    → is_some (lookup "username" contents) ≡ true
    → is_some (lookup "password" contents) ≡ true
    → missing_key required_keys contents ≡ none
unfolding missing_key
missing_key-eq-none contents user password = rw (user, password) refl

cnpg_cluster-IsOwnable :
    {F : Foreign} (j : PaperlessInstance F) (c : Unstructured F)
    → cnpg_cluster j ≡ ok c
    → IsOwnable j c.metadata
unfolding cnpg_cluster
cnpg_cluster-IsOwnable j c h = (ground arith, ground arith)

module _ {F : Foreign} {S : Server F} {K : Machinery F} {n : ℕ} (i : PaperlessInstance F)
    (works : Works K) (serves : Serves S n) (fit : IsReconcilable S n i) where
  pub mark-Succeeds :
      (type : String) (status : ConditionStatus) (reason message : String)
      → Succeeds i n (λ _. Unit) (mark K type status reason message)
  mark-Succeeds type status reason message =
      Succeeds-modify _ (set_condition-SameButStatus S K type reason message status)

  check_external-Succeeds :
      (name : String) (r : Result (Secret F))
      → (s : Secret F) × (r ≡ ok s)
        × (is_some (lookup "username" s.contents) ≡ true)
        × (is_some (lookup "password" s.contents) ≡ true)
      → Succeeds i n (λ b. b ≡ true) (check_external S K name r)
  unfolding check_external report_external
  check_external-Succeeds name r (s, is, user, password) =
      rw (is, missing_key-eq-none s.contents user password)
        (Succeeds-bind _ _ (mark-Succeeds _ _ _ _) λ x _. Succeeds-pure true refl)

  reconcile_external_database-Succeeds :
      (ext : ExternalDatabase)
      → i.spec.database.external ≡ some ext
      → Succeeds i n (λ b. b ≡ true) (reconcile_external_database S K ext)
  unfolding reconcile_external_database
  reconcile_external_database-Succeeds ext set =
      Succeeds-bind {Q = λ j. SameButStatus i j} _ _ (Succeeds-gets _ λ s l. l.same_spec) λ j same_.
        Succeeds-bind _ _
          (Succeeds-attempt-call _ _
            λ h late. rw (sym same_.namespace) (fit.credentials ext h set late))
          λ r found. check_external-Succeeds _ r found

  cnpg_installed-Succeeds : Succeeds i n (λ b. b ≡ true) (cnpg_installed S K)
  unfolding cnpg_installed
  cnpg_installed-Succeeds =
      Succeeds-bind {Q = λ r. r ≡ ok tt} _ _
        (Succeeds-attempt-call _ _ λ h late. serves.installed h _ late)
        λ r is. Succeeds-lift _ true (rw is refl) refl

  module _ (sets : SetsNested F) where
    apply_cluster-Succeeds : Succeeds i n (λ b. b ≡ true) (apply_cluster S K true)
    unfolding apply_cluster
    apply_cluster-Succeeds =
        Succeeds-bind {Q = λ j. SameButStatus i j} _ _ (Succeeds-gets _ λ s l. l.same_spec)
          λ j same_.
            let (c, built, named, instances, size, class) =
              cnpg_cluster_lem sets j (rw (derived_name-SameButStatus same_ "db") fit.db_valid) in
            let ownable : IsOwnable i c.metadata =
              IsOwnable-SameButStatus c.metadata same_ (cnpg_cluster-IsOwnable j c built) in
            Succeeds-bind {Q = λ d. d ≡ c} _ _ (Succeeds-lift _ c (rw built refl) refl) λ d is.
              Succeeds-bind _ _
                (Succeeds-wrapping _ _
                  (apply_stateful-Succeeds i works serves (unstructured d) (rw is ownable)))
                λ x _. Succeeds-bind _ _ (mark-Succeeds _ _ _ _) λ y _. Succeeds-pure true refl

    reconcile_managed_database-Succeeds :
        Succeeds i n (λ b. b ≡ true) (reconcile_managed_database S K)
    unfolding reconcile_managed_database
    reconcile_managed_database-Succeeds =
        Succeeds-bind _ _ (Succeeds-wrapping _ _ cnpg_installed-Succeeds)
          λ b is. rw is apply_cluster-Succeeds

    database_step-Succeeds :
        (o : Option ExternalDatabase)
        → i.spec.database.external ≡ o
        → Succeeds i n (λ b. b ≡ true) (database_step S K o)
    database_step-Succeeds none set = reconcile_managed_database-Succeeds
    database_step-Succeeds (some ext) set = reconcile_external_database-Succeeds ext set

    pub reconcile_database-Succeeds : Succeeds i n (λ b. b ≡ true) (reconcile_database S K)
    unfolding reconcile_database
    reconcile_database-Succeeds =
        Succeeds-bind {Q = λ j. SameButStatus i j} _ _ (Succeeds-gets _ λ s l. l.same_spec)
          λ j same_. database_step-Succeeds _ (rw same_.spec refl)
