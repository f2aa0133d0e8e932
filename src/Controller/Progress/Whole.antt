-- ===== src/Controller/Progress/Whole.antt =====
-- The steps succeed one after the other where their surroundings do not fail, and so does a
-- whole reconcile (internal/controller/paperlessinstance_controller.go).
use paperless_ngx_operator.Prelude.{
  ℕ, ℤ, ◌≤◌, suc, true, String, Option, none, some, List, [], ◌∷◌, ok, ◌≡◌, refl, sym, arith,
  length, less_than_one, Bool-cases, inl, inr, All,
}
use paperless_ngx_operator.Kube.{Foreign}
use paperless_ngx_operator.Kube.Objects.{
  ObjectKey, Object, PersistentVolumeClaim, Deployment, Service, metadata, pvc, deployment, service,
}
use paperless_ngx_operator.Resources.Storage.{pvcs}
use paperless_ngx_operator.Resources.Cache.{valkey_deployment, valkey_service, valkey_pvc}
use paperless_ngx_operator.Resources.Workload
use paperless_ngx_operator.Controller.Runs.{SameButStatus}
use paperless_ngx_operator.Api.Types.{PaperlessInstance}
use paperless_ngx_operator.Resources.Database.Cluster.{SetsNested}
use paperless_ngx_operator.Controller.Client.{
  Server, Machinery, History, State, M, get_instance, ◌>>=◌,
}
use paperless_ngx_operator.Controller.Steps.{
  apply_pvcs, reconcile_storage, apply_if_some, object_of, reconcile_cache, report_workload,
  reconcile_workload,
}
use paperless_ngx_operator.Controller.Steps.Trace.{set_condition-SameButStatus}
use paperless_ngx_operator.Controller.Reconcile.{
  zero_result, step, after_database, reconcile_instance, patch_status_of, reconcile_found,
  reconcile, seeded,
}
use paperless_ngx_operator.Controller.Desired.Whole.{Achieved, reconcile-Achieved}
use paperless_ngx_operator.Controller.Progress.{
  IsOwnable, IsOwnable-SameButStatus, Works, Serves, IsReconcilable, Succeeds, Succeeds-pure,
  Succeeds-gets, Succeeds-wrapping, Succeeds-attempt, Succeeds-bind,
}
use paperless_ngx_operator.Controller.Progress.Apply.{apply_owned-Succeeds, apply_stateful-Succeeds}
use paperless_ngx_operator.Controller.Progress.Secrets.{reconcile_secrets-Succeeds}
use paperless_ngx_operator.Controller.Progress.Database.{mark-Succeeds, reconcile_database-Succeeds}

module _ {F : Foreign} {S : Server F} {K : Machinery F} {n : ℕ} (i : PaperlessInstance F)
    (works : Works K) (serves : Serves S n) (fit : IsReconcilable S n i) (sets : SetsNested F) where
  apply_pvcs-Succeeds :
      (ps : List (PersistentVolumeClaim F))
      → All (λ p. IsOwnable i p.metadata) ps
      → Succeeds i n (λ _. Unit) (apply_pvcs S K ps)
  unfolding apply_pvcs
  apply_pvcs-Succeeds [] ownable = Succeeds-pure tt tt
  apply_pvcs-Succeeds (p ∷ ps) ownable =
      Succeeds-bind _ _
        (Succeeds-wrapping _ _ (apply_stateful-Succeeds i works serves (pvc p) ownable.0))
        λ x _. apply_pvcs-Succeeds ps ownable.1

  pvcs-IsOwnable :
      (j : PaperlessInstance F) → SameButStatus i j → All (λ p. IsOwnable i p.metadata) (pvcs j)
  unfolding pvcs
  pvcs-IsOwnable j same_ =
      let here : j.namespace ≡ i.namespace = sym same_.namespace in
      ((here, refl), ((here, refl), ((here, refl), ((here, refl), tt))))

  reconcile_storage-Succeeds : Succeeds i n (λ _. Unit) (reconcile_storage S K)
  unfolding reconcile_storage
  reconcile_storage-Succeeds =
      Succeeds-bind {Q = λ j. SameButStatus i j} _ _ (Succeeds-gets _ λ s l. l.same_spec)
        λ j same_. apply_pvcs-Succeeds (pvcs j) (pvcs-IsOwnable j same_)

  apply_if_some-Succeeds :
      {A : Type 0} (prefix : String) (f : A → Object F) (o : Option A)
      → ((a : A) → o ≡ some a → IsOwnable i (metadata (f a)))
      → Succeeds i n (λ _. Unit) (apply_if_some S K prefix (object_of S K f o))
  unfolding apply_if_some
  apply_if_some-Succeeds prefix f none ownable = Succeeds-pure tt tt
  apply_if_some-Succeeds prefix f (some a) ownable =
      Succeeds-bind _ _
        (Succeeds-wrapping _ _ (apply_owned-Succeeds i works serves (f a) (ownable a refl)))
        λ x _. Succeeds-pure tt tt

  valkey_deployment-IsOwnable :
      (j : PaperlessInstance F) (d : Deployment F)
      → valkey_deployment j ≡ some d
      → IsOwnable j d.metadata
  unfolding valkey_deployment
  valkey_deployment-IsOwnable j d h = (ground arith, ground arith)

  valkey_service-IsOwnable :
      (j : PaperlessInstance F) (d : Service F) → valkey_service j ≡ some d → IsOwnable j d.metadata
  unfolding valkey_service
  valkey_service-IsOwnable j d h = (ground arith, ground arith)

  valkey_pvc-IsOwnable :
      (j : PaperlessInstance F) (d : PersistentVolumeClaim F)
      → valkey_pvc j ≡ some d
      → IsOwnable j d.metadata
  unfolding valkey_pvc
  valkey_pvc-IsOwnable j d h = (ground arith, ground arith)

  reconcile_cache-Succeeds : Succeeds i n (λ _. Unit) (reconcile_cache S K)
  unfolding reconcile_cache
  reconcile_cache-Succeeds =
      Succeeds-bind {Q = λ j. SameButStatus i j} _ _ (Succeeds-gets _ λ s l. l.same_spec) λ j same_.
        Succeeds-bind _ _
          (apply_if_some-Succeeds _ deployment (valkey_deployment j)
            λ d is. IsOwnable-SameButStatus d.metadata same_ (valkey_deployment-IsOwnable j d is))
          λ x _.
            Succeeds-bind _ _
              (apply_if_some-Succeeds _ service (valkey_service j)
                λ d is. IsOwnable-SameButStatus d.metadata same_ (valkey_service-IsOwnable j d is))
              λ y _.
                apply_if_some-Succeeds _ pvc (valkey_pvc j)
                  λ d is. IsOwnable-SameButStatus d.metadata same_ (valkey_pvc-IsOwnable j d is)

  report_workload-Succeeds : (r : ℤ) → Succeeds i n (λ _. Unit) (report_workload S K r)
  unfolding report_workload
  report_workload-Succeeds r = elim (Bool-cases (less_than_one r)) [
    | inl few ↦ rw few (mark-Succeeds i works serves fit _ _ _ _)
    | inr enough ↦ rw enough (mark-Succeeds i works serves fit _ _ _ _)
  ]

  workload_meta-IsOwnable :
      (j : PaperlessInstance F)
      → SameButStatus i j
      → IsOwnable i (Workload.service j).metadata × IsOwnable i (Workload.deployment j).metadata
  unfolding Workload.service Workload.deployment
  workload_meta-IsOwnable j same_ = ((sym same_.namespace, refl), (sym same_.namespace, refl))

  reconcile_workload-Succeeds : Succeeds i n (λ _. Unit) (reconcile_workload S K)
  unfolding reconcile_workload
  reconcile_workload-Succeeds =
      Succeeds-bind {Q = λ j. SameButStatus i j} _ _ (Succeeds-gets _ λ s l. l.same_spec) λ j same_.
        Succeeds-bind _ _
          (Succeeds-wrapping _ _ (
            apply_owned-Succeeds i works serves (service (Workload.service j))
              (workload_meta-IsOwnable j same_).0))
          λ x _.
            Succeeds-bind _ _
              (Succeeds-wrapping _ _ (
                apply_owned-Succeeds i works serves (deployment (Workload.deployment j))
                  (workload_meta-IsOwnable j same_).1))
              λ r _. report_workload-Succeeds r

  step-Succeeds :
      {A : Type 0} {Q : A → Type 0} (reason prefix : String) (m : M F A)
      → Succeeds i n Q m
      → Succeeds i n Q (step S K reason prefix m)
  step-Succeeds reason prefix m k =
      Succeeds-bind _ _ (Succeeds-attempt m k) λ r (a, is, q). rw is (Succeeds-pure a q)

  after_database-Succeeds : Succeeds i n (λ r. r ≡ zero_result) (after_database S K true)
  unfolding after_database
  after_database-Succeeds = Succeeds-bind _ _ (step-Succeeds _ _ _ reconcile_cache-Succeeds) λ x _.
      Succeeds-bind _ _ (step-Succeeds _ _ _ reconcile_workload-Succeeds)
        λ y _. Succeeds-pure zero_result refl

  pub reconcile_instance-Succeeds : Succeeds i n (λ r. r ≡ zero_result) (reconcile_instance S K)
  unfolding reconcile_instance
  reconcile_instance-Succeeds =
      Succeeds-bind _ _ (step-Succeeds _ _ _ (reconcile_secrets-Succeeds i works serves fit)) λ x _.
        Succeeds-bind _ _ (step-Succeeds _ _ _ reconcile_storage-Succeeds) λ y _.
          Succeeds-bind _ _
            (step-Succeeds _ _ _ (reconcile_database-Succeeds i works serves fit sets))
            λ db_ready is. rw is after_database-Succeeds

module _ {F : Foreign} (S : Server F) (K : Machinery F) (works : Works K)
    (sets : SetsNested F) where
  reconcile_found-eq-ok :
      (n : ℕ) (i : PaperlessInstance F) (h : History F)
      → Serves S n
      → IsReconcilable S n i
      → n ≤ length h
      → (reconcile_found S K i h).0 ≡ ok zero_result
  unfolding reconcile_found patch_status_of ◌>>=◌
  reconcile_found-eq-ok n i h serves fit late =
      let begun : State F = record { inst = seeded S K i; history = h } in
      let (r, done, zero, end) =
        (reconcile_instance-Succeeds i works serves fit sets).at begun
          (record { same_spec = set_condition-SameButStatus S K _ _ _ _ i; late = late }) in
      rw (done, zero, serves.patched _ _ _ end.late) refl

  pub reconcile-eq-ok :
      (n : ℕ) (i : PaperlessInstance F) (key : ObjectKey) (h : History F)
      → Serves S n
      → IsReconcilable S n i
      → n ≤ suc (length h)
      → S.instance_answer h key ≡ ok i
      → (reconcile S K key h).0 ≡ ok zero_result
  unfolding reconcile
  reconcile-eq-ok n i key h serves fit late found =
      rw found (reconcile_found-eq-ok n i (get_instance key ∷ h) serves fit late)

  -- Where the functions of the controller's libraries do not fail and `SetNestedMap` stores a map
  -- at a single key: a reconcile of an instance that exists, whose names are valid and whose
  -- external database, if any, has its credentials with both keys, succeeds and asks for no other
  -- reconcile, if the API server, with CloudNativePG installed, and the source of randomness serve
  -- every request that follows the Get of the instance, where a Secret need only be created right
  -- after a Get that did not find it and patched right after one that did. Then each object that the instance asks to be applied is what
  -- was applied last in its place, with the right owner references, and what was applied last in
  -- any other place is as before. The Secrets are created and patched, not applied.
  pub reconcile_converges :
      (n : ℕ) (i : PaperlessInstance F) (key : ObjectKey) (h : History F)
      → Serves S n
      → IsReconcilable S n i
      → n ≤ suc (length h)
      → S.instance_answer h key ≡ ok i
      → ((reconcile S K key h).0 ≡ ok zero_result) × Achieved S K i h (reconcile S K key h).1
  reconcile_converges n i key h serves fit late found =
      let done = reconcile-eq-ok n i key h serves fit late found in
      (done, reconcile-Achieved S K i key h found done)
