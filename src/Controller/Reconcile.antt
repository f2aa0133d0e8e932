-- ===== src/Controller/Reconcile.antt =====
-- `Reconcile`, `reconcileInstance` and `patchStatus` of
-- internal/controller/paperlessinstance_controller.go.
pub mod Trace
pub mod Status
use paperless_ngx_operator.Prelude.{
  ℕ, Bool, true, false, String, ◌∷◌, Error, error_string, Result, ok, err, wrap, if◌then◌else◌,
}
use paperless_ngx_operator.Kube.{Foreign}
use paperless_ngx_operator.Kube.Objects.{ObjectKey, condition_false}
use paperless_ngx_operator.Api.Types.{PaperlessInstance, condition_ready}
use paperless_ngx_operator.Controller.Client.{
  Server, Machinery, M, History, get_instance, patch_status, is_not_found, ◌>>=◌, ◌>>◌, pure, raise,
  wrapping, call, attempt, modify, current,
}
use paperless_ngx_operator.Controller.Conditions.{set_condition, mark}
use paperless_ngx_operator.Controller.Secrets.{reconcile_secrets}
use paperless_ngx_operator.Controller.Steps.{reconcile_storage, reconcile_cache, reconcile_workload}
use paperless_ngx_operator.Controller.Database.{reconcile_database}

-- `notReadyRequeueInterval`, in seconds
abbrev pub not_ready_requeue_interval : ℕ
not_ready_requeue_interval = 30

-- `ctrl.Result`: the seconds after which to reconcile again, 0 for none. Beside an error the
-- operator always returns the zero value, so a result is one or the other.
pub record ReconcileResult : Type 0 where
  pub requeue_after : ℕ

abbrev pub zero_result : ReconcileResult
zero_result = record { requeue_after = 0 }

module _ {F : Foreign} (S : Server F) (K : Machinery F) where
  -- The branch of a step that fails: Ready is set to false, and the error is wrapped.
  unfoldable pub fail_step : {A : Type 0} → String → String → Error → M F A
  fail_step reason prefix e = do
    mark K condition_ready condition_false reason (error_string e)
    raise (wrap prefix e)

  abbrev pub settle : {A : Type 0} → String → String → Result A → M F A
  settle reason prefix (ok a) = pure a
  settle reason prefix (err e) = fail_step reason prefix e

  -- A step with its error branch.
  abbrev pub step : {A : Type 0} → String → String → M F A → M F A
  step reason prefix m = do r ← attempt m; settle reason prefix r

  -- The steps after the database, or none of them.
  unfoldable pub after_database : Bool → M F ReconcileResult
  after_database false = do
    mark K condition_ready condition_false "DatabaseNotReady"
        "the instance cannot become ready until its database is; see the DatabaseReady condition"
    pure (record { requeue_after = not_ready_requeue_interval })
  after_database true = do
    step "CacheNotReady" "reconciling cache" (reconcile_cache S K)
    step "WorkloadApplyFailed" "reconciling workload" (reconcile_workload S K)
    pure zero_result

  unfoldable pub reconcile_instance : M F ReconcileResult
  unfolding after_database
  reconcile_instance = do
    step "SecretsNotReady" "reconciling secrets" (reconcile_secrets S K)
    step "StorageNotReady" "reconciling storage" (reconcile_storage S K)
    db_ready ← step "DatabaseNotReady" "reconciling database" (reconcile_database S K)
    after_database db_ready

  -- The instance that `patchStatus` sends.
  abbrev pub observe_generation : PaperlessInstance F → PaperlessInstance F
  observe_generation inst = record inst {
    status = record (inst.status) { observed_generation = inst.generation };
  }

  unfoldable pub patch_status_of : PaperlessInstance F → M F (Unit {0})
  patch_status_of base = do
    modify observe_generation
    sent ← current
    wrapping "patching status" (call (λ h. S.status_answer h sent base) (patch_status sent base))

  -- The instance with which the steps begin.
  unfoldable pub seeded : PaperlessInstance F → PaperlessInstance F
  seeded inst =
      set_condition K inst condition_ready condition_false "Reconciling"
        "the operator is reconciling this instance"

  -- The result of `Reconcile`, from that of the steps and that of the status patch.
  abbrev pub final_result : Result ReconcileResult → Result (Unit {0}) → Result ReconcileResult
  final_result r (ok patched) = r
  final_result r (err e) = err (wrap "patching status" e)

  -- `Reconcile` after the Get of the instance.
  unfoldable pub reconcile_found :
      PaperlessInstance F → History F → Result ReconcileResult × History F
  unfolding seeded
  reconcile_found base h =
      let (r, s) = reconcile_instance (record { inst = seeded base; history = h }) in
      let (patched, t) = patch_status_of base s in (final_result r patched, t.history)

  -- `client.IgnoreNotFound(err)` on the error branch of the Get.
  abbrev pub after_instance :
      Result (PaperlessInstance F) → History F → Result ReconcileResult × History F
  after_instance (ok inst) h = reconcile_found inst h
  after_instance (err e) h = (if is_not_found e then ok zero_result else err e, h)

  unfoldable pub reconcile : ObjectKey → History F → Result ReconcileResult × History F
  unfolding reconcile_found
  reconcile key h = after_instance (S.instance_answer h key) (get_instance key ∷ h)
