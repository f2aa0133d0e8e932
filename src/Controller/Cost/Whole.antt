-- ===== src/Controller/Cost/Whole.antt =====
-- The requests of a whole reconcile, counted.
use paperless_ngx_operator.Prelude.{
  ℕ, ◌≤◌, ◌+◌, Bool, true, false, String, ◌∷◌, Result, ok, err, arith, length,
}
use paperless_ngx_operator.Kube.{Foreign}
use paperless_ngx_operator.Kube.Objects.{ObjectKey}
use paperless_ngx_operator.Api.Types.{PaperlessInstance}
use paperless_ngx_operator.Controller.Client.{Server, Machinery, History, State, M, get_instance}
use paperless_ngx_operator.Controller.Runs.{Grows-length}
use paperless_ngx_operator.Controller.Reconcile.Trace.{after_instance-Grows}
use paperless_ngx_operator.Controller.Reconcile.{
  fail_step, settle, step, after_database, reconcile_instance, patch_status_of, reconcile_found,
  reconcile, seeded, after_instance,
}
use paperless_ngx_operator.Controller.Cost.{
  Asks, Asks-pure, Asks-raise, Asks-gets, Asks-call, Asks-wrapping, Asks-attempt, Asks-mono,
  Asks-modify, Asks-bind,
}
use paperless_ngx_operator.Controller.Cost.Steps.{
  mark-Asks, reconcile_secrets-Asks, reconcile_storage-Asks, reconcile_database-Asks,
  reconcile_cache-Asks, reconcile_workload-Asks,
}

module _ {F : Foreign} (S : Server F) (K : Machinery F) where
  settle-Asks :
      {A : Type 0} (reason prefix : String) (r : Result A) → Asks 0 (settle S K reason prefix r)
  unfolding fail_step
  settle-Asks reason prefix (ok a) = Asks-pure a
  settle-Asks reason prefix (err e) = Asks-bind _ _ (mark-Asks S K _ _ _ _) λ x. Asks-raise _

  step-Asks :
      {A : Type 0} (k : ℕ) (reason prefix : String) (m : M F A)
      → Asks k m
      → Asks k (step S K reason prefix m)
  step-Asks k reason prefix m a =
      Asks-mono _ (omega arith)
        (Asks-bind {k = k} {l = 0} _ _ (Asks-attempt m a) λ r. settle-Asks reason prefix r)

  after_database-Asks : (ready : Bool) → Asks 5 (after_database S K ready)
  unfolding after_database
  after_database-Asks false =
      Asks-mono _ (omega arith) (Asks-bind _ _ (mark-Asks S K _ _ _ _) λ x. Asks-pure _)
  after_database-Asks true =
      Asks-bind _ _ (step-Asks 3 _ _ _ (reconcile_cache-Asks S K))
        λ x. Asks-bind _ _ (step-Asks 2 _ _ _ (reconcile_workload-Asks S K)) λ y. Asks-pure _

  reconcile_instance-Asks : Asks 15 (reconcile_instance S K)
  unfolding reconcile_instance
  reconcile_instance-Asks = Asks-bind _ _ (step-Asks 4 _ _ _ (reconcile_secrets-Asks S K)) λ x.
      Asks-bind _ _ (step-Asks 4 _ _ _ (reconcile_storage-Asks S K)) λ y.
        Asks-bind _ _ (step-Asks 2 _ _ _ (reconcile_database-Asks S K))
          λ ready. after_database-Asks ready

  patch_status_of-Asks : (base : PaperlessInstance F) → Asks 1 (patch_status_of S K base)
  unfolding patch_status_of
  patch_status_of-Asks base =
      Asks-bind _ _ (Asks-modify _)
        λ x. Asks-bind _ _ (Asks-gets _) λ sent. Asks-wrapping _ _ (Asks-call _ _)

  after_instance-length :
      (r : Result (PaperlessInstance F)) (h : History F)
      → length (after_instance S K r h).1 ≤ 16 + length h
  unfolding reconcile_found
  after_instance-length (ok base) h =
      let begun : State F = record { inst = seeded S K base; history = h } in
      omega (
        arith,
        reconcile_instance-Asks.at begun,
        (patch_status_of-Asks base).at (reconcile_instance S K begun).1,
      )
  after_instance-length (err e) h = omega arith

  -- Whatever the API server answers, a reconcile ends after at least one and at most 17 requests.
  pub reconcile-length_bound :
      (key : ObjectKey) (h : History F)
      → (length h + 1 ≤ length (reconcile S K key h).1)
        × (length (reconcile S K key h).1 ≤ length h + 17)
  unfolding reconcile
  reconcile-length_bound key h =
      let answer = S.instance_answer h key in
      omega (
        arith,
        Grows-length (after_instance-Grows S K answer (get_instance key ∷ h)),
        after_instance-length answer (get_instance key ∷ h),
      )
