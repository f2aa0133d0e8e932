-- ===== src/Controller/Reconcile/Status.antt =====
-- What a reconcile reports in the status of the instance, and what it returns.
use paperless_ngx_operator.Prelude.{
  Bool, true, false, wrap_error, String, ◌==◌, Option, none, some, ◌∷◌, Error, error_string, wrap,
  Result, ok, err, ◌≡◌, refl, sym, inl, inr, Bool-cases, if◌then◌else◌,
}
use paperless_ngx_operator.Kube.{Foreign}
use paperless_ngx_operator.Kube.Objects.{ObjectKey, condition_false}
use paperless_ngx_operator.Api.Types.{PaperlessInstance}
use paperless_ngx_operator.Controller.Client.{
  Server, Machinery, State, History, M, ◌>>=◌, get_instance, patch_status, is_not_found,
}
use paperless_ngx_operator.Controller.Runs.{SameButStatus, SameButStatus-trans}
use paperless_ngx_operator.Controller.Conditions.{set_condition}
use paperless_ngx_operator.Controller.Conditions.Lookup.{
  SetsCondition, find_condition-set_condition,
}
use paperless_ngx_operator.Controller.Secrets.{reconcile_secrets}
use paperless_ngx_operator.Controller.Steps.{reconcile_storage, reconcile_cache, reconcile_workload}
use paperless_ngx_operator.Controller.Steps.Success.{
  ready, WorkloadReported, reconcile_workload-WorkloadReported,
}
use paperless_ngx_operator.Controller.Database.{reconcile_database}
use paperless_ngx_operator.Controller.Reconcile.{
  ReconcileResult, zero_result, not_ready_requeue_interval, fail_step, settle, step, after_database,
  reconcile_instance, observe_generation, patch_status_of, reconcile_found, reconcile, seeded,
  after_instance, final_result,
}
use paperless_ngx_operator.Controller.Reconcile.Trace.{reconcile_instance-SameButStatus}

-- The reason that the condition Ready gives for the error of a step.
abbrev pub reason_of : String → Option String
reason_of prefix =
    if prefix == "reconciling secrets"
    then some "SecretsNotReady"
    else if prefix == "reconciling storage"
    then some "StorageNotReady"
    else if prefix == "reconciling database"
    then some "DatabaseNotReady"
    else if prefix == "reconciling cache"
    then some "CacheNotReady"
    else if prefix == "reconciling workload"
    then some "WorkloadApplyFailed"
    else none

module _ {F : Foreign} (S : Server F) (K : Machinery F) (sets : SetsCondition K) where
  -- Ready is false, with a reason and a message, and observes the generation.
  abbrev pub NotReady : State F → String → String → Type 0
  NotReady t reason message =
      ready S K sets t
      ≡ some (record {
        type = "Ready";
        status = condition_false;
        observed_generation = t.inst.generation;
        reason = reason;
        message = message;
      })

  -- What the state after the steps reports of their result.
  pub data Reports (t : State F) : Result ReconcileResult → Type 0 where
    failed :
        {prefix reason : String} {cause : Error}
        → reason_of prefix ≡ some reason
        → NotReady t reason (error_string cause)
        → Reports t (err (wrap prefix cause))
    waiting :
        {message : String}
        → NotReady t "DatabaseNotReady" message
        → Reports t (ok (record { requeue_after = not_ready_requeue_interval }))
    finished : {u : State F} → WorkloadReported S K sets u t → Reports t (ok zero_result)

  settle-Reports :
      {A : Type 0} (reason prefix : String) (r : Result A) (f : A → M F ReconcileResult)
      (t : State F)
      → reason_of prefix ≡ some reason
      → ((a : A) → r ≡ ok a → Reports (f a t).1 (f a t).0)
      → Reports ((settle S K reason prefix r >>= f) t).1 ((settle S K reason prefix r >>= f) t).0
  unfolding ◌>>=◌ fail_step set_condition
  settle-Reports reason prefix (ok a) f t known rest = rest a refl
  settle-Reports reason prefix (err e) f t known rest =
      failed known (find_condition-set_condition K sets t.inst "Ready" "Ready" _ _ _)

  step-Reports :
      {A : Type 0} (reason prefix : String) (m : M F A) (f : A → M F ReconcileResult) (s : State F)
      → reason_of prefix ≡ some reason
      → ((a : A) (t : State F) → t ≡ (m s).1 → (m s).0 ≡ ok a → Reports (f a t).1 (f a t).0)
      → Reports ((step S K reason prefix m >>= f) s).1 ((step S K reason prefix m >>= f) s).0
  unfolding ◌>>=◌
  step-Reports reason prefix m f s known rest =
      settle-Reports reason prefix (m s).0 f (m s).1 known λ a is. rest a (m s).1 refl is

  after_database-Reports :
      (db_ready : Bool) (s : State F)
      → Reports (after_database S K db_ready s).1 (after_database S K db_ready s).0
  unfolding after_database ◌>>=◌ set_condition
  after_database-Reports false s =
      waiting (find_condition-set_condition K sets s.inst "Ready" "Ready" _ _ _)
  after_database-Reports true s =
      step-Reports "CacheNotReady" "reconciling cache" (reconcile_cache S K) _ s refl λ _ t _ _.
        step-Reports "WorkloadApplyFailed" "reconciling workload" (reconcile_workload S K) _ t refl
          λ x v is done.
            finished {u = t} (rw is (reconcile_workload-WorkloadReported S K sets t x done))

  -- If `meta.SetStatusCondition` sets the condition of its type, then after the steps Ready reports their result: an error is that of a step, wrapped, and Ready
  -- is false with the reason of that step and the text of its error; a wait for the database is
  -- reported as DatabaseNotReady and asks for another reconcile in 30 seconds; and where nothing
  -- is left to do, Ready is what the workload step reports.
  pub reconcile_instance-Reports :
      (s : State F) → Reports (reconcile_instance S K s).1 (reconcile_instance S K s).0
  unfolding reconcile_instance
  reconcile_instance-Reports s =
      step-Reports "SecretsNotReady" "reconciling secrets" (reconcile_secrets S K) _ s refl
        λ _ t _ _.
          step-Reports "StorageNotReady" "reconciling storage" (reconcile_storage S K) _ t refl
            λ _ u _ _.
              step-Reports "DatabaseNotReady" "reconciling database" (reconcile_database S K) _ u
                refl λ db_ready v _ _. after_database-Reports db_ready v

  -- What is returned, from the result of the steps and the answer to the patch of the status.
  pub data Returns (result : Result ReconcileResult)
      : Result (Unit {0}) → Result ReconcileResult → Type 0 where
    patched : Returns result (ok tt) result
    refused :
        {e : Error}
        → Returns result (err e) (err (wrap "patching status" (wrap "patching status" e)))

  -- The end of a reconcile of `base`, which exists: the steps end in `steps` with the result
  -- `result`, and the last request patches the status of the instance that was read to that of
  -- `sent`, which has the conditions of the end of the steps.
  pub record Reconciled (base : PaperlessInstance F) (end : Result ReconcileResult × History F)
      : Type 0 where
    pub steps : State F
    pub result : Result ReconcileResult
    pub sent : PaperlessInstance F
    pub reports : Reports steps result
    pub conditions : sent.status.conditions ≡ steps.inst.status.conditions
    pub observed : sent.status.observed_generation ≡ base.generation
    pub unchanged : SameButStatus base steps.inst
    pub unchanged_sent : SameButStatus base sent
    pub last : end.1 ≡ patch_status sent base ∷ steps.history
    pub returned : Returns result (S.status_answer steps.history sent base) end.0

  final_result-Returns :
      (result : Result ReconcileResult) (answer : Result (Unit {0}))
      → Returns result answer (final_result S K result (wrap_error "patching status" answer))
  final_result-Returns result (ok tt) = patched
  final_result-Returns result (err e) = refused

  reconcile_found-Reconciled :
      (base : PaperlessInstance F) (h : History F) → Reconciled base (reconcile_found S K base h)
  unfolding reconcile_found seeded set_condition patch_status_of ◌>>=◌
  reconcile_found-Reconciled base h =
      let begun : State F = record { inst = seeded S K base; history = h } in
      let steps : State F = (reconcile_instance S K begun).1 in
      let unchanged : SameButStatus base steps.inst =
        SameButStatus-trans
          (record { name = refl; namespace = refl; uid = refl; generation = refl; spec = refl })
          (reconcile_instance-SameButStatus S K begun) in
      record {
        steps = steps;
        result = (reconcile_instance S K begun).0;
        sent = observe_generation S K steps.inst;
        reports = reconcile_instance-Reports begun;
        conditions = refl;
        observed = sym unchanged.generation;
        unchanged = unchanged;
        unchanged_sent =
            SameButStatus-trans unchanged (record {
              name = refl;
              namespace = refl;
              uid = refl;
              generation = refl;
              spec = refl;
            });
        last = refl;
        returned = final_result-Returns _ _;
      }

  -- How a reconcile ends, for each answer to the Get of the instance.
  pub data Outcome (key : ObjectKey) (h : History F)
      : Result (PaperlessInstance F) → Result ReconcileResult × History F → Type 0 where
    gone :
        {e : Error}
        → is_not_found e ≡ true
        → Outcome key h (err e) (ok zero_result, get_instance key ∷ h)
    unreadable :
        {e : Error} → is_not_found e ≡ false → Outcome key h (err e) (err e, get_instance key ∷ h)
    found :
        {base : PaperlessInstance F} {end : Result ReconcileResult × History F}
        → Reconciled base end
        → Outcome key h (ok base) end

  after_instance-Outcome :
      (key : ObjectKey) (h : History F) (r : Result (PaperlessInstance F))
      → Outcome key h r (after_instance S K r (get_instance key ∷ h))
  after_instance-Outcome key h (ok base) = found (reconcile_found-Reconciled base _)
  after_instance-Outcome key h (err e) = elim (Bool-cases (is_not_found e)) [
    | inl absent ↦ rw absent (gone absent)
    | inr other ↦ rw other (unreadable other)
  ]

  -- If `meta.SetStatusCondition` sets the condition of its type, then whatever the API server
  -- answers, a reconcile of an instance that is gone succeeds with no further request, another
  -- failure of the Get is returned with no further request, and a reconcile of an instance that
  -- exists ends with a patch of its status, also where a step fails. The status that is sent has
  -- the conditions with which the steps end, of which Ready reports their result, and the
  -- generation of the instance that was read; the rest of the instance is as it was read. If the
  -- patch succeeds, the result of the steps is returned, and otherwise the error of the patch
  -- with the context "patching status", twice.
  pub reconcile-Outcome :
      (key : ObjectKey) (h : History F)
      → Outcome key h (S.instance_answer h key) (reconcile S K key h)
  unfolding reconcile
  reconcile-Outcome key h = after_instance-Outcome key h _
