-- ===== src/Controller/SecretStore/Quiet.antt =====
-- The steps of a reconcile once both Secrets are settled
-- (internal/controller/paperlessinstance_controller.go).
use paperless_ngx_operator.Prelude.{Bool, true, false, String, ok, ◌≡◌}
use paperless_ngx_operator.Kube.{Foreign}
use paperless_ngx_operator.Kube.Objects.{Object}
use paperless_ngx_operator.Resources.Secrets.{secret_key, admin_secret}
use paperless_ngx_operator.Controller.Client.{
  Server, Machinery, Request, History, State, M, create_secret, merge_patch_secret, ◌>>=◌,
}
use paperless_ngx_operator.Controller.Runs.{
  Grows, same, more, Runs, SameButStatus-refl, Keeps, Keeps-bind-lift, Keeps-bind, Keeps-wrapping,
  Keeps-call, Runs-bind,
}
use paperless_ngx_operator.Controller.Apply.{apply}
use paperless_ngx_operator.Controller.Permitted.{Allows}
use paperless_ngx_operator.Controller.Secrets.{reconcile_secrets}
use paperless_ngx_operator.Controller.Steps.Trace.{
  reconcile_storage-Keeps, reconcile_database-Keeps,
}
use paperless_ngx_operator.Controller.Reconcile.{step, reconcile_instance}
use paperless_ngx_operator.Controller.Reconcile.Trace.{step-Keeps, after_database-Keeps}
use paperless_ngx_operator.Controller.SecretStore.{View, IsStore}
use paperless_ngx_operator.Controller.SecretStore.Policy.{Settled}
use paperless_ngx_operator.Controller.SecretStore.Settled.{
  secret_key_at, admin_secret_at, settled_again,
}

-- The request does not write a Secret.
abbrev pub Quiet : {F : Foreign} → Request F → History F → Type 0
Quiet (create_secret s) h = ⊥
Quiet (merge_patch_secret key body) h = ⊥
Quiet _ h = Unit

module _ {F : Foreign} (S : Server F) (K : Machinery F) where
  apply-Quiet : (obj : Object F) → Keeps Quiet (apply S K obj)
  unfolding apply
  apply-Quiet obj = Keeps-bind-lift _ _ λ gvk x.
      Keeps-bind-lift _ _
        λ encoded y. Keeps-bind-lift _ _ λ body z. Keeps-wrapping _ _ (Keeps-call _ _ λ h. tt)

  Quiet-Allows : (workload : Bool) → Allows S K Quiet workload
  Quiet-Allows workload = record {
    secret_read = λ key h. tt;
    crd_read = λ name h. tt;
    applied = λ obj allowed operand. apply-Quiet obj;
  }

  -- A step whose action succeeds.
  step_of_success :
      (reason prefix : String) (m : M F (Unit {0})) (s t : State F)
      → m s ≡ (ok tt, t)
      → Runs Quiet s t
      → Runs Quiet s (step S K reason prefix m s).1
  unfolding step ◌>>=◌
  step_of_success reason prefix m s t is runs = rw is runs

module _ {F : Foreign} (S : Server F) (K : Machinery F) (view : View F)
    (store : IsStore S K view) where
  -- From a state in which both Secrets are settled, the steps of a reconcile write no Secret,
  -- however they end.
  pub reconcile_instance-Quiet :
      (s : State F)
      → Settled S K view (secret_key_at s.inst) secret_key s.inst s.history
      → Settled S K view (admin_secret_at s.inst) admin_secret s.inst s.history
      → Grows Quiet s.history (reconcile_instance S K s).1.history
  unfolding reconcile_instance
  reconcile_instance-Quiet s first second =
      (Runs-bind _ _ s
        (step_of_success S K _ _ (reconcile_secrets S K) s _
          (settled_again S K view store s first second)
          (record { static = SameButStatus-refl s.inst; grows = more _ (more _ same tt) tt }))
        λ _ e.
          (Keeps-bind _ _
              (step-Keeps S K _ _ _ (reconcile_storage-Keeps S K (Quiet-Allows S K false)))
              λ _.
                Keeps-bind _ _
                  (step-Keeps S K _ _ _ (reconcile_database-Keeps S K (Quiet-Allows S K false)))
                  (after_database-Keeps S K (Quiet-Allows S K true))).at
            _).grows
