-- ===== src/Controller/Steps/Success.antt =====
-- What a successful workload step has sent and reported.
use paperless_ngx_operator.Prelude.{
  ℤ, false, String, Option, some, List, ◌∷◌, ok, ◌≡◌, ◌↔◌, refl, sym, ◌∙◌, ap, less_than_one,
  Bool-cases, inl, inr,
}
use paperless_ngx_operator.Kube.{Foreign}
use paperless_ngx_operator.Kube.Objects.{Condition, deployment, service, condition_true}
use paperless_ngx_operator.Api.Types.{PaperlessInstance}
use paperless_ngx_operator.Resources.Workload
use paperless_ngx_operator.Controller.Client.{
  Server, Machinery, State, apply_patch, ◌>>=◌, M, ◌>>◌, wrapping,
}
use paperless_ngx_operator.Controller.Inversion.{bind-eq-ok, wrapping-eq-ok}
use paperless_ngx_operator.Controller.Conditions.Lookup.{
  find_condition, SetsCondition, find_condition-set_condition,
}
use paperless_ngx_operator.Controller.Apply.{apply_owned}
use paperless_ngx_operator.Controller.Apply.Success.{Sent, apply_owned-Sent, with_references}
use paperless_ngx_operator.Controller.Conditions.{set_condition}
use paperless_ngx_operator.Controller.Runs.{SameButStatus, SameButStatus-eq, SameButStatus-trans}
use paperless_ngx_operator.Controller.Steps.Trace.{set_condition-SameButStatus}
use paperless_ngx_operator.Controller.Steps.{report_workload, reconcile_workload}

module _ {F : Foreign} (S : Server F) (K : Machinery F) (sets : SetsCondition K) where
  -- The condition Ready of a state.
  abbrev pub ready : State F → Option Condition
  ready s = find_condition "Ready" s.inst.status.conditions

  -- The step has applied the Service and then the Deployment of the instance; the answer to the
  -- latter counts `replicas` ready replicas, Ready observes the generation of the instance, and is
  -- true exactly if that is at least one.
  pub record WorkloadReported (s t : State F) : Type 0 where
    pub replicas : ℤ
    pub service_references : List F.OwnerReference
    pub service_body : String
    pub references : List F.OwnerReference
    pub body : String
    pub condition : Condition
    pub history :
        t.history
        ≡ apply_patch
            (with_references S K references (deployment (Workload.deployment s.inst)))
            body
          ∷ apply_patch
              (with_references S K service_references (service (Workload.service s.inst)))
              service_body
          ∷ s.history
    pub answered :
        S.apply_answer
          (apply_patch
              (with_references S K service_references (service (Workload.service s.inst)))
              service_body
            ∷ s.history)
          (with_references S K references (deployment (Workload.deployment s.inst)))
          body
        ≡ ok replicas
    pub reported : ready t ≡ some condition
    pub observed : condition.observed_generation ≡ s.inst.generation
    pub exact : (condition.status ≡ condition_true) ↔ (less_than_one replicas ≡ false)
    pub static : SameButStatus s.inst t.inst

  report_workload-ready :
      (n : ℤ) (u : State F)
      → (c : Condition) × (ready (report_workload S K n u).1 ≡ some c)
        × (c.observed_generation ≡ u.inst.generation)
        × ((c.status ≡ condition_true) ↔ (less_than_one n ≡ false))
        × ((report_workload S K n u).1.history ≡ u.history)
        × SameButStatus u.inst (report_workload S K n u).1.inst
  unfolding report_workload ◌>>=◌ set_condition
  report_workload-ready n u = elim (Bool-cases (less_than_one n)) [
    | inl none_ready ↦ rw none_ready (
      _,
      find_condition-set_condition K sets u.inst "Ready" "Ready" _ _ _,
      refl,
      (λ e. cc, λ e. cc),
      refl,
      set_condition-SameButStatus S K _ _ _ _ u.inst,
    )
    | inr some_ready ↦ rw some_ready (
      _,
      find_condition-set_condition K sets u.inst "Ready" "Ready" _ _ _,
      refl,
      (λ e. refl, λ e. refl),
      refl,
      set_condition-SameButStatus S K _ _ _ _ u.inst,
    )
  ]

  WorkloadReported-of :
      (s t u v : State F) (k n : ℤ)
      → (refs : List F.OwnerReference)
      → Sent S K (with_references S K refs (service (Workload.service s.inst))) s k u
      → (apply_owned S K (deployment (Workload.deployment s.inst)) u).0 ≡ ok n
      → v ≡ (apply_owned S K (deployment (Workload.deployment s.inst)) u).1
      → t ≡ (report_workload S K n v).1
      → WorkloadReported s t
  WorkloadReported-of s t u v k n refs first sent after end =
      let (own_refs, set, request) =
        apply_owned-Sent S K (deployment (Workload.deployment s.inst)) u n sent in
      let (c, reported, observed, exact, still, static) = report_workload-ready n v in
      let kept : v.inst ≡ s.inst =
        ap (λ x. x.inst) (after ∙ request.state) ∙ ap (λ x. x.inst) first.state in
      record {
        replicas = n;
        service_references = refs;
        service_body = first.body;
        references = own_refs;
        body = request.body;
        condition = c;
        history =
            ap (λ x. x.history) end
            ∙ still
            ∙ ap (λ x. x.history) (after ∙ request.state)
            ∙ ap
                (λ x.
                  apply_patch
                    (with_references S K own_refs (deployment (Workload.deployment s.inst)))
                    request.body
                  ∷ x.history)
                first.state;
        answered =
            ap
              (λ x.
                S.apply_answer x.history
                  (with_references S K own_refs (deployment (Workload.deployment s.inst)))
                  request.body)
              (sym first.state)
            ∙ request.answered;
        reported = ap ready end ∙ reported;
        observed = observed ∙ ap (λ (i : PaperlessInstance F). i.generation) kept;
        exact = exact;
        static = SameButStatus-trans (SameButStatus-eq (sym kept)) (rw end static);
      }

  -- What `reconcileWorkload` does with the instance that it has read.
  abbrev workload_of : PaperlessInstance F → M F (Unit {0})
  workload_of i = do
    wrapping "applying service" (apply_owned S K (service (Workload.service i)))
    n ← wrapping "applying deployment" (apply_owned S K (deployment (Workload.deployment i)))
    report_workload S K n

  workload_of-WorkloadReported :
      (s t : State F) (x : Unit {0})
      → (workload_of s.inst s).0 ≡ ok x
      → t ≡ (workload_of s.inst s).1
      → WorkloadReported s t
  workload_of-WorkloadReported s t x h end =
      let (k, e1, h1, t1) = bind-eq-ok _ _ s x h in
      let (first, after_first) = wrapping-eq-ok _ _ s k e1 in
      let (refs, set, request) =
        apply_owned-Sent S K (service (Workload.service s.inst)) s k first in
      let (n, e2, h2, t2) = bind-eq-ok _ _ _ x h1 in
      let (sent, after) = wrapping-eq-ok _ _ _ n e2 in
      WorkloadReported-of s t _ _ k n refs (rw after_first request) sent after (end ∙ t1 ∙ t2)

  -- If `meta.SetStatusCondition` sets the condition of its type, a workload step that succeeds
  -- has sent two requests: an apply of the Service and then one of the Deployment that are built
  -- from the instance, each with some owner references. The condition Ready then observes the
  -- generation of the instance, and is true exactly if the API server's answer to the second
  -- apply counts at least one ready replica; the rest of the instance, its status aside, is
  -- unchanged.
  pub reconcile_workload-WorkloadReported :
      (s : State F) (x : Unit {0})
      → (reconcile_workload S K s).0 ≡ ok x
      → WorkloadReported s (reconcile_workload S K s).1
  unfolding reconcile_workload ◌>>=◌
  reconcile_workload-WorkloadReported s x h = workload_of-WorkloadReported s _ x h refl
