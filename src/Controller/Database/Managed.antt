-- ===== src/Controller/Database/Managed.antt =====
-- The branches of `reconcileManagedDatabase`
-- (internal/controller/paperlessinstance_controller.go).
use paperless_ngx_operator.Prelude.{
  ℤ, Bool, true, false, String, List, ◌∷◌, Result, ok, err, wrap, wrap_error, Error, ◌≡◌, ◌≢◌, refl,
  sym, ◌∙◌, ap, Bool-cases, inl, inr, wrap_error-eq-ok,
}
use paperless_ngx_operator.Kube.{Foreign}
use paperless_ngx_operator.Kube.Objects.{
  Unstructured, unstructured, condition_true, condition_false,
}
use paperless_ngx_operator.Api.Types.{PaperlessInstance}
use paperless_ngx_operator.Resources.Database.{cnpg_cluster}
use paperless_ngx_operator.Controller.Client.{
  Server, Machinery, State, get_crd, is_not_found, ◌>>=◌, ◌>>◌, current, pure,
}
use paperless_ngx_operator.Controller.Conditions.{mark}
use paperless_ngx_operator.Controller.Conditions.Lookup.{SetsCondition}
use paperless_ngx_operator.Controller.Inversion.{bind-eq-ok, bind-lift-eq-ok, wrapping-eq-ok}
use paperless_ngx_operator.Controller.Apply.{apply_stateful}
use paperless_ngx_operator.Controller.Apply.Success.{Sent, with_references, apply_stateful-Sent}
use paperless_ngx_operator.Controller.Database.{
  cnpg_crd_name, cnpg_installed, apply_cluster, reconcile_managed_database,
}
use paperless_ngx_operator.Controller.Database.Branches.{Marked, Marked-mark}

module _ {F : Foreign} (S : Server F) (K : Machinery F) (sets : SetsCondition K) where
  -- The Cluster that is built from the instance has been applied under the deletion policy, which
  -- was the only request, and DatabaseReady says so.
  pub record ClusterApplied (s t : State F) : Type 0 where
    pub cluster : Unstructured F
    pub built : cnpg_cluster s.inst ≡ ok cluster
    pub refs : List F.OwnerReference
    pub replicas : ℤ
    pub sent : State F
    pub on_delete :
        s.inst.spec.deletion_policy ≡ "Delete"
        → K.set_controller_reference s.inst cluster.metadata ≡ ok refs
    pub otherwise :
        s.inst.spec.deletion_policy ≢ "Delete" → refs ≡ cluster.metadata.owner_references
    pub request : Sent S K (with_references S K refs (unstructured cluster)) s replicas sent
    pub history : t.history ≡ sent.history
    pub marked : Marked S K sets t condition_true "CloudNativePGClusterApplied"

  mark_applied :
      (u : State F) (b : Bool) (message : String)
      → ((mark K "DatabaseReady" condition_true "CloudNativePGClusterApplied" message >> pure true)
          u).0
        ≡ ok b
      → (b ≡ true)
        × (((mark K "DatabaseReady" condition_true "CloudNativePGClusterApplied" message
                >> pure true)
              u).1.history
            ≡ u.history)
        × Marked S K sets
            ((mark K "DatabaseReady" condition_true "CloudNativePGClusterApplied" message
                >> pure true)
              u).1
            condition_true
            "CloudNativePGClusterApplied"
  unfolding ◌>>=◌
  mark_applied u b message h = (cc, refl, Marked-mark S K sets u _ _ _)

  ClusterApplied-of :
      (s t u v : State F) (i : PaperlessInstance F) (c : Unstructured F) (n : ℤ) (prefix : String)
      → i ≡ s.inst
      → u ≡ s
      → wrap_error prefix (cnpg_cluster i) ≡ ok c
      → (apply_stateful S K (unstructured c) u).0 ≡ ok n
      → v ≡ (apply_stateful S K (unstructured c) u).1
      → t.history ≡ v.history
      → Marked S K sets t condition_true "CloudNativePGClusterApplied"
      → ClusterApplied s t
  ClusterApplied-of s t u v i c n prefix is still built sent after end marked =
      let (refs, on_delete, otherwise, request) =
        apply_stateful-Sent S K (unstructured c) s n (rw still at sent) in
      record {
        cluster = c;
        built = ap cnpg_cluster (sym is) ∙ wrap_error-eq-ok prefix (cnpg_cluster i) built;
        refs = refs;
        replicas = n;
        sent = (apply_stateful S K (unstructured c) s).1;
        on_delete = on_delete;
        otherwise = otherwise;
        request = request;
        history = end ∙ ap (λ x. x.history) after ∙ rw still refl;
        marked = marked;
      }

  current-eq-ok :
      (s : State F) (i : PaperlessInstance F)
      → (current s).0 ≡ ok i
      → (i ≡ s.inst) × ((current s).1 ≡ s)
  unfolding ◌>>=◌
  current-eq-ok s i h = (cc, refl)

  apply_cluster-ClusterApplied :
      (s : State F) (b : Bool)
      → (apply_cluster S K true s).0 ≡ ok b
      → (b ≡ true) × ClusterApplied s (apply_cluster S K true s).1
  unfolding apply_cluster
  apply_cluster-ClusterApplied s b h =
      let (i, e1, h1, t1) = bind-eq-ok current _ s b h in
      let (c, e2, h2, t2) = bind-lift-eq-ok _ _ _ b h1 in
      let (n, e3, h3, t3) = bind-eq-ok _ _ _ b h2 in
      let (sent, after) = wrapping-eq-ok _ _ _ n e3 in
      let (ready, quiet, marked) = mark_applied _ b _ h3 in
      let (is, still) = current-eq-ok s i e1 in
      let end = t1 ∙ t2 ∙ t3 in
      (
        ready,
        rw end (
            ClusterApplied-of s _ _ _ i c n "building CloudNativePG cluster" is still e2 sent after
              quiet marked),
      )

  -- What the step reports, for each answer to the Get of the definition of Clusters.
  pub data Managed (s : State F) : Result (Unit {0}) → Result Bool → State F → Type 0 where
    absent :
        {e : Error} {t : State F}
        → is_not_found e ≡ true
        → t.history ≡ get_crd cnpg_crd_name ∷ s.history
        → Marked S K sets t condition_false "CloudNativePGMissing"
        → Managed s (err e) (ok false) t
    unreadable :
        {e : Error} {t : State F}
        → is_not_found e ≡ false
        → t.history ≡ get_crd cnpg_crd_name ∷ s.history
        → Managed s (err e) (err (wrap "checking for CloudNativePG" e)) t
    refused : {x : Unit {0}} {e : Error} {t : State F} → Managed s (ok x) (err e) t
    applied :
        {x : Unit {0}} {t : State F}
        → ClusterApplied (record s { history = get_crd cnpg_crd_name ∷ s.history }) t
        → Managed s (ok x) (ok true) t

  apply_cluster-Managed :
      (s : State F) (x : Unit {0}) (r : Result Bool)
      → r ≡ (apply_cluster S K true (record s { history = get_crd cnpg_crd_name ∷ s.history })).0
      → Managed s
          (ok x)
          r
          (apply_cluster S K true (record s { history = get_crd cnpg_crd_name ∷ s.history })).1
  apply_cluster-Managed s x (err e) h = refused
  apply_cluster-Managed s x (ok b) h =
      let (ready, done) = apply_cluster-ClusterApplied _ b (sym h) in rw ready (applied done)

  Managed-of :
      (s : State F) (r : Result (Unit {0}))
      → S.crd_answer s.history cnpg_crd_name ≡ r
      → Managed s r (reconcile_managed_database S K s).0 (reconcile_managed_database S K s).1
  unfolding reconcile_managed_database cnpg_installed ◌>>=◌
  Managed-of s (ok x) h = rw h (apply_cluster-Managed s x _ refl)
  Managed-of s (err e) h =
      let asked : State F = record s { history = get_crd cnpg_crd_name ∷ s.history } in
      elim (Bool-cases (is_not_found e)) [
        | inl missing ↦ rw (h, missing) (absent missing refl (Marked-mark S K sets asked _ _ _))
        | inr other ↦ rw (h, other) (unreadable other refl)
      ]

  -- Whatever the API server answers, if `meta.SetStatusCondition` sets the condition of its type:
  -- without the definition of CloudNativePG's Clusters the step makes no other request, reports
  -- not ready and leaves DatabaseReady false with the reason CloudNativePGMissing; another failure
  -- of that Get is returned; and where the definition exists, a step that does not fail is ready,
  -- has applied the Cluster of the instance under the deletion policy as its only other request,
  -- and leaves DatabaseReady true.
  pub reconcile_managed_database-Managed :
      (s : State F)
      → Managed s
          (S.crd_answer s.history cnpg_crd_name)
          (reconcile_managed_database S K s).0
          (reconcile_managed_database S K s).1
  reconcile_managed_database-Managed s = Managed-of s _ refl
