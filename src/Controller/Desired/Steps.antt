-- ===== src/Controller/Desired/Steps.antt =====
-- Each step of a reconcile that succeeds puts what the instance asks for into the cluster
-- (internal/controller/paperlessinstance_controller.go).
use mathlib.Core.Path.{subst}
use mathlib.Core.List.{map-append}
use paperless_ngx_operator.Prelude.{
  ℤ, Bool, true, false, String, Option, none, some, List, [], ◌∷◌, map, Result, ok, ◌≡◌, refl, sym,
  ap, wrap_error, wrap_error-eq-ok,
}
use paperless_ngx_operator.Kube.{Foreign}
use paperless_ngx_operator.Kube.Objects.{
  Object, PersistentVolumeClaim, Unstructured, deployment, service, pvc, unstructured,
}
use paperless_ngx_operator.Api.Types.{PaperlessInstance, ExternalDatabase}
use paperless_ngx_operator.Resources.Storage.{pvcs}
use paperless_ngx_operator.Resources.Cache.{valkey_deployment, valkey_service, valkey_pvc}
use paperless_ngx_operator.Resources.Database.{cnpg_cluster}
use paperless_ngx_operator.Controller.Client.{Server, Machinery, State, M, ◌>>=◌, lift, wrapping}
use paperless_ngx_operator.Controller.Runs.{
  Keeps, Keeps-wrapping, keeps_rules, SameButStatus, SameButStatus-trans,
}
use paperless_ngx_operator.Controller.Inversion.{bind-eq-ok, bind-lift-eq-ok}
use paperless_ngx_operator.Controller.Apply.{apply_owned, apply_stateful}
use paperless_ngx_operator.Controller.Apply.Success.{
  Sent, with_references, apply_owned-Sent, apply_stateful-Sent,
}
use paperless_ngx_operator.Controller.Steps.Trace.{mark-Keeps}
use paperless_ngx_operator.Controller.Steps.{
  reconcile_storage, object_of, reconcile_cache, report_workload, reconcile_workload,
}
use paperless_ngx_operator.Controller.Steps.Order.{
  ByPolicy, Controlled, pvc_objects, listed, cache_objects, reconcile_storage-Applied,
  reconcile_cache-Applied,
}
use paperless_ngx_operator.Controller.Database.{
  cnpg_installed, apply_cluster, reconcile_managed_database, database_step, reconcile_database,
}
use paperless_ngx_operator.Controller.Desired.{
  Want, stateful, stateless, claims, wanted, wanted_cluster, storage_wants, database_wants,
  cache_wants, workload_wants,
}
use paperless_ngx_operator.Controller.Desired.Places.{NoApply}
use paperless_ngx_operator.Controller.Desired.Puts.{
  Puts, Puts-Sent, Puts-quiet, Puts-after, Sent-SameButStatus, stateful-OwnedAs, stateless-OwnedAs,
  Applied-Puts,
}
use paperless_ngx_operator.Controller.Desired.Quiet.{
  report_workload-NoApply, reconcile_external_database-NoApply, cnpg_installed-NoApply,
}

module _ {F : Foreign} (S : Server F) (K : Machinery F) (i : PaperlessInstance F) where
  claims-map : (ps : List (PersistentVolumeClaim F)) → map stateful (pvc_objects S K ps) ≡ claims ps
  claims-map [] = refl
  claims-map (p ∷ ps) = ap {B = List (Want F)} (λ ws. stateful (pvc p) ∷ ws) (claims-map ps)

  wanted-map :
      {A : Type 0} (f : A → Object F) (o : Option A)
      → map stateless (listed S K (object_of S K f o)) ≡ wanted f o
  wanted-map f none = refl
  wanted-map f (some a) = refl

  pub reconcile_storage-Puts :
      (s : State F)
      → SameButStatus i s.inst
      → (reconcile_storage S K s).0 ≡ ok tt
      → Puts S K i (storage_wants s.inst) s (reconcile_storage S K s).1
  unfolding storage_wants
  reconcile_storage-Puts s same_ h = rw (claims-map (pvcs s.inst)) at (
      Applied-Puts S K i (ByPolicy S K) stateful (stateful-OwnedAs S K i) same_
        (reconcile_storage-Applied S K s h))

  cache_objects-map :
      (j : PaperlessInstance F) → map stateless (cache_objects S K j) ≡ cache_wants j
  unfolding cache_wants
  cache_objects-map j =
      rw
        (
          map-append stateless (listed S K (object_of S K deployment (valkey_deployment j))) _,
          map-append stateless (listed S K (object_of S K service (valkey_service j))) _,
          wanted-map deployment (valkey_deployment j),
          wanted-map service (valkey_service j),
          wanted-map pvc (valkey_pvc j),
        )
        refl

  pub reconcile_cache-Puts :
      (s : State F)
      → SameButStatus i s.inst
      → (reconcile_cache S K s).0 ≡ ok tt
      → Puts S K i (cache_wants s.inst) s (reconcile_cache S K s).1
  reconcile_cache-Puts s same_ h = rw (cache_objects-map s.inst) at (
      Applied-Puts S K i (Controlled S K) stateless (stateless-OwnedAs S K i) same_
        (reconcile_cache-Applied S K s h))

  wrapped_owned-Sent :
      (prefix : String) (obj : Object F) (s : State F) (n : ℤ)
      → (wrapping prefix (apply_owned S K obj) s).0 ≡ ok n
      → (refs : List F.OwnerReference) × Controlled S K s obj refs
        × Sent S K (with_references S K refs obj) s n (wrapping prefix (apply_owned S K obj) s).1
  unfolding ◌>>=◌
  wrapped_owned-Sent prefix obj s n h = apply_owned-Sent S K obj s n (wrap_error-eq-ok _ _ h)

  wrapped_stateful-Sent :
      (prefix : String) (obj : Object F) (s : State F) (n : ℤ)
      → (wrapping prefix (apply_stateful S K obj) s).0 ≡ ok n
      → (refs : List F.OwnerReference) × ByPolicy S K s obj refs
        × Sent S K (with_references S K refs obj) s n (wrapping prefix (apply_stateful S K obj) s).1
  unfolding ◌>>=◌
  wrapped_stateful-Sent prefix obj s n h =
      let (refs, on_delete, otherwise, sent) =
        apply_stateful-Sent S K obj s n (wrap_error-eq-ok _ _ h) in
      (refs, record { on_delete = on_delete; otherwise = otherwise }, sent)

  two_applies-Puts :
      (a b : Object F) (p q : String) (s : State F)
      → SameButStatus i s.inst
      → ((wrapping p (apply_owned S K a) >>= λ x.
            wrapping q (apply_owned S K b) >>= report_workload S K)
          s).0
        ≡ ok tt
      → Puts S K i
          (stateless a ∷ stateless b ∷ [])
          s
          ((wrapping p (apply_owned S K a) >>= λ x.
              wrapping q (apply_owned S K b) >>= report_workload S K)
            s).1
  two_applies-Puts a b p q s same_ h =
      let (m, e1, h1, t1) = bind-eq-ok _ _ s tt h in
      let (refs, set, sent) = wrapped_owned-Sent p a s m e1 in
      let (n, e2, h2, t2) = bind-eq-ok _ _ _ tt h1 in
      let (refs', set', sent') = wrapped_owned-Sent q b _ n e2 in
      let later = Sent-SameButStatus S K i same_ sent in
      rw (t1, t2)
        (Puts-Sent S K i (stateless-OwnedAs S K i s a refs same_ set) sent (
          Puts-Sent S K i
            (stateless-OwnedAs S K i (wrapping p (apply_owned S K a) s).1 b refs' later set') sent'
            (Puts-quiet S K i
              ((report_workload-NoApply S K n).at
                (wrapping q (apply_owned S K b) (wrapping p (apply_owned S K a) s).1).1).grows)))

  pub reconcile_workload-Puts :
      (s : State F)
      → SameButStatus i s.inst
      → (reconcile_workload S K s).0 ≡ ok tt
      → Puts S K i (workload_wants s.inst) s (reconcile_workload S K s).1
  unfolding reconcile_workload workload_wants ◌>>=◌
  reconcile_workload-Puts s same_ h =
      two_applies-Puts _ _ "applying service" "applying deployment" s same_ h

  build_and_apply-Puts :
      (r : Result (Unstructured F)) (p q : String) (rest : M F Bool) (s : State F) (b : Bool)
      → SameButStatus i s.inst
      → Keeps NoApply rest
      → ((lift (wrap_error p r) >>= λ c.
            wrapping q (apply_stateful S K (unstructured c)) >>= λ n. rest)
          s).0
        ≡ ok b
      → Puts S K i
          (wanted_cluster none r)
          s
          ((lift (wrap_error p r) >>= λ c.
              wrapping q (apply_stateful S K (unstructured c)) >>= λ n. rest)
            s).1
  build_and_apply-Puts r p q rest s b same_ quiet h =
      let (c, e1, h1, t1) = bind-lift-eq-ok _ _ s b h in
      let (n, e2, h2, t2) = bind-eq-ok _ _ s b h1 in
      let (refs, by, sent) = wrapped_stateful-Sent q (unstructured c) s n e2 in
      let applied : State F = (wrapping q (apply_stateful S K (unstructured c)) s).1 in
      rw (t1, t2)
        (subst (λ built. Puts S K i (wanted_cluster none built) s (rest applied).1)
          (sym (wrap_error-eq-ok p r e1))
          (Puts-Sent S K i (stateful-OwnedAs S K i s (unstructured c) refs same_ by) sent
            (Puts-quiet S K i (quiet.at applied).grows)))

  apply_cluster-Puts :
      (installed : Bool) (s : State F)
      → SameButStatus i s.inst
      → (apply_cluster S K installed s).0 ≡ ok true
      → Puts S K i (wanted_cluster none (cnpg_cluster s.inst)) s (apply_cluster S K installed s).1
  unfolding apply_cluster ◌>>=◌
  apply_cluster-Puts false s same_ h = absurd (cc)
  apply_cluster-Puts true s same_ h =
      build_and_apply-Puts (cnpg_cluster s.inst) "building CloudNativePG cluster"
        "applying CloudNativePG cluster" _ s true same_ (search (keeps_rules, mark-Keeps S K)) h

  checked-inst :
      (s : State F) → (wrapping "checking for CloudNativePG" (cnpg_installed S K) s).1.inst ≡ s.inst
  unfolding cnpg_installed ◌>>=◌
  checked-inst s = refl

  reconcile_managed_database-Puts :
      (s : State F)
      → SameButStatus i s.inst
      → (reconcile_managed_database S K s).0 ≡ ok true
      → Puts S K i
          (wanted_cluster none (cnpg_cluster s.inst))
          s
          (reconcile_managed_database S K s).1
  unfolding reconcile_managed_database
  reconcile_managed_database-Puts s same_ h =
      let (installed, e1, h1, t1) = bind-eq-ok _ _ s true h in
      let checked : State F = (wrapping "checking for CloudNativePG" (cnpg_installed S K) s).1 in
      let looked =
        (Keeps-wrapping "checking for CloudNativePG" _ (cnpg_installed-NoApply S K)).at s in
      rw t1 (
        Puts-after S K i {t = checked} looked.grows (
          subst
            (λ j.
              Puts S K i (wanted_cluster none (cnpg_cluster j)) checked
                (apply_cluster S K installed checked).1)
            (checked-inst s)
            (apply_cluster-Puts installed checked (SameButStatus-trans same_ looked.static) h1)))

  database_step-Puts :
      (o : Option ExternalDatabase) (s : State F)
      → SameButStatus i s.inst
      → (database_step S K o s).0 ≡ ok true
      → Puts S K i (wanted_cluster o (cnpg_cluster s.inst)) s (database_step S K o s).1
  database_step-Puts none s same_ h = reconcile_managed_database-Puts s same_ h
  database_step-Puts (some ext) s same_ h =
      Puts-quiet S K i ((reconcile_external_database-NoApply S K ext).at s).grows

  pub reconcile_database-Puts :
      (s : State F)
      → SameButStatus i s.inst
      → (reconcile_database S K s).0 ≡ ok true
      → Puts S K i (database_wants s.inst) s (reconcile_database S K s).1
  unfolding reconcile_database database_wants ◌>>=◌
  reconcile_database-Puts s same_ h = database_step-Puts _ s same_ h
