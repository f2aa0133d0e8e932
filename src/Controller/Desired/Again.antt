-- ===== src/Controller/Desired/Again.antt =====
-- A second reconcile that succeeds changes nothing in the cluster
-- (internal/controller/paperlessinstance_controller.go).
use paperless_ngx_operator.Prelude.{
  true, false, ◌==◌, All, some, List, [], ◌∷◌, ok, ◌≡◌, ◌≢◌, ◌⊎◌, refl, sym, ◌∙◌, ap, arith, inl,
  inr, Bool-cases, eq_iff,
}
use paperless_ngx_operator.Kube.{Foreign}
use paperless_ngx_operator.Kube.Objects.{Object, ObjectKey, ObjectMeta, metadata}
use paperless_ngx_operator.Api.Types.{PaperlessInstance}
use paperless_ngx_operator.Controller.Client.{Server, Machinery, History}
use paperless_ngx_operator.Controller.Runs.{SameButStatus, Grows}
use paperless_ngx_operator.Controller.Reconcile.{zero_result, reconcile}
use paperless_ngx_operator.Controller.Desired.{
  Want, Ownership, controlled, by_policy, Slot, slot_eq, slot_of, Cluster, cluster_of, OwnedAs,
  AllOwned, nothing, also,
}
use paperless_ngx_operator.Controller.Desired.Places.{NoApply, cluster_of-Grows}
use paperless_ngx_operator.Controller.Desired.Status.{desired-status}
use paperless_ngx_operator.Controller.Desired.Whole.{Achieved, reconcile-Achieved}

-- `SetControllerReference` does not look at the status of the owner.
abbrev pub IgnoresStatus : {F : Foreign} → Machinery F → Type 0
IgnoresStatus {F} K =
    (i j : PaperlessInstance F) (meta : ObjectMeta F)
    → SameButStatus i j
    → K.set_controller_reference i meta ≡ K.set_controller_reference j meta

module _ {F : Foreign} {K : Machinery F} (ignores : IgnoresStatus K) where
  owned-refs :
      {i j : PaperlessInstance F} (w : Want F) {a b : Object F} (p : OwnedAs K i w a)
      (q : OwnedAs K j w b)
      → SameButStatus i j
      → (w.ownership ≡ controlled) ⊎ (i.spec.deletion_policy ≡ "Delete")
      → (w.ownership ≡ controlled) ⊎ (j.spec.deletion_policy ≡ "Delete")
      → p.refs ≡ q.refs
  owned-refs w p q same_ one other =
      let (k, same_k, set) = p.owned one in
      let (l, same_l, set') = q.owned other in
      cc (
        set,
        set',
        ignores _ _ (metadata w.object) same_k,
        ignores _ _ (metadata w.object) same_,
        ignores _ _ (metadata w.object) same_l,
      )

  OwnedAs-refs :
      {i j : PaperlessInstance F} (w : Want F) {a b : Object F} (o : Ownership)
      (p : OwnedAs K i w a) (q : OwnedAs K j w b)
      → SameButStatus i j
      → w.ownership ≡ o
      → p.refs ≡ q.refs
  OwnedAs-refs w controlled p q same_ is = owned-refs w p q same_ (inl is) (inl is)
  OwnedAs-refs {i} {j} w by_policy p q same_ is =
      let policies : i.spec.deletion_policy ≡ j.spec.deletion_policy =
        ap (λ x. x.deletion_policy) same_.spec in
      elim (Bool-cases (i.spec.deletion_policy == "Delete")) [
        | inl delete ↦
            let is_delete : i.spec.deletion_policy ≡ "Delete" =
              ground (arith, eq_iff i.spec.deletion_policy "Delete") in
            owned-refs w p q same_ (inr is_delete) (inr (sym policies ∙ is_delete))
        | inr other ↦
            let not_delete : i.spec.deletion_policy ≢ "Delete" =
              ground (arith, eq_iff i.spec.deletion_policy "Delete") in
            p.unowned is not_delete ∙ sym (q.unowned is (λ e. not_delete (policies ∙ e)))
      ]

  AllOwned-unique :
      {i j : PaperlessInstance F} {ws : List (Want F)} {xs ys : List (Object F)}
      → SameButStatus i j
      → AllOwned K i ws xs
      → AllOwned K j ws ys
      → xs ≡ ys
  AllOwned-unique same_ nothing nothing = refl
  AllOwned-unique same_ (also {w = w} p rest) (also q others) =
      rw (p.is, q.is, OwnedAs-refs w w.ownership p q same_ refl, AllOwned-unique same_ rest others)
        refl

slot_eq-eq : (a b : Slot) → slot_eq a b ≡ true → a ≡ b
slot_eq-eq a b h =
    ground (arith, eq_iff a.kind b.kind, eq_iff a.name b.name, eq_iff a.namespace b.namespace)

slot_ne : (a b : Slot) → slot_eq a b ≡ false → a ≢ b
slot_ne a b h e = ground (
  arith,
  eq_iff a.kind b.kind,
  eq_iff a.name b.name,
  eq_iff a.namespace b.namespace,
  ap (λ s. s.kind) e,
  ap (λ s. s.name) e,
  ap (λ s. s.namespace) e,
)

module _ {F : Foreign} where
  -- Two clusters that hold the same objects agree in the places of these.
  agree :
      (c d : Cluster F) (objs : List (Object F)) (slot : Slot)
      → All (λ obj. c (slot_of obj) ≡ some obj) objs
      → All (λ obj. d (slot_of obj) ≡ some obj) objs
      → (c slot ≡ d slot) ⊎ All (λ obj. slot_of obj ≢ slot) objs
  agree c d [] slot p q = inr tt
  agree c d (obj ∷ objs) slot p q = elim (Bool-cases (slot_eq (slot_of obj) slot)) [
    | inl here ↦ inl (rw (sym (slot_eq-eq (slot_of obj) slot here)) (p.0 ∙ sym q.0))
    | inr elsewhere ↦ elim (agree c d objs slot p.1 q.1) [
      | inl done ↦ inl done
      | inr others ↦ inr (slot_ne (slot_of obj) slot elsewhere, others)
    ]
  ]

module _ {F : Foreign} (S : Server F) (K : Machinery F) (ignores : IgnoresStatus K) where
  Achieved-twice :
      {i j : PaperlessInstance F} {h k l m : History F}
      → SameButStatus i j
      → Achieved S K i h k
      → Grows NoApply k l
      → Achieved S K j l m
      → (slot : Slot) → cluster_of S m slot ≡ cluster_of S k slot
  Achieved-twice {k = k} {m = m} same_ one between other slot =
      let objs_eq =
        AllOwned-unique ignores same_ one.owned (rw (desired-status same_) at other.owned) in
      elim (agree (cluster_of S m) (cluster_of S k) one.objs slot (rw objs_eq other.held)
        one.held) [
          | inl done ↦ done
          | inr others ↦
              other.untouched slot (rw (sym objs_eq) others)
              ∙ ap (λ c. c slot) (cluster_of-Grows S between)
        ]

  -- If `SetControllerReference` does not look at the status of the owner: after a reconcile that
  -- succeeds and asks for no other one, and any requests that apply nothing, a second such
  -- reconcile of the instance, which may differ in its status, leaves every place of the cluster
  -- as it is.
  pub reconcile_idempotent :
      (i j : PaperlessInstance F) (key : ObjectKey) (h l : History F)
      → SameButStatus i j
      → S.instance_answer h key ≡ ok i
      → (reconcile S K key h).0 ≡ ok zero_result
      → Grows NoApply (reconcile S K key h).1 l
      → S.instance_answer l key ≡ ok j
      → (reconcile S K key l).0 ≡ ok zero_result
      → (slot : Slot)
      → cluster_of S (reconcile S K key l).1 slot ≡ cluster_of S (reconcile S K key h).1 slot
  reconcile_idempotent i j key h l same_ found done between found' done' =
      Achieved-twice same_ (reconcile-Achieved S K i key h found done) between
        (reconcile-Achieved S K j key l found' done')
