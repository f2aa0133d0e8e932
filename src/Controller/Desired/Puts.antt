-- ===== src/Controller/Desired/Puts.antt =====
-- Actions that put what the instance asks for into the cluster, and how they are composed.
use mathlib.Core.Path.{subst}
use paperless_ngx_operator.Prelude.{ℤ, List, [], ◌∷◌, ◌++◌, map, refl, sym, ◌∙◌, ap, inl, inr}
use paperless_ngx_operator.Kube.{Foreign}
use paperless_ngx_operator.Kube.Objects.{Object}
use paperless_ngx_operator.Api.Types.{PaperlessInstance}
use paperless_ngx_operator.Controller.Client.{Server, Machinery, State}
use paperless_ngx_operator.Controller.Runs.{SameButStatus, Grows, same}
use paperless_ngx_operator.Controller.Apply.Success.{Sent, with_references}
use paperless_ngx_operator.Controller.Steps.Order.{
  ByPolicy, Controlled, Applied, all_sent, then_sent,
}
use paperless_ngx_operator.Controller.Desired.{Want, stateful, stateless, OwnedAs}
use paperless_ngx_operator.Controller.Desired.Places.{
  Places, settled, placed, NoApply, Places-after, Places-append,
}

module _ {F : Foreign} (S : Server F) (K : Machinery F) (i : PaperlessInstance F) where
  -- From one state to another the wanted objects are applied in their order, and nothing else.
  pub record Puts (ws : List (Want F)) (s t : State F) : Type 0 where
    pub objs : List (Object F)
    pub places : Places S K i ws objs s.history t.history

  pub Puts-Sent :
      {w : Want F} {ws : List (Want F)} {obj : Object F} {s t u : State F} {n : ℤ}
      → OwnedAs K i w obj
      → Sent S K obj s n t
      → Puts ws t u
      → Puts (w ∷ ws) s u
  Puts-Sent {ws = ws} {obj = obj} {u = u} owned sent rest = record {
    objs = obj ∷ rest.objs;
    places = placed sent.body same owned sent.answered (
        subst (λ h. Places S K i ws rest.objs h u.history) (ap (λ x. x.history) sent.state)
          rest.places);
  }

  pub Sent-SameButStatus :
      {obj : Object F} {s t : State F} {n : ℤ}
      → SameButStatus i s.inst
      → Sent S K obj s n t
      → SameButStatus i t.inst
  Sent-SameButStatus same_ sent = rw sent.state same_

  pub Puts-quiet : {s t : State F} → Grows NoApply s.history t.history → Puts [] s t
  Puts-quiet g = record { objs = []; places = settled g }

  pub Puts-after :
      {ws : List (Want F)} {s t u : State F}
      → Grows NoApply s.history t.history
      → Puts ws t u
      → Puts ws s u
  Puts-after g rest = record { objs = rest.objs; places = Places-after S K i g rest.places }

  pub Puts-append :
      {ws vs : List (Want F)} {s t u : State F} → Puts ws s t → Puts vs t u → Puts (ws ++ vs) s u
  Puts-append first rest = record {
    objs = first.objs ++ rest.objs;
    places = Places-append S K i first.places rest.places;
  }

  pub stateful-OwnedAs :
      (s : State F) (obj : Object F) (refs : List F.OwnerReference)
      → SameButStatus i s.inst
      → ByPolicy S K s obj refs
      → OwnedAs K i (stateful obj) (with_references S K refs obj)
  stateful-OwnedAs s obj refs same_ by = record {
    refs = refs;
    is = refl;
    owned = λ reason. elim reason [
      | inl own ↦ absurd (cc)
      | inr is_delete ↦
          (s.inst, same_, by.on_delete (ap (λ x. x.deletion_policy) (sym same_.spec) ∙ is_delete))
    ];
    unowned = λ own not_delete.
        by.otherwise λ is_delete. not_delete (ap (λ x. x.deletion_policy) same_.spec ∙ is_delete);
  }

  pub stateless-OwnedAs :
      (s : State F) (obj : Object F) (refs : List F.OwnerReference)
      → SameButStatus i s.inst
      → Controlled S K s obj refs
      → OwnedAs K i (stateless obj) (with_references S K refs obj)
  stateless-OwnedAs s obj refs same_ set = record {
    refs = refs;
    is = refl;
    owned = λ reason. (s.inst, same_, set);
    unowned = λ own not_delete. absurd (cc);
  }

  module _ (P : State F → Object F → List F.OwnerReference → Type 0) (want : Object F → Want F)
      (owns : (s : State F) (obj : Object F) (refs : List F.OwnerReference)
        → SameButStatus i s.inst
        → P s obj refs
        → OwnedAs K i (want obj) (with_references S K refs obj)) where
    pub Applied-Puts :
        {objs : List (Object F)} {s t : State F}
        → SameButStatus i s.inst
        → Applied S K P objs s t
        → Puts (map want objs) s t
    Applied-Puts same_ all_sent = Puts-quiet same
    Applied-Puts {s = s} same_ (then_sent {obj = obj} refs p sent rest) =
        Puts-Sent (owns s obj refs same_ p) sent (Applied-Puts (Sent-SameButStatus same_ sent) rest)
