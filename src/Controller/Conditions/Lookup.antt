-- ===== src/Controller/Conditions/Lookup.antt =====
-- The condition of a type, after `SetCondition`.
use paperless_ngx_operator.Prelude.{
  String, ◌==◌, Option, none, some, List, [], ◌∷◌, ◌≡◌, if◌then◌else◌,
}
use paperless_ngx_operator.Kube.{Foreign}
use paperless_ngx_operator.Kube.Objects.{Condition, ConditionStatus}
use paperless_ngx_operator.Api.Types.{PaperlessInstance}
use paperless_ngx_operator.Controller.Client.{Machinery}
use paperless_ngx_operator.Controller.Conditions.{set_condition}

-- The first condition of a type.
abbrev pub find_condition : String → List Condition → Option Condition
find_condition type [] = none
find_condition type (c ∷ cs) = if c.type == type then some c else find_condition type cs

-- `meta.SetStatusCondition` sets the condition of the type, and no other.
abbrev pub SetsCondition : {F : Foreign} → Machinery F → Type 0
SetsCondition K =
    (cs : List Condition) (c : Condition) (type : String)
    → find_condition type (K.set_status_condition cs c)
      ≡ (if c.type == type then some c else find_condition type cs)

module _ {F : Foreign} (K : Machinery F) (sets : SetsCondition K) where
  -- If `meta.SetStatusCondition` sets the condition of its type and no other, then after
  -- `SetCondition` the condition of that type is as given and observes the generation of
  -- the object; conditions of other types are as before.
  pub find_condition-set_condition :
      (i : PaperlessInstance F) (type other reason message : String) (status : ConditionStatus)
      → find_condition other (set_condition K i type status reason message).status.conditions ≡ (
          if type == other
          then some (record {
            type = type;
            status = status;
            observed_generation = i.generation;
            reason = reason;
            message = message;
          })
          else find_condition other i.status.conditions)
  unfolding set_condition
  find_condition-set_condition i type other reason message status = sets _ _ other
