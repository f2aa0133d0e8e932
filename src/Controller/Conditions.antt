-- ===== src/Controller/Conditions.antt =====
-- internal/controller/conditions.go.
pub mod Lookup
use paperless_ngx_operator.Prelude.{String}
use paperless_ngx_operator.Kube.{Foreign}
use paperless_ngx_operator.Kube.Objects.{ConditionStatus}
use paperless_ngx_operator.Api.Types.{PaperlessInstance}
use paperless_ngx_operator.Api.Defaults.{get_conditions, set_conditions}
use paperless_ngx_operator.Controller.Client.{Machinery, M, modify}

module _ {F : Foreign} (K : Machinery F) where
  unfoldable pub set_condition :
      PaperlessInstance F → String → ConditionStatus → String → String → PaperlessInstance F
  set_condition obj condition_type status reason message = set_conditions obj (
      K.set_status_condition (get_conditions obj) (record {
        type = condition_type;
        status = status;
        observed_generation = obj.generation;
        reason = reason;
        message = message;
      }))

  -- The call `SetCondition(inst, …)` of a method.
  abbrev pub mark : String → ConditionStatus → String → String → M F (Unit {0})
  mark condition_type status reason message =
      modify (λ inst. set_condition inst condition_type status reason message)
