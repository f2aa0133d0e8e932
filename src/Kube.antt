-- ===== src/Kube.antt =====
-- What the operator uses of the Kubernetes libraries (k8s.io/api, k8s.io/apimachinery and
-- sigs.k8s.io/controller-runtime), none of which is code of this repository. The shapes of the
-- objects stand in `Kube.Objects`, with the fields that the operator sets or reads; what the
-- libraries compute is a parameter, the record `Foreign`.
pub mod Json
pub mod Objects
pub mod Access
use Json.{Fields}
use paperless_ngx_operator.Prelude.{Bool, String, Option, List, Result}

-- Types whose content the operator passes on unread, and pure functions that it calls.
pub record Foreign : Type 1 where
  -- `resource.Quantity`, its zero value, `IsZero`, `MustParse` (which is called with constants of the program
  -- only, so that its panic at a malformed text is not modelled) and `String`
  pub Quantity : Type 0
  pub zero_quantity : Quantity
  pub is_zero : Quantity → Bool
  pub must_parse : String → Quantity
  pub quantity_string : Quantity → String
  -- `corev1.ResourceRequirements`, `corev1.EnvFromSource`
  pub ResourceRequirements : Type 0
  pub EnvFromSource : Type 0
  -- the sources of an `EnvVar` other than a Secret's key, which only `spec.env` can hold
  pub OtherSource : Type 0
  -- `metav1.OwnerReference`, its field `UID`, and `metav1.GetControllerOfNoCopy`, which reads the
  -- owner references of an object alone
  pub OwnerReference : Type 0
  pub uid : OwnerReference → String
  pub get_controller_of : List OwnerReference → Option OwnerReference
  -- `validation.IsDNS1123Subdomain`: the complaints about a name
  pub is_dns1123_subdomain : String → List String
  -- `url.Parse`, and `Hostname` of the result where there is no error
  pub url_hostname : String → Option String
  -- the verb `%q` of `fmt`
  pub quote : String → String
  -- `unstructured.SetNestedMap(m, v, k)`, which changes `m` or fails
  pub set_nested_map : Fields → Fields → String → Result Fields
