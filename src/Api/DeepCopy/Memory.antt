-- ===== src/Api/DeepCopy/Memory.antt =====
-- What the copies of api/v1alpha1/zz_generated.deepcopy.go use of k8s.io/api and
-- k8s.io/apimachinery, none of which is code of this repository.
use paperless_ngx_operator.Prelude.{ℤ, String}
use paperless_ngx_operator.Kube.{Foreign}
use paperless_ngx_operator.Kube.Objects.{Condition, EnvVar, SecretKeySelector}
use paperless_ngx_operator.Api.DeepCopy.Copier.{Copier, Copies}

-- `metav1.TypeMeta`, and the parts of `metav1.ObjectMeta` and `metav1.ListMeta` that a value has.
pub record TypeMeta : Type 0 where
  pub kind : String
  pub api_version : String

pub record Meta : Type 0 where
  pub name : String
  pub namespace : String
  pub uid : String
  pub generation : ℤ

pub record ListMeta : Type 0 where
  pub resource_version : String
  pub continue : String

-- The types of other packages that have pointers of their own, with their `DeepCopyInto`.
pub record Memory (F : Foreign) : Type 1 where
  pub quantity : Copier F.Quantity
  pub resources : Copier F.ResourceRequirements
  pub env_var : Copier (EnvVar F)
  pub env_from_source : Copier F.EnvFromSource
  pub secret_key_selector : Copier SecretKeySelector
  pub condition : Copier Condition
  pub object_meta : Copier Meta
  pub list_meta : Copier ListMeta

-- The copies of the other packages are deep.
pub record CopiesDeeply {F : Foreign} (M : Memory F) : Type 0 where
  pub quantity : Copies M.quantity
  pub resources : Copies M.resources
  pub env_var : Copies M.env_var
  pub env_from_source : Copies M.env_from_source
  pub secret_key_selector : Copies M.secret_key_selector
  pub condition : Copies M.condition
  pub object_meta : Copies M.object_meta
  pub list_meta : Copies M.list_meta
