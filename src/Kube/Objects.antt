-- ===== src/Kube/Objects.antt =====
-- The shapes of the Kubernetes objects that the operator builds, reads or applies, with the
-- fields that it sets or reads. Fields that it never touches are left out.
use paperless_ngx_operator.Prelude.{ℤ, String, Option, List}
use paperless_ngx_operator.Kube.{Foreign}
use paperless_ngx_operator.Kube.Json.{Fields}

-- A `map[string]string`.
abbrev pub StringMap : Type 0
StringMap = List (String × String)

pub record LocalObjectReference : Type 0 where
  pub name : String

pub record SecretKeySelector : Type 0 where
  pub name : String
  pub key : String

pub data ConditionStatus : Type 0 where
  condition_true condition_false condition_unknown : ConditionStatus

-- `metav1.Condition` without `LastTransitionTime`, which no code of the operator reads or sets.
pub record Condition : Type 0 where
  pub type : String
  pub status : ConditionStatus
  pub observed_generation : ℤ
  pub reason : String
  pub message : String

-- `client.ObjectKey`
pub record ObjectKey : Type 0 where
  pub name : String
  pub namespace : String

pub record ContainerPort : Type 0 where
  pub name : String
  pub container_port : ℤ

pub record VolumeMount : Type 0 where
  pub name : String
  pub mount_path : String

-- A `corev1.Volume` whose source is a PersistentVolumeClaim.
pub record Volume : Type 0 where
  pub name : String
  pub claim_name : String

-- A `corev1.Probe` whose handler is an HTTP GET.
pub record Probe : Type 0 where
  pub path : String
  pub port : ℤ
  pub http_headers : StringMap
  pub initial_delay_seconds : ℤ
  pub period_seconds : ℤ
  pub timeout_seconds : ℤ
  pub failure_threshold : ℤ

pub record ServicePort : Type 0 where
  pub name : String
  pub port : ℤ
  pub target_port : ℤ

pub data EnvVarSource (F : Foreign) : Type 0 where
  secret_key_ref : SecretKeySelector → EnvVarSource F
  other_source : F.OtherSource → EnvVarSource F

-- An omitted field of a Go literal is its zero value, `""` or `none`.
pub record EnvVar (F : Foreign) : Type 0 where
  pub name : String
  pub value : String
  pub value_from : Option (EnvVarSource F)

pub record ObjectMeta (F : Foreign) : Type 0 where
  pub name : String
  pub namespace : String
  pub labels : StringMap
  pub owner_references : List F.OwnerReference

pub record Container (F : Foreign) : Type 0 where
  pub name : String
  pub image : String
  pub image_pull_policy : String
  pub ports : List ContainerPort
  pub env : List (EnvVar F)
  pub env_from : List F.EnvFromSource
  pub resources : Option F.ResourceRequirements
  pub volume_mounts : List VolumeMount
  pub readiness_probe : Option Probe
  pub liveness_probe : Option Probe

pub record PodSpec (F : Foreign) : Type 0 where
  pub image_pull_secrets : List LocalObjectReference
  pub containers : List (Container F)
  pub volumes : List Volume

pub record Deployment (F : Foreign) : Type 0 where
  pub metadata : ObjectMeta F
  pub replicas : ℤ
  pub selector : StringMap
  pub strategy : String
  pub template_labels : StringMap
  pub pod : PodSpec F

pub record Service (F : Foreign) : Type 0 where
  pub metadata : ObjectMeta F
  pub selector : StringMap
  pub ports : List ServicePort

pub record PersistentVolumeClaim (F : Foreign) : Type 0 where
  pub metadata : ObjectMeta F
  pub access_modes : List String
  pub storage_class_name : Option String
  pub storage_request : F.Quantity

-- A Secret as the operator writes it (`string_data`) and as it reads it back (`contents`, the
-- Go field `Data`).
pub record Secret (F : Foreign) : Type 0 where
  pub metadata : ObjectMeta F
  pub string_data : StringMap
  pub contents : StringMap

-- An `unstructured.Unstructured`: the parts that have setters, and the other top-level fields.
pub record Unstructured (F : Foreign) : Type 0 where
  pub api_version : String
  pub kind : String
  pub metadata : ObjectMeta F
  pub content : Fields

-- A `client.Object` that is applied.
pub data Object (F : Foreign) : Type 0 where
  deployment : Deployment F → Object F
  service : Service F → Object F
  pvc : PersistentVolumeClaim F → Object F
  unstructured : Unstructured F → Object F

module _ {F : Foreign} where
  abbrev pub metadata : Object F → ObjectMeta F
  metadata (deployment d) = d.metadata
  metadata (service s) = s.metadata
  metadata (pvc p) = p.metadata
  metadata (unstructured u) = u.metadata

  abbrev pub with_metadata : ObjectMeta F → Object F → Object F
  with_metadata m (deployment d) = deployment (record d { metadata = m })
  with_metadata m (service s) = service (record s { metadata = m })
  with_metadata m (pvc p) = pvc (record p { metadata = m })
  with_metadata m (unstructured u) = unstructured (record u { metadata = m })
