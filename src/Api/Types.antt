-- ===== src/Api/Types.antt =====
-- The types of api/v1alpha1/paperlessinstance_types.go. A pointer field is an `Option`, a string
-- type is `String`, and `int32` and `int64` are integers.
use paperless_ngx_operator.Prelude.{ℤ, Bool, String, Option, List}
use paperless_ngx_operator.Kube.{Foreign}
use paperless_ngx_operator.Kube.Objects.{Condition, EnvVar, LocalObjectReference, SecretKeySelector}

pub record ImageSpec : Type 0 where
  pub repository : String
  pub tag : String
  pub digest : String
  pub pull_policy : String
  pub pull_secrets : List LocalObjectReference

pub record VolumeSpec (F : Foreign) : Type 0 where
  pub size : F.Quantity
  pub storage_class_name : Option String
  pub access_modes : List String

-- The field `Data` is `data_volume` here, since `data` is a reserved word.
pub record StorageSpec (F : Foreign) : Type 0 where
  pub data_volume : VolumeSpec F
  pub media : VolumeSpec F
  pub consume : VolumeSpec F
  pub export : VolumeSpec F

pub record ExternalDatabase : Type 0 where
  pub host : String
  pub port : ℤ
  pub name : String
  pub credentials_secret_ref : LocalObjectReference

pub record ManagedDatabase (F : Foreign) : Type 0 where
  pub instances : ℤ
  pub storage : VolumeSpec F

pub record DatabaseSpec (F : Foreign) : Type 0 where
  pub cnpg : Option (ManagedDatabase F)
  pub external : Option ExternalDatabase

pub record CacheSpec : Type 0 where
  pub managed : Option Bool
  pub url : String
  pub url_secret_ref : Option SecretKeySelector

pub record AdminSpec : Type 0 where
  pub enabled : Option Bool
  pub username : String
  pub email : String
  pub password_secret_ref : Option SecretKeySelector

pub record OcrSpec : Type 0 where
  pub languages : List String

abbrev pub DeletionPolicy : Type 0
DeletionPolicy = String

abbrev pub deletion_policy_retain : DeletionPolicy
deletion_policy_retain = "Retain"

abbrev pub deletion_policy_delete : DeletionPolicy
deletion_policy_delete = "Delete"

pub record PaperlessInstanceSpec (F : Foreign) : Type 0 where
  pub image : ImageSpec
  pub url : String
  pub timezone : String
  pub ocr : OcrSpec
  pub admin : AdminSpec
  pub secret_key_secret_ref : Option SecretKeySelector
  pub database : DatabaseSpec F
  pub cache : CacheSpec
  pub storage : StorageSpec F
  pub resources : F.ResourceRequirements
  pub env : List (EnvVar F)
  pub env_from : List F.EnvFromSource
  pub deletion_policy : DeletionPolicy

pub record PaperlessInstanceStatus : Type 0 where
  pub conditions : List Condition
  pub observed_generation : ℤ
  pub url : String
  pub version : String

-- Of the embedded `metav1.ObjectMeta`, the fields that the operator reads.
pub record PaperlessInstance (F : Foreign) : Type 0 where
  pub name : String
  pub namespace : String
  pub uid : String
  pub generation : ℤ
  pub spec : PaperlessInstanceSpec F
  pub status : PaperlessInstanceStatus

abbrev pub condition_ready : String
condition_ready = "Ready"

abbrev pub condition_database_ready : String
condition_database_ready = "DatabaseReady"
