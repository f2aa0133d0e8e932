-- ===== src/Api/DeepCopy/Parts.antt =====
-- The parts of a spec in memory, with the copies that controller-gen has generated for each type
-- (api/v1alpha1/zz_generated.deepcopy.go).
use paperless_ngx_operator.Prelude.{ℕ, ℤ, Bool, String, List, ◌++◌}
use paperless_ngx_operator.Kube.{Foreign}
use paperless_ngx_operator.Kube.Objects.{LocalObjectReference}
use paperless_ngx_operator.Api.Types.{
  ImageSpec, VolumeSpec, StorageSpec, ManagedDatabase, ExternalDatabase, DatabaseSpec, CacheSpec,
  AdminSpec, OcrSpec,
}
use paperless_ngx_operator.Api.DeepCopy.Copier.{Fresh, pure, ◌>>=◌, Copier, plain, pointer, slice}
use paperless_ngx_operator.Api.DeepCopy.Memory.{Memory}

module _ {F : Foreign} (M : Memory F) where
  pub record ImageSpecCells : Type 0 where
    pub repository : String
    pub tag : String
    pub digest : String
    pub pull_policy : String
    pub pull_secrets : (slice (plain LocalObjectReference)).Cells

  unfoldable pub copy_image_spec : ImageSpecCells → Fresh ImageSpecCells
  copy_image_spec in_ = do
    pull_secrets ← (slice (plain LocalObjectReference)).deep_copy_into in_.pull_secrets
    pure (record in_ { pull_secrets = pull_secrets })

  unfoldable pub read_image_spec : ImageSpecCells → ImageSpec
  read_image_spec x = record {
    repository = x.repository;
    tag = x.tag;
    digest = x.digest;
    pull_policy = x.pull_policy;
    pull_secrets = (slice (plain LocalObjectReference)).read x.pull_secrets;
  }

  unfoldable pub image_spec_addresses : ImageSpecCells → List ℕ
  image_spec_addresses x = (slice (plain LocalObjectReference)).addresses x.pull_secrets

  abbrev pub image_spec : Copier ImageSpec
  image_spec = record {
    Cells = ImageSpecCells;
    read = read_image_spec;
    addresses = image_spec_addresses;
    deep_copy_into = copy_image_spec;
  }

  pub record VolumeSpecCells : Type 0 where
    pub size : M.quantity.Cells
    pub storage_class_name : (pointer (plain String)).Cells
    pub access_modes : (slice (plain String)).Cells

  unfoldable pub copy_volume_spec : VolumeSpecCells → Fresh VolumeSpecCells
  copy_volume_spec in_ = do
    size ← M.quantity.deep_copy_into in_.size
    storage_class_name ← (pointer (plain String)).deep_copy_into in_.storage_class_name
    access_modes ← (slice (plain String)).deep_copy_into in_.access_modes
    pure (record in_ {
      size = size;
      storage_class_name = storage_class_name;
      access_modes = access_modes;
    })

  unfoldable pub read_volume_spec : VolumeSpecCells → VolumeSpec F
  read_volume_spec x = record {
    size = M.quantity.read x.size;
    storage_class_name = (pointer (plain String)).read x.storage_class_name;
    access_modes = (slice (plain String)).read x.access_modes;
  }

  unfoldable pub volume_spec_addresses : VolumeSpecCells → List ℕ
  volume_spec_addresses x =
      M.quantity.addresses x.size
      ++ ((pointer (plain String)).addresses x.storage_class_name
          ++ ((slice (plain String)).addresses x.access_modes))

  abbrev pub volume_spec : Copier (VolumeSpec F)
  volume_spec = record {
    Cells = VolumeSpecCells;
    read = read_volume_spec;
    addresses = volume_spec_addresses;
    deep_copy_into = copy_volume_spec;
  }

  pub record StorageSpecCells : Type 0 where
    pub data_volume : volume_spec.Cells
    pub media : volume_spec.Cells
    pub consume : volume_spec.Cells
    pub export : volume_spec.Cells

  unfoldable pub copy_storage_spec : StorageSpecCells → Fresh StorageSpecCells
  copy_storage_spec in_ = do
    data_volume ← volume_spec.deep_copy_into in_.data_volume
    media ← volume_spec.deep_copy_into in_.media
    consume ← volume_spec.deep_copy_into in_.consume
    export ← volume_spec.deep_copy_into in_.export
    pure (record in_ {
      data_volume = data_volume;
      media = media;
      consume = consume;
      export = export;
    })

  unfoldable pub read_storage_spec : StorageSpecCells → StorageSpec F
  read_storage_spec x = record {
    data_volume = volume_spec.read x.data_volume;
    media = volume_spec.read x.media;
    consume = volume_spec.read x.consume;
    export = volume_spec.read x.export;
  }

  unfoldable pub storage_spec_addresses : StorageSpecCells → List ℕ
  storage_spec_addresses x =
      volume_spec.addresses x.data_volume
      ++ (volume_spec.addresses x.media
          ++ (volume_spec.addresses x.consume ++ (volume_spec.addresses x.export)))

  abbrev pub storage_spec : Copier (StorageSpec F)
  storage_spec = record {
    Cells = StorageSpecCells;
    read = read_storage_spec;
    addresses = storage_spec_addresses;
    deep_copy_into = copy_storage_spec;
  }

  pub record ManagedDatabaseCells : Type 0 where
    pub instances : ℤ
    pub storage : volume_spec.Cells

  unfoldable pub copy_managed_database : ManagedDatabaseCells → Fresh ManagedDatabaseCells
  copy_managed_database in_ = do
    storage ← volume_spec.deep_copy_into in_.storage
    pure (record in_ { storage = storage })

  unfoldable pub read_managed_database : ManagedDatabaseCells → ManagedDatabase F
  read_managed_database x = record { instances = x.instances; storage = volume_spec.read x.storage }

  unfoldable pub managed_database_addresses : ManagedDatabaseCells → List ℕ
  managed_database_addresses x = volume_spec.addresses x.storage

  abbrev pub managed_database : Copier (ManagedDatabase F)
  managed_database = record {
    Cells = ManagedDatabaseCells;
    read = read_managed_database;
    addresses = managed_database_addresses;
    deep_copy_into = copy_managed_database;
  }

  pub record DatabaseSpecCells : Type 0 where
    pub cnpg : (pointer managed_database).Cells
    pub external : (pointer (plain ExternalDatabase)).Cells

  unfoldable pub copy_database_spec : DatabaseSpecCells → Fresh DatabaseSpecCells
  copy_database_spec in_ = do
    cnpg ← (pointer managed_database).deep_copy_into in_.cnpg
    external ← (pointer (plain ExternalDatabase)).deep_copy_into in_.external
    pure (record in_ { cnpg = cnpg; external = external })

  unfoldable pub read_database_spec : DatabaseSpecCells → DatabaseSpec F
  read_database_spec x = record {
    cnpg = (pointer managed_database).read x.cnpg;
    external = (pointer (plain ExternalDatabase)).read x.external;
  }

  unfoldable pub database_spec_addresses : DatabaseSpecCells → List ℕ
  database_spec_addresses x =
      (pointer managed_database).addresses x.cnpg
      ++ ((pointer (plain ExternalDatabase)).addresses x.external)

  abbrev pub database_spec : Copier (DatabaseSpec F)
  database_spec = record {
    Cells = DatabaseSpecCells;
    read = read_database_spec;
    addresses = database_spec_addresses;
    deep_copy_into = copy_database_spec;
  }

  pub record CacheSpecCells : Type 0 where
    pub url : String
    pub managed : (pointer (plain Bool)).Cells
    pub url_secret_ref : (pointer M.secret_key_selector).Cells

  unfoldable pub copy_cache_spec : CacheSpecCells → Fresh CacheSpecCells
  copy_cache_spec in_ = do
    managed ← (pointer (plain Bool)).deep_copy_into in_.managed
    url_secret_ref ← (pointer M.secret_key_selector).deep_copy_into in_.url_secret_ref
    pure (record in_ { managed = managed; url_secret_ref = url_secret_ref })

  unfoldable pub read_cache_spec : CacheSpecCells → CacheSpec
  read_cache_spec x = record {
    url = x.url;
    managed = (pointer (plain Bool)).read x.managed;
    url_secret_ref = (pointer M.secret_key_selector).read x.url_secret_ref;
  }

  unfoldable pub cache_spec_addresses : CacheSpecCells → List ℕ
  cache_spec_addresses x =
      (pointer (plain Bool)).addresses x.managed
      ++ ((pointer M.secret_key_selector).addresses x.url_secret_ref)

  abbrev pub cache_spec : Copier CacheSpec
  cache_spec = record {
    Cells = CacheSpecCells;
    read = read_cache_spec;
    addresses = cache_spec_addresses;
    deep_copy_into = copy_cache_spec;
  }

  pub record AdminSpecCells : Type 0 where
    pub username : String
    pub email : String
    pub enabled : (pointer (plain Bool)).Cells
    pub password_secret_ref : (pointer M.secret_key_selector).Cells

  unfoldable pub copy_admin_spec : AdminSpecCells → Fresh AdminSpecCells
  copy_admin_spec in_ = do
    enabled ← (pointer (plain Bool)).deep_copy_into in_.enabled
    password_secret_ref ← (pointer M.secret_key_selector).deep_copy_into in_.password_secret_ref
    pure (record in_ { enabled = enabled; password_secret_ref = password_secret_ref })

  unfoldable pub read_admin_spec : AdminSpecCells → AdminSpec
  read_admin_spec x = record {
    username = x.username;
    email = x.email;
    enabled = (pointer (plain Bool)).read x.enabled;
    password_secret_ref = (pointer M.secret_key_selector).read x.password_secret_ref;
  }

  unfoldable pub admin_spec_addresses : AdminSpecCells → List ℕ
  admin_spec_addresses x =
      (pointer (plain Bool)).addresses x.enabled
      ++ ((pointer M.secret_key_selector).addresses x.password_secret_ref)

  abbrev pub admin_spec : Copier AdminSpec
  admin_spec = record {
    Cells = AdminSpecCells;
    read = read_admin_spec;
    addresses = admin_spec_addresses;
    deep_copy_into = copy_admin_spec;
  }

  pub record OcrSpecCells : Type 0 where
    pub languages : (slice (plain String)).Cells

  unfoldable pub copy_ocr_spec : OcrSpecCells → Fresh OcrSpecCells
  copy_ocr_spec in_ = do
    languages ← (slice (plain String)).deep_copy_into in_.languages
    pure (record in_ { languages = languages })

  unfoldable pub read_ocr_spec : OcrSpecCells → OcrSpec
  read_ocr_spec x = record { languages = (slice (plain String)).read x.languages }

  unfoldable pub ocr_spec_addresses : OcrSpecCells → List ℕ
  ocr_spec_addresses x = (slice (plain String)).addresses x.languages

  abbrev pub ocr_spec : Copier OcrSpec
  ocr_spec = record {
    Cells = OcrSpecCells;
    read = read_ocr_spec;
    addresses = ocr_spec_addresses;
    deep_copy_into = copy_ocr_spec;
  }
