-- ===== src/Api/DeepCopy/Spec.antt =====
-- The spec and the status in memory, with their generated copies
-- (api/v1alpha1/zz_generated.deepcopy.go).
use paperless_ngx_operator.Prelude.{ℕ, ℤ, String, List, ◌++◌}
use paperless_ngx_operator.Kube.{Foreign}
use paperless_ngx_operator.Api.Types.{
  DeletionPolicy, PaperlessInstanceSpec, PaperlessInstanceStatus,
}
use paperless_ngx_operator.Api.DeepCopy.Copier.{Fresh, pure, ◌>>=◌, Copier, pointer, slice}
use paperless_ngx_operator.Api.DeepCopy.Memory.{Memory}
use paperless_ngx_operator.Api.DeepCopy.Parts.{
  image_spec, storage_spec, database_spec, cache_spec, admin_spec, ocr_spec,
}

module _ {F : Foreign} (M : Memory F) where
  pub record SpecCells : Type 0 where
    pub url : String
    pub timezone : String
    pub deletion_policy : DeletionPolicy
    pub image : (image_spec M).Cells
    pub ocr : (ocr_spec M).Cells
    pub admin : (admin_spec M).Cells
    pub secret_key_secret_ref : (pointer M.secret_key_selector).Cells
    pub database : (database_spec M).Cells
    pub cache : (cache_spec M).Cells
    pub storage : (storage_spec M).Cells
    pub resources : M.resources.Cells
    pub env : (slice M.env_var).Cells
    pub env_from : (slice M.env_from_source).Cells

  unfoldable pub copy_spec : SpecCells → Fresh SpecCells
  copy_spec in_ = do
    image ← (image_spec M).deep_copy_into in_.image
    ocr ← (ocr_spec M).deep_copy_into in_.ocr
    admin ← (admin_spec M).deep_copy_into in_.admin
    secret_key_secret_ref ← (pointer M.secret_key_selector).deep_copy_into in_.secret_key_secret_ref
    database ← (database_spec M).deep_copy_into in_.database
    cache ← (cache_spec M).deep_copy_into in_.cache
    storage ← (storage_spec M).deep_copy_into in_.storage
    resources ← M.resources.deep_copy_into in_.resources
    env ← (slice M.env_var).deep_copy_into in_.env
    env_from ← (slice M.env_from_source).deep_copy_into in_.env_from
    pure (record in_ {
      image = image;
      ocr = ocr;
      admin = admin;
      secret_key_secret_ref = secret_key_secret_ref;
      database = database;
      cache = cache;
      storage = storage;
      resources = resources;
      env = env;
      env_from = env_from;
    })

  unfoldable pub read_spec : SpecCells → PaperlessInstanceSpec F
  read_spec x = record {
    url = x.url;
    timezone = x.timezone;
    deletion_policy = x.deletion_policy;
    image = (image_spec M).read x.image;
    ocr = (ocr_spec M).read x.ocr;
    admin = (admin_spec M).read x.admin;
    secret_key_secret_ref = (pointer M.secret_key_selector).read x.secret_key_secret_ref;
    database = (database_spec M).read x.database;
    cache = (cache_spec M).read x.cache;
    storage = (storage_spec M).read x.storage;
    resources = M.resources.read x.resources;
    env = (slice M.env_var).read x.env;
    env_from = (slice M.env_from_source).read x.env_from;
  }

  unfoldable pub spec_addresses : SpecCells → List ℕ
  spec_addresses x =
      (image_spec M).addresses x.image
      ++ ((ocr_spec M).addresses x.ocr
          ++ ((admin_spec M).addresses x.admin
              ++ ((pointer M.secret_key_selector).addresses x.secret_key_secret_ref
                  ++ ((database_spec M).addresses x.database
                      ++ ((cache_spec M).addresses x.cache
                          ++ ((storage_spec M).addresses x.storage
                              ++ (M.resources.addresses x.resources
                                  ++ ((slice M.env_var).addresses x.env
                                      ++ ((slice M.env_from_source).addresses x.env_from)))))))))

  abbrev pub spec : Copier (PaperlessInstanceSpec F)
  spec = record {
    Cells = SpecCells;
    read = read_spec;
    addresses = spec_addresses;
    deep_copy_into = copy_spec;
  }

  pub record StatusCells : Type 0 where
    pub observed_generation : ℤ
    pub url : String
    pub version : String
    pub conditions : (slice M.condition).Cells

  unfoldable pub copy_status : StatusCells → Fresh StatusCells
  copy_status in_ = do
    conditions ← (slice M.condition).deep_copy_into in_.conditions
    pure (record in_ { conditions = conditions })

  unfoldable pub read_status : StatusCells → PaperlessInstanceStatus
  read_status x = record {
    observed_generation = x.observed_generation;
    url = x.url;
    version = x.version;
    conditions = (slice M.condition).read x.conditions;
  }

  unfoldable pub status_addresses : StatusCells → List ℕ
  status_addresses x = (slice M.condition).addresses x.conditions

  abbrev pub status : Copier PaperlessInstanceStatus
  status = record {
    Cells = StatusCells;
    read = read_status;
    addresses = status_addresses;
    deep_copy_into = copy_status;
  }
