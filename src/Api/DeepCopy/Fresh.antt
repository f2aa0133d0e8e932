-- ===== src/Api/DeepCopy/Fresh.antt =====
-- Each generated copy (api/v1alpha1/zz_generated.deepcopy.go) has the value of its original, and
-- new cells.
use paperless_ngx_operator.Prelude.{String, Option, List, ap}
use paperless_ngx_operator.Kube.{Foreign}
use paperless_ngx_operator.Kube.Objects.{EnvVar, SecretKeySelector}
use paperless_ngx_operator.Api.Types.{
  ImageSpec, StorageSpec, DatabaseSpec, CacheSpec, AdminSpec, OcrSpec, DeletionPolicy,
  PaperlessInstanceSpec,
}
use paperless_ngx_operator.Api.DeepCopy.Copier.{
  Copies, plain-Copies, both-Copies, pointer-Copies, slice-Copies,
}
use paperless_ngx_operator.Api.DeepCopy.Memory.{Memory, CopiesDeeply}
use paperless_ngx_operator.Api.DeepCopy.Parts.{
  copy_image_spec, read_image_spec, image_spec_addresses, image_spec, copy_volume_spec,
  read_volume_spec, volume_spec_addresses, volume_spec, copy_storage_spec, read_storage_spec,
  storage_spec_addresses, storage_spec, copy_managed_database, read_managed_database,
  managed_database_addresses, managed_database, copy_database_spec, read_database_spec,
  database_spec_addresses, database_spec, copy_cache_spec, read_cache_spec, cache_spec_addresses,
  cache_spec, copy_admin_spec, read_admin_spec, admin_spec_addresses, admin_spec, copy_ocr_spec,
  read_ocr_spec, ocr_spec_addresses, ocr_spec,
}
use paperless_ngx_operator.Api.DeepCopy.Spec.{
  copy_spec, read_spec, spec_addresses, spec, copy_status, read_status, status_addresses, status,
}

-- A spec of its fields.
abbrev assemble :
    {F : Foreign}
    → String
    → String
    → DeletionPolicy
    → ImageSpec
      × (OcrSpec
          × (AdminSpec
              × (Option SecretKeySelector
                  × (DatabaseSpec F
                      × (CacheSpec
                          × (StorageSpec F
                              × (F.ResourceRequirements
                                  × (List (EnvVar F) × (List F.EnvFromSource)))))))))
    → PaperlessInstanceSpec F
assemble url timezone deletion_policy
      (
        image,
        (
          ocr,
          (
            admin,
            (secret_key_secret_ref, (database, (cache, (storage, (resources, (env, env_from)))))),
          ),
        ),
      ) =
    record {
      url = url;
      timezone = timezone;
      deletion_policy = deletion_policy;
      image = image;
      ocr = ocr;
      admin = admin;
      secret_key_secret_ref = secret_key_secret_ref;
      database = database;
      cache = cache;
      storage = storage;
      resources = resources;
      env = env;
      env_from = env_from;
    }

module _ {F : Foreign} (M : Memory F) (laws : CopiesDeeply M) where
  pub image_spec-Copies : Copies (image_spec M)
  unfolding copy_image_spec read_image_spec image_spec_addresses
  image_spec-Copies x n =
      let copied = slice-Copies _ (plain-Copies _) x.pull_secrets n in
      record {
        same =
            ap
              (λ v. record {
                repository = x.repository;
                tag = x.tag;
                digest = x.digest;
                pull_policy = x.pull_policy;
                pull_secrets = v;
              })
              copied.same;
        grows = copied.grows;
        fresh = copied.fresh;
      }

  pub volume_spec-Copies : Copies (volume_spec M)
  unfolding copy_volume_spec read_volume_spec volume_spec_addresses
  volume_spec-Copies x n =
      let copied =
        both-Copies _ _ laws.quantity
          (both-Copies _ _ (pointer-Copies _ (plain-Copies _)) (slice-Copies _ (plain-Copies _)))
          (x.size, (x.storage_class_name, x.access_modes)) n in
      record {
        same =
            ap (λ v. record { size = v.0; storage_class_name = v.1.0; access_modes = v.1.1 })
              copied.same;
        grows = copied.grows;
        fresh = copied.fresh;
      }

  pub storage_spec-Copies : Copies (storage_spec M)
  unfolding copy_storage_spec read_storage_spec storage_spec_addresses
  storage_spec-Copies x n =
      let copied =
        both-Copies _ _ volume_spec-Copies
          (both-Copies _ _ volume_spec-Copies
            (both-Copies _ _ volume_spec-Copies volume_spec-Copies))
          (x.data_volume, (x.media, (x.consume, x.export))) n in
      record {
        same =
            ap
              (λ v. record {
                data_volume = v.0;
                media = v.1.0;
                consume = v.1.1.0;
                export = v.1.1.1;
              })
              copied.same;
        grows = copied.grows;
        fresh = copied.fresh;
      }

  pub managed_database-Copies : Copies (managed_database M)
  unfolding copy_managed_database read_managed_database managed_database_addresses
  managed_database-Copies x n =
      let copied = volume_spec-Copies x.storage n in
      record {
        same = ap (λ v. record { instances = x.instances; storage = v }) copied.same;
        grows = copied.grows;
        fresh = copied.fresh;
      }

  pub database_spec-Copies : Copies (database_spec M)
  unfolding copy_database_spec read_database_spec database_spec_addresses
  database_spec-Copies x n =
      let copied =
        both-Copies _ _ (pointer-Copies _ managed_database-Copies)
          (pointer-Copies _ (plain-Copies _)) (x.cnpg, x.external) n in
      record {
        same = ap (λ v. record { cnpg = v.0; external = v.1 }) copied.same;
        grows = copied.grows;
        fresh = copied.fresh;
      }

  pub cache_spec-Copies : Copies (cache_spec M)
  unfolding copy_cache_spec read_cache_spec cache_spec_addresses
  cache_spec-Copies x n =
      let copied =
        both-Copies _ _ (pointer-Copies _ (plain-Copies _))
          (pointer-Copies _ laws.secret_key_selector) (x.managed, x.url_secret_ref) n in
      record {
        same = ap (λ v. record { url = x.url; managed = v.0; url_secret_ref = v.1 }) copied.same;
        grows = copied.grows;
        fresh = copied.fresh;
      }

  pub admin_spec-Copies : Copies (admin_spec M)
  unfolding copy_admin_spec read_admin_spec admin_spec_addresses
  admin_spec-Copies x n =
      let copied =
        both-Copies _ _ (pointer-Copies _ (plain-Copies _))
          (pointer-Copies _ laws.secret_key_selector) (x.enabled, x.password_secret_ref) n in
      record {
        same =
            ap
              (λ v. record {
                username = x.username;
                email = x.email;
                enabled = v.0;
                password_secret_ref = v.1;
              })
              copied.same;
        grows = copied.grows;
        fresh = copied.fresh;
      }

  pub ocr_spec-Copies : Copies (ocr_spec M)
  unfolding copy_ocr_spec read_ocr_spec ocr_spec_addresses
  ocr_spec-Copies x n =
      let copied = slice-Copies _ (plain-Copies _) x.languages n in
      record {
        same = ap (λ v. record { languages = v }) copied.same;
        grows = copied.grows;
        fresh = copied.fresh;
      }

  pub spec-Copies : Copies (spec M)
  unfolding copy_spec read_spec spec_addresses
  spec-Copies x n =
      let copied =
        both-Copies _ _ image_spec-Copies
          (both-Copies _ _ ocr_spec-Copies (
            both-Copies _ _ admin_spec-Copies (
              both-Copies _ _ (pointer-Copies _ laws.secret_key_selector) (
                both-Copies _ _ database_spec-Copies (
                  both-Copies _ _ cache_spec-Copies (
                    both-Copies _ _ storage_spec-Copies (
                      both-Copies _ _ laws.resources (
                        both-Copies _ _ (slice-Copies _ laws.env_var)
                          (slice-Copies _ laws.env_from_source)))))))))
          (
            x.image,
            (
              x.ocr,
              (
                x.admin,
                (
                  x.secret_key_secret_ref,
                  (x.database, (x.cache, (x.storage, (x.resources, (x.env, x.env_from))))),
                ),
              ),
            ),
          )
          n in
      record {
        same = ap (assemble x.url x.timezone x.deletion_policy) copied.same;
        grows = copied.grows;
        fresh = copied.fresh;
      }

  pub status-Copies : Copies (status M)
  unfolding copy_status read_status status_addresses
  status-Copies x n =
      let copied = slice-Copies _ laws.condition x.conditions n in
      record {
        same =
            ap
              (λ v. record {
                observed_generation = x.observed_generation;
                url = x.url;
                version = x.version;
                conditions = v;
              })
              copied.same;
        grows = copied.grows;
        fresh = copied.fresh;
      }
