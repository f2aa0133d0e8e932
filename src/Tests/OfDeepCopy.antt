-- ===== src/Tests/OfDeepCopy.antt =====
-- The deep copies of `Api.DeepCopy` at a concrete instance.
use paperless_ngx_operator.Prelude.{none, some, [], ◌∷◌, pos, arith}
use paperless_ngx_operator.Kube.Objects.{condition_true}
use paperless_ngx_operator.Api.DeepCopy.Copier.{Ref, plain, plain-Copies}
use paperless_ngx_operator.Api.DeepCopy.Memory.{Memory, CopiesDeeply}
use paperless_ngx_operator.Api.DeepCopy.Parts.{
  VolumeSpecCells, volume_spec_addresses, storage_spec_addresses, managed_database_addresses,
  database_spec_addresses, image_spec_addresses, cache_spec_addresses, admin_spec_addresses,
  ocr_spec_addresses,
}
use paperless_ngx_operator.Api.DeepCopy.Spec.{spec_addresses, status_addresses}
use paperless_ngx_operator.Api.DeepCopy.Instance.{
  InstanceCells, instance_object, deep_copy_object, instance_addresses,
}
use paperless_ngx_operator.Api.DeepCopy.Instance.Apart.{IsDeepCopy, deep_copy_object-IsDeepCopy}
use paperless_ngx_operator.Tests.Fixtures.{foreign}

-- A choice of the other packages' types without pointers.
abbrev memory : Memory foreign
memory = record {
  quantity = plain _;
  resources = plain _;
  env_var = plain _;
  env_from_source = plain _;
  secret_key_selector = plain _;
  condition = plain _;
  object_meta = plain _;
  list_meta = plain _;
}

memory-CopiesDeeply : CopiesDeeply memory
memory-CopiesDeeply = record {
  quantity = plain-Copies _;
  resources = plain-Copies _;
  env_var = plain-Copies _;
  env_from_source = plain-Copies _;
  secret_key_selector = plain-Copies _;
  condition = plain-Copies _;
  object_meta = plain-Copies _;
  list_meta = plain-Copies _;
}

abbrev volume : VolumeSpecCells memory
volume = record { size = 1; storage_class_name = none; access_modes = none }

-- An instance at the address 1, with a slice of languages at 2, a password at 3, a storage class
-- at 4 and a condition at 5.
abbrev cells : Ref (InstanceCells memory)
cells = record {
  address = 1;
  target = record {
    type_meta = record { kind = "PaperlessInstance"; api_version = "paperless.p3l1.de/v1alpha1" };
    object_meta = record { name = "p"; namespace = "docs"; uid = "u-1"; generation = pos 3 };
    spec = record {
      url = "";
      timezone = "";
      deletion_policy = "Retain";
      image = record {
        repository = "";
        tag = "";
        digest = "";
        pull_policy = "";
        pull_secrets = none;
      };
      ocr = record { languages = some (record { address = 2; target = "eng" ∷ "deu" ∷ [] }) };
      admin = record {
        username = "";
        email = "";
        enabled = none;
        password_secret_ref =
            some (record { address = 3; target = record { name = "s"; key = "k" } });
      };
      secret_key_secret_ref = none;
      database = record { cnpg = none; external = none };
      cache = record { url = ""; managed = none; url_secret_ref = none };
      storage = record {
        data_volume = record {
          size = 1;
          storage_class_name = some (record { address = 4; target = "fast" });
          access_modes = none;
        };
        media = volume;
        consume = volume;
        export = volume;
      };
      resources = tt;
      env = none;
      env_from = none;
    };
    status = record {
      observed_generation = pos 2;
      url = "";
      version = "";
      conditions = some (record {
        address = 5;
        target =
            record {
              type = "Ready";
              status = condition_true;
              observed_generation = pos 2;
              reason = "";
              message = "";
            }
            ∷ [];
      });
    };
  };
}

deep_copy_object-IsDeepCopy_example :
    IsDeepCopy memory memory-CopiesDeeply
      (instance_object cells)
      (deep_copy_object memory (instance_object cells) 6).0
      6
      (deep_copy_object memory (instance_object cells) 6).1
unfolding instance_addresses spec_addresses status_addresses volume_spec_addresses
    storage_spec_addresses managed_database_addresses database_spec_addresses image_spec_addresses
    cache_spec_addresses admin_spec_addresses ocr_spec_addresses
deep_copy_object-IsDeepCopy_example =
    deep_copy_object-IsDeepCopy memory memory-CopiesDeeply (instance_object cells) 6 (
      omega arith,
      omega arith,
      (
        omega arith,
        omega arith,
        (omega arith, omega arith, (omega arith, omega arith, (omega arith, omega arith, tt))),
      ),
    )
