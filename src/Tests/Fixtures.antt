-- ===== src/Tests/Fixtures.antt =====
-- A concrete set of library functions, API server and instances.
use paperless_ngx_operator.Prelude.{
  ℕ, zero, suc, pos, true, String, ◌<>◌, ◌==◌, Option, none, some, List, [], ◌∷◌, Error, failure,
  Result, ok, err, eqb, show, if◌then◌else◌,
}
use paperless_ngx_operator.Kube.{Foreign}
use paperless_ngx_operator.Kube.Json.{end, object, insert}
use paperless_ngx_operator.Kube.Objects.{ObjectKey, Secret, EnvVar, metadata}
use paperless_ngx_operator.Api.Types.{VolumeSpec, ExternalDatabase, DatabaseSpec, PaperlessInstance}
use paperless_ngx_operator.Prelude.{refl}
use paperless_ngx_operator.Controller.Conditions.Lookup.{SetsCondition}
use paperless_ngx_operator.Controller.Client.{Server, Machinery, State}

abbrev first : List String → Option String
first [] = none
first (x ∷ xs) = some x

abbrev pub foreign : Foreign
foreign = record {
  Quantity = ℕ;
  zero_quantity = 0;
  is_zero = eqb 0;
  must_parse = λ s. if s == "" then 0 else 1;
  quantity_string = show;
  ResourceRequirements = Unit {0};
  EnvFromSource = Unit {0};
  OtherSource = Unit {0};
  OwnerReference = String;
  uid = λ r. r;
  get_controller_of = first;
  is_dns1123_subdomain = λ s. if s == "" then "must not be empty" ∷ [] else [];
  url_hostname = some;
  quote = λ s. "'" <> (s <> "'");
  set_nested_map = λ m v k. ok (insert k (object v) m);
}

abbrev unset_volume : VolumeSpec foreign
unset_volume = record { size = 0; storage_class_name = none; access_modes = [] }

abbrev pub variable : String → String → EnvVar foreign
variable name value = record { name = name; value = value; value_from = none }

abbrev pub instance_named : String → String → DatabaseSpec foreign → PaperlessInstance foreign
instance_named name policy database = record {
  name = name;
  namespace = "docs";
  uid = "u-1";
  generation = pos 3;
  spec = record {
    image = record {
      repository = "";
      tag = "2.20";
      digest = "";
      pull_policy = "";
      pull_secrets = [];
    };
    url = "paperless.example.com";
    timezone = "UTC";
    ocr = record { languages = "eng" ∷ "deu" ∷ [] };
    admin = record { enabled = none; username = ""; email = ""; password_secret_ref = none };
    secret_key_secret_ref = none;
    database = database;
    cache = record { managed = none; url = ""; url_secret_ref = none };
    storage = record {
      data_volume = unset_volume;
      media = unset_volume;
      consume = unset_volume;
      export = unset_volume;
    };
    resources = tt;
    env = variable "PAPERLESS_URL" "https://other" ∷ variable "EXTRA" "1" ∷ [];
    env_from = [];
    deletion_policy = policy;
  };
  status = record { conditions = []; observed_generation = pos 0; url = ""; version = "" };
}

abbrev pub managed_database : DatabaseSpec foreign
managed_database = record { cnpg = none; external = none }

abbrev pub external : ExternalDatabase
external = record {
  host = "db";
  port = pos 5432;
  name = "paperless";
  credentials_secret_ref = record { name = "credentials" };
}

-- An instance under the policy Delete, one under the default policy, and one with an external
-- database.
abbrev pub deleted : PaperlessInstance foreign
deleted = instance_named "p" "Delete" managed_database

abbrev pub retained : PaperlessInstance foreign
retained = instance_named "p" "" managed_database

abbrev pub outside : PaperlessInstance foreign
outside = instance_named "p" "Retain" (record { cnpg = none; external = some external })

abbrev pub bytes : ℕ → List ℕ
bytes zero = []
bytes (suc n) = 200 ∷ bytes n

abbrev pub random : ℕ → Result (List ℕ)
random n = ok (bytes n)

abbrev pub not_found : Error
not_found = failure (record { message = "not found"; not_found = true })

-- A server on which `inst` exists and no Secret does.
abbrev pub server : PaperlessInstance foreign → Server foreign
server inst = record {
  instance_answer = λ h key. ok inst;
  secret_answer = λ h key. err not_found;
  crd_answer = λ h name. ok tt;
  create_answer = λ h s. ok tt;
  apply_answer = λ h obj body. ok (pos 1);
  merge_answer = λ h key body. ok tt;
  status_answer = λ h sent base. ok tt;
  rand_read = λ h. random;
}

abbrev pub machinery : Machinery foreign
machinery = record {
  set_controller_reference = λ inst meta. ok (inst.uid ∷ []);
  gvk_for_object = λ obj. ok (record { group = "apps"; version = "v1"; kind = "Kind" });
  marshal = λ gvk obj. ok (metadata obj).name;
  marshal_reference = ok;
  marshal_map = λ m. ok "map";
  unmarshal = λ s. ok end;
  set_status_condition = λ cs c. c ∷ cs;
}

pub sets : SetsCondition machinery
sets cs c type = refl

-- The states from which the steps run.
abbrev pub begin : PaperlessInstance foreign → State foreign
begin inst = record { inst = inst; history = [] }

abbrev pub key : ObjectKey
key = record { name = "p"; namespace = "docs" }

-- A Secret that the instances control.
abbrev pub owned_secret : Secret foreign
owned_secret = record {
  metadata = record {
    name = "p-admin";
    namespace = "docs";
    labels = [];
    owner_references = "u-1" ∷ [];
  };
  string_data = [];
  contents = ("username", "u") ∷ ("password", "w") ∷ [];
}
