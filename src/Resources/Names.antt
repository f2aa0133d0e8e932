-- ===== src/Resources/Names.antt =====
-- internal/resources/names.go and `commonLabels`: the names and labels of the derived objects.
pub mod Distinct
use paperless_ngx_operator.Prelude.{String, ◌<>◌, [], ◌∷◌}
use paperless_ngx_operator.Kube.{Foreign}
use paperless_ngx_operator.Kube.Objects.{StringMap, ObjectMeta}
use paperless_ngx_operator.Api.Types.{PaperlessInstance}

module _ {F : Foreign} where
  unfoldable pub derived_name : PaperlessInstance F → String → String
  derived_name inst suffix = (inst.name <> "-") <> suffix

  abbrev pub secret_key_name : PaperlessInstance F → String
  secret_key_name inst = derived_name inst "secret-key"

  abbrev pub admin_secret_name : PaperlessInstance F → String
  admin_secret_name inst = derived_name inst "admin"

  abbrev pub data_pvc_name : PaperlessInstance F → String
  data_pvc_name inst = derived_name inst "data"

  abbrev pub media_pvc_name : PaperlessInstance F → String
  media_pvc_name inst = derived_name inst "media"

  abbrev pub consume_pvc_name : PaperlessInstance F → String
  consume_pvc_name inst = derived_name inst "consume"

  abbrev pub export_pvc_name : PaperlessInstance F → String
  export_pvc_name inst = derived_name inst "export"

  abbrev pub valkey_name : PaperlessInstance F → String
  valkey_name inst = derived_name inst "valkey"

  abbrev pub db_name : PaperlessInstance F → String
  db_name inst = derived_name inst "db"

  unfoldable pub common_labels : PaperlessInstance F → String → StringMap
  common_labels inst component =
      ("app.kubernetes.io/name", "paperless-ngx")
      ∷ ("app.kubernetes.io/instance", inst.name)
      ∷ ("app.kubernetes.io/managed-by", "paperless-ngx-operator")
      ∷ ("app.kubernetes.io/component", component)
      ∷ []

  -- The `metav1.ObjectMeta` literal that the builders share: no owner references.
  abbrev pub object_meta : PaperlessInstance F → String → StringMap → ObjectMeta F
  object_meta inst name labels = record {
    name = name;
    namespace = inst.namespace;
    labels = labels;
    owner_references = [];
  }
