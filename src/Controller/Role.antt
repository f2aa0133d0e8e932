-- ===== src/Controller/Role.antt =====
-- The role of the operator: the kubebuilder markers in
-- internal/controller/paperlessinstance_controller.go.
pub mod Authorized
use paperless_ngx_operator.Prelude.{String, List, [], ◌∷◌, ◌++◌}
use paperless_ngx_operator.Kube.Access.{Rule}

abbrev read_verbs : List String
read_verbs = "get" ∷ "list" ∷ "watch" ∷ []

abbrev write_verbs : List String
write_verbs = "create" ∷ "update" ∷ "patch" ∷ "delete" ∷ []

abbrev rule : String → List String → List String → Rule
rule group resources verbs = record { groups = group ∷ []; resources = resources; verbs = verbs }

unfoldable pub role : List Rule
role =
    rule "paperless.p3l1.de" ("paperlessinstances" ∷ []) (read_verbs ++ write_verbs)
    ∷ rule "paperless.p3l1.de" ("paperlessinstances/status" ∷ []) ("get" ∷ "update" ∷ "patch" ∷ [])
    ∷ rule "paperless.p3l1.de" ("paperlessinstances/finalizers" ∷ []) ("update" ∷ [])
    ∷ rule "apps" ("deployments" ∷ []) (read_verbs ++ write_verbs)
    ∷ rule "" ("services" ∷ "persistentvolumeclaims" ∷ []) (read_verbs ++ write_verbs)
    ∷ rule "" ("secrets" ∷ []) ("get" ∷ write_verbs)
    ∷ rule "" ("events" ∷ []) ("create" ∷ "patch" ∷ [])
    ∷ rule "postgresql.cnpg.io" ("clusters" ∷ []) (read_verbs ++ write_verbs)
    ∷ rule "apiextensions.k8s.io" ("customresourcedefinitions" ∷ []) read_verbs
    ∷ []
