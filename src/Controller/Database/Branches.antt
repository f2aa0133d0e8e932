-- ===== src/Controller/Database/Branches.antt =====
-- What each branch of `reconcileDatabase` reports
-- (internal/controller/paperlessinstance_controller.go).
use paperless_ngx_operator.Prelude.{
  Bool, true, false, String, Option, none, some, ◌∷◌, Result, ok, err, wrap, Error, ◌≡◌, ◌≢◌, ◌↔◌,
  arith, is_some, lookup, Bool-cases, Option-cases, inl, inr,
}
use paperless_ngx_operator.Kube.{Foreign}
use paperless_ngx_operator.Kube.Objects.{
  Condition, ConditionStatus, ObjectKey, Secret, StringMap, condition_true, condition_false,
}
use paperless_ngx_operator.Api.Types.{ExternalDatabase}
use paperless_ngx_operator.Controller.Client.{
  Server, Machinery, State, get_secret, is_not_found, ◌>>=◌,
}
use paperless_ngx_operator.Controller.Conditions.{set_condition}
use paperless_ngx_operator.Controller.Conditions.Lookup.{
  find_condition, SetsCondition, find_condition-set_condition,
}
use paperless_ngx_operator.Controller.Database.{
  missing_key, required_keys, report_external, check_external, reconcile_external_database,
}

-- A map has a user name and a password.
abbrev pub HasCredentials : StringMap → Type 0
HasCredentials contents =
    (is_some (lookup "username" contents) ≡ true) × (is_some (lookup "password" contents) ≡ true)

pub missing_key-none_iff :
    (contents : StringMap) → (missing_key required_keys contents ≡ none) ↔ HasCredentials contents
unfolding missing_key
missing_key-none_iff contents = ground arith

lacking :
    (contents : StringMap) (key : String)
    → HasCredentials contents
    → missing_key required_keys contents ≢ some key
lacking contents key has lacks = let found = (missing_key-none_iff contents).1 has in cc

module _ {F : Foreign} (S : Server F) (K : Machinery F) (sets : SetsCondition K) where
  abbrev pub database_ready : State F → Option Condition
  database_ready s = find_condition "DatabaseReady" s.inst.status.conditions

  abbrev pub credentials_key : ExternalDatabase → State F → ObjectKey
  credentials_key ext s = record {
    name = ext.credentials_secret_ref.name;
    namespace = s.inst.namespace;
  }

  -- The condition DatabaseReady has a status and a reason, and observes the generation.
  pub record Marked (s : State F) (status : ConditionStatus) (reason : String) : Type 0 where
    pub message : String
    pub condition :
        database_ready s
        ≡ some (record {
          type = "DatabaseReady";
          status = status;
          observed_generation = s.inst.generation;
          reason = reason;
          message = message;
        })

  -- What the check of the credentials gives, for each answer of the API server.
  pub data Checked : Result (Secret F) → Result Bool → State F → Type 0 where
    configured :
        {secret : Secret F} {t : State F}
        → HasCredentials secret.contents
        → Marked t condition_true "ExternalDatabaseConfigured"
        → Checked (ok secret) (ok true) t
    invalid :
        {secret : Secret F} {t : State F}
        → ¬ HasCredentials secret.contents
        → Marked t condition_false "ExternalDatabaseSecretInvalid"
        → Checked (ok secret) (ok false) t
    missing :
        {e : Error} {t : State F}
        → is_not_found e ≡ true
        → Marked t condition_false "ExternalDatabaseSecretMissing"
        → Checked (err e) (ok false) t
    unreadable :
        {e : Error} {t : State F}
        → is_not_found e ≡ false
        → Checked (err e) (err (wrap "getting external database secret" e)) t

  pub Marked-mark :
      (s : State F) (status : ConditionStatus) (reason message : String)
      → Marked
          (record s { inst = set_condition K s.inst "DatabaseReady" status reason message })
          status
          reason
  unfolding set_condition
  Marked-mark s status reason message = record {
    message = message;
    condition = find_condition-set_condition K sets s.inst "DatabaseReady" "DatabaseReady" _ _ _;
  }

  check_external-Checked :
      (name : String) (r : Result (Secret F)) (s : State F)
      → Checked r (check_external S K name r s).0 (check_external S K name r s).1
  unfolding check_external report_external ◌>>=◌
  check_external-Checked name (ok secret) s =
      elim (Option-cases (missing_key required_keys secret.contents)) [
        | inl found ↦ rw found (configured ((missing_key-none_iff _).0 found) (Marked-mark s _ _ _))
        | inr (key, lacks) ↦
            rw lacks (invalid (λ has. absurd (lacking _ _ has lacks)) (Marked-mark s _ _ _))
      ]
  check_external-Checked name (err e) s = elim (Bool-cases (is_not_found e)) [
    | inl absent ↦ rw absent (missing absent (Marked-mark s _ _ _))
    | inr other ↦ rw other (unreadable other)
  ]

  check_external-history :
      (name : String) (r : Result (Secret F)) (s : State F)
      → (check_external S K name r s).1.history ≡ s.history
  unfolding check_external report_external ◌>>=◌
  check_external-history name (ok secret) s = ground arith
  check_external-history name (err e) s = ground arith

  -- Whatever the API server answers, if `meta.SetStatusCondition` sets the condition of its type, for the Secret of an external database, the step makes
  -- one request, the Get of that Secret. It reports ready exactly for a Secret with a user name and a password; a missing
  -- Secret and one that lacks a key are not errors but leave DatabaseReady false, with a reason
  -- of their own; any other failure is returned.
  pub reconcile_external_database-Checked :
      (ext : ExternalDatabase) (s : State F)
      → Checked
          (S.secret_answer s.history (credentials_key ext s))
          (reconcile_external_database S K ext s).0
          (reconcile_external_database S K ext s).1
        × ((reconcile_external_database S K ext s).1.history
            ≡ get_secret (credentials_key ext s) ∷ s.history)
  unfolding reconcile_external_database ◌>>=◌
  reconcile_external_database-Checked ext s =
      let asked : State F = record s { history = get_secret (credentials_key ext s) ∷ s.history } in
      let answer = S.secret_answer s.history (credentials_key ext s) in
      (
        check_external-Checked _ answer asked,
        check_external-history ext.credentials_secret_ref.name answer asked,
      )
