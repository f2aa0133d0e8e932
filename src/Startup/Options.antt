-- ===== src/Startup/Options.antt =====
-- api/v1alpha1/groupversion_info.go and internal/manager/options.go.
use paperless_ngx_operator.Prelude.{Bool, String, [], ◌∷◌, Result, ok, ◌>>=◌}
use paperless_ngx_operator.Startup.Runtime.{
  GroupVersion, SchemeLibrary, ManagerOptions, secret_type,
}

abbrev pub group_version : GroupVersion
group_version = record { group = "paperless.p3l1.de"; version = "v1alpha1" }

abbrev pub leader_election_id : String
leader_election_id = "paperless-ngx-operator.paperless.p3l1.de"

pub record Config : Type 0 where
  pub metrics_address : String
  pub probe_address : String
  pub leader_election : Bool

module _ (L : SchemeLibrary) where
  unfoldable pub add_known_types : L.Scheme → Result L.Scheme
  add_known_types scheme =
      let known =
        L.add_known_types group_version ("PaperlessInstance" ∷ "PaperlessInstanceList" ∷ [])
          scheme in
      ok (L.add_to_group_version group_version known)

  -- `SchemeBuilder.AddToScheme`
  unfoldable pub add_to_scheme : L.Scheme → Result L.Scheme
  add_to_scheme = L.builder_add_to_scheme (add_known_types ∷ [])

  -- An error is the panic of `utilruntime.Must`.
  unfoldable pub controller_options : Config → Result (ManagerOptions L)
  controller_options c = do
    built_in ← L.clientgo_add_to_scheme L.new_scheme
    scheme ← add_to_scheme built_in
    ok (record {
      scheme = scheme;
      cache_disabled_for = secret_type ∷ [];
      metrics_bind_address = c.metrics_address;
      health_probe_bind_address = c.probe_address;
      leader_election = c.leader_election;
      leader_election_id = leader_election_id;
    })
