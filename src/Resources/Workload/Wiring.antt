-- ===== src/Resources/Workload/Wiring.antt =====
-- How the built objects refer to one another: selectors and labels, claims and volumes, the hosts
-- of the probes, the address of the cache.
use paperless_ngx_operator.Prelude.{
  String, ◌==◌, Bool, true, false, ◌&&◌, Option, none, some, List, [], ◌∷◌, map, ◌≡◌, ◌↔◌, refl,
  arith, eq_iff, eq_refl, lookup, any, join, if◌then◌else◌,
}
use paperless_ngx_operator.Kube.{Foreign}
use paperless_ngx_operator.Kube.Objects.{StringMap, Deployment, Service, Probe, Container, Volume}
use paperless_ngx_operator.Api.Types.{PaperlessInstance}
use paperless_ngx_operator.Resources.Names.{common_labels, valkey_name}
use paperless_ngx_operator.Resources.Storage.{pvcs}
use paperless_ngx_operator.Resources.Cache.{valkey_deployment, valkey_service}
use paperless_ngx_operator.Resources.Database.{value_env_var}
use paperless_ngx_operator.Resources.Workload.{
  deployment, service, host_list, paperless_volumes, paperless_volume_mounts, paperless_probe,
  allowed_hosts,
}
use paperless_ngx_operator.Resources.Env.Upsert.{find, find_last}
use paperless_ngx_operator.Resources.Workload.Environment.{find-workload_env-hosts}

-- The headers that a probe sends.
abbrev pub headers_of : Option Probe → StringMap
headers_of none = []
headers_of (some probe) = probe.http_headers

-- The claim of the first volume of a name.
abbrev pub claim_of : List Volume → String → Option String
claim_of [] name = none
claim_of (v ∷ volumes) name = if v.name == name then some v.claim_name else claim_of volumes name

-- Whether a label has a value.
abbrev has_value : Option String → String → Bool
has_value none v = false
has_value (some w) v = w == v

-- Whether a selector of Kubernetes selects an object with these labels: each of its entries is
-- among them.
unfoldable pub selects : StringMap → StringMap → Bool
unfolding lookup
selects [] labels = true
selects ((k, v) ∷ selector) labels = has_value (lookup k labels) v && selects selector labels

selects-common_labels :
    {F : Foreign} (i j : PaperlessInstance F) (c d : String)
    → selects (common_labels i c) (common_labels j d) ≡ (j.name == i.name && d == c)
unfolding selects common_labels
selects-common_labels i j c d = ground arith

module _ {F : Foreign} (i j : PaperlessInstance F) where
  -- The Service of an instance selects the pods of an instance's Deployment exactly if the two
  -- instances have one name, and a Deployment selects its own pods.
  pub service-selects-deployment :
      ((selects (service i).selector (deployment j).template_labels ≡ true) ↔ (i.name ≡ j.name))
      × (selects (deployment i).selector (deployment i).template_labels ≡ true)
  unfolding service deployment
  service-selects-deployment = (
    rw selects-common_labels (ground (arith, eq_iff j.name i.name)),
    rw selects-common_labels (ground (arith, eq_iff i.name i.name)),
  )

module _ {F : Foreign} (i j : PaperlessInstance F) where
  -- Where they are built, the Service of the cache selects the cache's pods; it selects the pods
  -- of no instance's Deployment, and no instance's Service selects the cache's pods.
  pub valkey_service-selects :
      (s : Service F) (d : Deployment F)
      → valkey_service i ≡ some s
      → valkey_deployment i ≡ some d
      → (selects s.selector d.template_labels ≡ true)
        × (selects s.selector (deployment j).template_labels ≡ false)
        × (selects (service j).selector d.template_labels ≡ false)
  unfolding valkey_service valkey_deployment service deployment
  valkey_service-selects s d hs hd =
      let chosen : s.selector ≡ common_labels i "cache" = ground arith in
      let labelled : d.template_labels ≡ common_labels i "cache" = ground arith in
      (
        rw (chosen, labelled, selects-common_labels) (ground (arith, eq_iff i.name i.name)),
        rw (chosen, selects-common_labels) (ground arith),
        rw (labelled, selects-common_labels) (ground arith),
      )

module _ {F : Foreign} (inst : PaperlessInstance F) where
  -- The pod has one container. Its mounts are the four directories of Paperless for data, media,
  -- consume and export; followed from the name of the mount to the volume of the pod with that
  -- name, and from there to its claim, they lead, in this order, to the four claims that the
  -- operator applies.
  pub paperless_volumes-pvcs :
      (map
          (λ (c : Container F). map (λ m. m.mount_path) c.volume_mounts)
          (deployment inst).pod.containers
        ≡ ("/usr/src/paperless/data" ∷ "/usr/src/paperless/media" ∷ "/usr/src/paperless/consume"
            ∷ "/usr/src/paperless/export" ∷ [])
          ∷ [])
      × (map
            (λ (c : Container F).
              map (λ m. claim_of (deployment inst).pod.volumes m.name) c.volume_mounts)
            (deployment inst).pod.containers
          ≡ map (λ p. some p.metadata.name) (pvcs inst) ∷ [])
  unfolding deployment pvcs paperless_volumes paperless_volume_mounts
  paperless_volumes-pvcs = (refl, refl)

  -- Unless the user sets PAPERLESS_ALLOWED_HOSTS, the readiness and the liveness probe of the
  -- pod's one container each send exactly one header, a Host, and this host is an entry of the
  -- comma-separated list that the environment of the same container gives Paperless as its
  -- allowed hosts.
  pub probe_headers-allowed :
      find_last "PAPERLESS_ALLOWED_HOSTS" inst.spec.env ≡ none
      → (c : Container F) × (host : String) × (hosts : List String) × ((deployment
            inst).pod.containers
          ≡ c ∷ [])
        × (headers_of c.readiness_probe ≡ ("Host", host) ∷ [])
        × (headers_of c.liveness_probe ≡ ("Host", host) ∷ [])
        × (find "PAPERLESS_ALLOWED_HOSTS" c.env
            ≡ some (value_env_var "PAPERLESS_ALLOWED_HOSTS" (join "," hosts)))
        × (any (λ h. h == host) hosts ≡ true)
  unfolding deployment paperless_probe allowed_hosts host_list
  probe_headers-allowed unset = (
    _,
    inst.name,
    host_list inst,
    refl,
    refl,
    refl,
    find-workload_env-hosts inst unset,
    simp eq_refl,
  )

module _ {F : Foreign} (i j : PaperlessInstance F) where
  -- An instance whose name is the cache's name of another one in its namespace has a Deployment
  -- and a Service of the same name and namespace as that cache, with other pod labels.
  pub deployment-valkey_collision :
      (d : Deployment F) (s : Service F)
      → i.namespace ≡ j.namespace
      → j.name ≡ valkey_name i
      → valkey_deployment i ≡ some d
      → valkey_service i ≡ some s
      → ((deployment j).metadata.name ≡ d.metadata.name)
        × ((deployment j).metadata.namespace ≡ d.metadata.namespace)
        × ((service j).metadata.name ≡ s.metadata.name)
        × ((service j).metadata.namespace ≡ s.metadata.namespace)
        × (selects (deployment j).selector d.template_labels ≡ false)
  unfolding deployment service valkey_deployment valkey_service
  deployment-valkey_collision d s same named hd hs =
      let labelled : d.template_labels ≡ common_labels i "cache" = ground arith in
      (
        ground arith,
        ground arith,
        ground arith,
        ground arith,
        rw (labelled, selects-common_labels) (ground arith),
      )
