-- ===== src/Isolation.antt =====
-- `ensureTenant` (control-plane/tenant.go) as calls of the Kubernetes client: the objects that keep
-- tenants apart, and the credentials for the registry.
pub mod Held
pub mod Applied
mod Examples
use vercel_clone.Prelude.{
  ℕ, Bool, true, false, Option, none, some, List, [], ◌∷◌, ◌++◌, ◌==◌, if◌then◌else◌,
}
use vercel_clone.Prelude.Text.{Text, codes, text_key}
use vercel_clone.Prelude.Result.{Result, ok, err}
use vercel_clone.Prelude.Dict.{Dict, get}
use vercel_clone.Prelude.Json.{Json, Fields, str, object, text, obj, ◌⇒◌}
use vercel_clone.Tenant.{tenant_namespace_for}
use vercel_clone.Kube.{Server, Call, collection, apply}
use vercel_clone.Kube.Queries.{get_secret_data}
use vercel_clone.Manifests.Tenant.{
  tenant_namespace_manifest, tenant_resource_quota_manifest, tenant_limit_range_manifest,
  tenant_default_deny_manifest, tenant_allow_traefik_ingress_manifest,
  tenant_allow_public_egress_manifest, tenant_allow_paas_db_egress_manifest,
}

-- A call of `apply`: the collection, the name and the object.
pub record Planned : Type 0 where
  pub path : Text
  pub name : Text
  pub body : Json

abbrev pub registry_secret : Text
registry_secret = codes "registry-dockercfg"

abbrev pub docker_config_manifest : Text → Text → Text → Json
docker_config_manifest namespace name encoded = object (
    "apiVersion" ⇒ text "v1"
    ∷ "kind" ⇒ text "Secret"
    ∷ "type" ⇒ text "kubernetes.io/dockerconfigjson"
    ∷ "metadata"
      ⇒ object (
          "name" ⇒ str name
          ∷ "namespace" ⇒ str namespace
          ∷ "labels"
            ⇒ object (
                "app.kubernetes.io/managed-by" ⇒ text "control-plane"
                ∷ "app.kubernetes.io/component" ⇒ text "registry-pull"
                ∷ [])
          ∷ [])
    ∷ "data" ⇒ object (".dockerconfigjson" ⇒ str encoded ∷ [])
    ∷ [])

module _ (S : Server) where
  open S use {State, encode_base64}

  abbrev pub policies : Text → Text
  policies ns = collection S (codes "/apis/networking.k8s.io/v1") ns (codes "networkpolicies")

  abbrev pub quotas : Text → Text
  quotas ns = collection S (codes "/api/v1") ns (codes "resourcequotas")

  abbrev pub limit_ranges : Text → Text
  limit_ranges ns = collection S (codes "/api/v1") ns (codes "limitranges")

  abbrev pub secrets : Text → Text
  secrets ns = collection S (codes "/api/v1") ns (codes "secrets")

  -- The calls before the credentials, in their order.
  abbrev pub tenant_objects : Text → Text → List Planned
  tenant_objects ns login =
      record {
        path = codes "/api/v1/namespaces";
        name = ns;
        body = tenant_namespace_manifest ns login;
      }
      ∷ record { path = quotas ns; name = codes "tenant"; body = tenant_resource_quota_manifest ns }
      ∷ record {
        path = limit_ranges ns;
        name = codes "tenant";
        body = tenant_limit_range_manifest ns;
      }
      ∷ record {
        path = policies ns;
        name = codes "default-deny";
        body = tenant_default_deny_manifest ns;
      }
      ∷ record {
        path = policies ns;
        name = codes "allow-traefik-ingress";
        body = tenant_allow_traefik_ingress_manifest ns;
      }
      ∷ record {
        path = policies ns;
        name = codes "allow-public-egress";
        body = tenant_allow_public_egress_manifest ns;
      }
      ∷ record {
        path = policies ns;
        name = codes "allow-paas-db-egress";
        body = tenant_allow_paas_db_egress_manifest ns;
      }
      ∷ []

  and_then_call : Result (Unit {0}) × State → Call S (Unit {0}) → Result (Unit {0}) × State
  and_then_call (err e, s) next = (err e, s)
  and_then_call (ok _, s) next = next s

  -- One after the other, up to the first that fails.
  unfoldable pub apply_each : List Planned → Call S (Unit {0})
  unfolding and_then_call
  apply_each [] s = (ok tt, s)
  apply_each (o ∷ os) s = and_then_call (apply S o.path o.name o.body s) (apply_each os)

  mirror_config : Text → Option Text → Call S (Unit {0})
  mirror_config ns none s = (err (codes "source secret missing .dockerconfigjson"), s)
  mirror_config ns (some []) s = (err (codes "source secret missing .dockerconfigjson"), s)
  mirror_config ns (some (c ∷ cs)) s =
      apply S (secrets ns) registry_secret
        (docker_config_manifest ns registry_secret (encode_base64 (c ∷ cs))) s

  mirror_data : Text → Result (Option (Dict Text Text)) × State → Result (Unit {0}) × State
  unfolding mirror_config
  mirror_data ns (err e, s) = (err e, s)
  mirror_data ns (ok none, s) = (err (codes "source secret not found"), s)
  mirror_data ns (ok (some m), s) = mirror_config ns (get m (codes ".dockerconfigjson")) s

  unfoldable pub mirror_registry_pull_secret : Text → Call S (Unit {0})
  unfolding mirror_data
  mirror_registry_pull_secret ns s =
      mirror_data ns (get_secret_data S (codes "paas-system") registry_secret s)

  pub named : Text → Result (Unit {0}) × State → Result Text × State
  named ns (err e, s) = (err e, s)
  named ns (ok _, s) = (ok ns, s)

  unfoldable pub ensure_tenant : Text → Call S Text
  unfolding named and_then_call
  ensure_tenant login s =
      let ns = tenant_namespace_for login in
      named ns
        (and_then_call (apply_each (tenant_objects ns login) s) (mirror_registry_pull_secret ns))
