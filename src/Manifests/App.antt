-- ===== src/Manifests/App.antt =====
-- The objects of a deployment (control-plane/builder.go).
use vercel_clone.Prelude.{ℕ, true, false, List, [], ◌∷◌, ◌++◌, ◌==◌, if◌then◌else◌}
use vercel_clone.Prelude.Text.{Text, codes, text_key}
use vercel_clone.Prelude.Json.{Json, str, num, bool, object, array, text, ◌⇒◌}
use vercel_clone.Builder.Effects.{DeployInput}
use vercel_clone.Domains.Handlers.{tunnel_target}

abbrev pub docker_cfg_secret : Json
docker_cfg_secret = text "registry-dockercfg"

abbrev pub app_labels : DeployInput → List (Text × Json)
app_labels i =
    "app" ⇒ str i.name
    ∷ "app.kubernetes.io/managed-by" ⇒ text "control-plane"
    ∷ "app.kubernetes.io/component" ⇒ text "tenant"
    ∷ "paas.project" ⇒ str i.slug
    ∷ "paas.deployment" ⇒ str i.deployment_id
    ∷ "paas.commit" ⇒ str i.short_sha
    ∷ (if i.db_secret_name == [] then [] else "paas.db" ⇒ text "enabled" ∷ [])

-- `env` stands in the container only if there is a variable.
abbrev pub app_env : DeployInput → List (Text × Json)
app_env i =
    if i.db_secret_name == []
    then []
    else "env"
        ⇒ array (
            object (
              "name" ⇒ text "DATABASE_URL"
              ∷ "valueFrom"
                ⇒ object (
                    "secretKeyRef"
                      ⇒ object ("name" ⇒ str i.db_secret_name ∷ "key" ⇒ text "DATABASE_URL" ∷ [])
                    ∷ [])
              ∷ [])
            ∷ [])
      ∷ []

abbrev pub app_env_from : DeployInput → List (Text × Json)
app_env_from i =
    if i.env_secret_name == []
    then []
    else "envFrom"
        ⇒ array (
            object (
              "secretRef" ⇒ object ("name" ⇒ str i.env_secret_name ∷ "optional" ⇒ bool true ∷ [])
              ∷ [])
            ∷ [])
      ∷ []

abbrev pub app_container : DeployInput → ℕ → Json
app_container i port = object (
    "name" ⇒ text "app"
    ∷ "image" ⇒ str i.image
    ∷ "imagePullPolicy" ⇒ text "IfNotPresent"
    ∷ "ports" ⇒ array (object ("containerPort" ⇒ num port ∷ "name" ⇒ text "http" ∷ []) ∷ [])
    ∷ "resources"
      ⇒ object (
          "requests" ⇒ object ("cpu" ⇒ text "50m" ∷ "memory" ⇒ text "32Mi" ∷ [])
          ∷ "limits" ⇒ object ("cpu" ⇒ text "500m" ∷ "memory" ⇒ text "256Mi" ∷ [])
          ∷ [])
    ∷ "securityContext"
      ⇒ object (
          "allowPrivilegeEscalation" ⇒ bool false
          ∷ "capabilities" ⇒ object ("drop" ⇒ array (text "ALL" ∷ []) ∷ [])
          ∷ [])
    ∷ (app_env i ++ app_env_from i))

abbrev pub app_pod : DeployInput → ℕ → Json
app_pod i port = object (
    "imagePullSecrets" ⇒ array (object ("name" ⇒ docker_cfg_secret ∷ []) ∷ [])
    ∷ "dnsPolicy" ⇒ text "None"
    ∷ "dnsConfig"
      ⇒ object (
          "nameservers" ⇒ array (text "10.96.0.10" ∷ [])
          ∷ "searches"
            ⇒ array (
                str (i.namespace ++ codes ".svc.cluster.local")
                ∷ text "svc.cluster.local"
                ∷ text "cluster.local"
                ∷ [])
          ∷ "options" ⇒ array (object ("name" ⇒ text "ndots" ∷ "value" ⇒ text "5" ∷ []) ∷ [])
          ∷ [])
    ∷ "securityContext"
      ⇒ object (
          "runAsNonRoot" ⇒ bool true
          ∷ "runAsUser" ⇒ num 101
          ∷ "runAsGroup" ⇒ num 101
          ∷ "fsGroup" ⇒ num 101
          ∷ "seccompProfile" ⇒ object ("type" ⇒ text "RuntimeDefault" ∷ [])
          ∷ [])
    ∷ "containers" ⇒ array (app_container i port ∷ [])
    ∷ [])

abbrev pub deployment_manifest : DeployInput → ℕ → Json
deployment_manifest i port = object (
    "apiVersion" ⇒ text "apps/v1"
    ∷ "kind" ⇒ text "Deployment"
    ∷ "metadata"
      ⇒ object (
          "name" ⇒ str i.name
          ∷ "namespace" ⇒ str i.namespace
          ∷ "labels" ⇒ object (app_labels i)
          ∷ "annotations" ⇒ object ("paas.commit-sha" ⇒ str i.commit_sha ∷ [])
          ∷ [])
    ∷ "spec"
      ⇒ object (
          "replicas" ⇒ num 1
          ∷ "selector" ⇒ object ("matchLabels" ⇒ object ("app" ⇒ str i.name ∷ []) ∷ [])
          ∷ "strategy"
            ⇒ object (
                "type" ⇒ text "RollingUpdate"
                ∷ "rollingUpdate" ⇒ object ("maxSurge" ⇒ num 1 ∷ "maxUnavailable" ⇒ num 0 ∷ [])
                ∷ [])
          ∷ "template"
            ⇒ object (
                "metadata" ⇒ object ("labels" ⇒ object (app_labels i) ∷ [])
                ∷ "spec" ⇒ app_pod i port
                ∷ [])
          ∷ [])
    ∷ [])

abbrev pub service_manifest : Text → Text → Text → Text → ℕ → Json
service_manifest name namespace slug short_sha port = object (
    "apiVersion" ⇒ text "v1"
    ∷ "kind" ⇒ text "Service"
    ∷ "metadata"
      ⇒ object (
          "name" ⇒ str name
          ∷ "namespace" ⇒ str namespace
          ∷ "labels"
            ⇒ object (
                "app.kubernetes.io/managed-by" ⇒ text "control-plane"
                ∷ "paas.project" ⇒ str slug
                ∷ "paas.commit" ⇒ str short_sha
                ∷ [])
          ∷ [])
    ∷ "spec"
      ⇒ object (
          "selector" ⇒ object ("app" ⇒ str name ∷ [])
          ∷ "ports"
            ⇒ array (
                object ("name" ⇒ text "http" ∷ "port" ⇒ num 80 ∷ "targetPort" ⇒ num port ∷ []) ∷ [])
          ∷ [])
    ∷ [])

-- A rule for one host, to the port 80 of one Service.
abbrev pub route_spec : Text → Text → Json
route_spec host service = object (
    "entryPoints" ⇒ array (text "web" ∷ [])
    ∷ "routes"
      ⇒ array (
          object (
            "match" ⇒ str (codes "Host(`" ++ (host ++ codes "`)"))
            ∷ "kind" ⇒ text "Rule"
            ∷ "services" ⇒ array (object ("name" ⇒ str service ∷ "port" ⇒ num 80 ∷ []) ∷ [])
            ∷ [])
          ∷ [])
    ∷ [])

abbrev pub route_manifest : Text → Text → List (Text × Json) → Json → Json
route_manifest name namespace labels spec = object (
    "apiVersion" ⇒ text "traefik.io/v1alpha1"
    ∷ "kind" ⇒ text "IngressRoute"
    ∷ "metadata"
      ⇒ object (
          "name" ⇒ str name
          ∷ "namespace" ⇒ str namespace
          ∷ "labels" ⇒ object labels
          ∷ "annotations"
            ⇒ object ("external-dns.alpha.kubernetes.io/target" ⇒ str tunnel_target ∷ [])
          ∷ [])
    ∷ "spec" ⇒ spec
    ∷ [])

abbrev pub ingress_route_manifest : Text → Text → Text → Text → Text → Json
ingress_route_manifest name namespace host slug short_sha =
    route_manifest name namespace
      ("app.kubernetes.io/managed-by" ⇒ text "control-plane"
        ∷ "paas.project" ⇒ str slug
        ∷ "paas.commit" ⇒ str short_sha
        ∷ [])
      (route_spec host name)

abbrev pub production_alias_manifest : Text → Text → Text → Text → Text → Json
production_alias_manifest route_name namespace host service slug =
    route_manifest route_name namespace
      ("app.kubernetes.io/managed-by" ⇒ text "control-plane"
        ∷ "app.kubernetes.io/component" ⇒ text "production-alias"
        ∷ "paas.project" ⇒ str slug
        ∷ [])
      (route_spec host service)
