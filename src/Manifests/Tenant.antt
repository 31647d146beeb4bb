-- ===== src/Manifests/Tenant.antt =====
-- The objects of a tenant's namespace (control-plane/tenant.go).
use vercel_clone.Prelude.{ℕ, Bool, ◌||◌, ◌&&◌, List, [], ◌∷◌, nat_eq, leb, take, keep}
use vercel_clone.Prelude.Text.{Text}
use vercel_clone.Prelude.Json.{Json, str, num, object, array, text, ◌⇒◌}

abbrev pub tenant_port : ℕ
tenant_port = 8080

abbrev pub is_label_byte : ℕ → Bool
is_label_byte c =
    leb b'a' c && leb c b'z'
    || (leb b'A' c && leb c b'Z'
        || (leb b'0' c && leb c b'9' || (nat_eq c b'-' || (nat_eq c b'_' || nat_eq c b'.'))))

-- The allowed ones of the first 63 bytes.
unfoldable pub sanitize_label_value : Text → Text
sanitize_label_value s = keep is_label_byte (take 63 s)

abbrev pub tenant_namespace_manifest : Text → Text → Json
tenant_namespace_manifest name login = object (
    "apiVersion" ⇒ text "v1"
    ∷ "kind" ⇒ text "Namespace"
    ∷ "metadata"
      ⇒ object (
          "name" ⇒ str name
          ∷ "labels"
            ⇒ object (
                "app.kubernetes.io/managed-by" ⇒ text "control-plane"
                ∷ "paas.tenant.login" ⇒ str (sanitize_label_value login)
                ∷ "pod-security.kubernetes.io/enforce" ⇒ text "restricted"
                ∷ "pod-security.kubernetes.io/enforce-version" ⇒ text "latest"
                ∷ "pod-security.kubernetes.io/audit" ⇒ text "restricted"
                ∷ "pod-security.kubernetes.io/warn" ⇒ text "restricted"
                ∷ [])
          ∷ [])
    ∷ [])

abbrev pub tenant_metadata : Json → Text → Json
tenant_metadata name namespace = object ("name" ⇒ name ∷ "namespace" ⇒ str namespace ∷ [])

abbrev pub tenant_resource_quota_manifest : Text → Json
tenant_resource_quota_manifest namespace = object (
    "apiVersion" ⇒ text "v1"
    ∷ "kind" ⇒ text "ResourceQuota"
    ∷ "metadata" ⇒ tenant_metadata (text "tenant") namespace
    ∷ "spec"
      ⇒ object (
          "hard"
            ⇒ object (
                "requests.cpu" ⇒ text "4"
                ∷ "requests.memory" ⇒ text "4Gi"
                ∷ "limits.cpu" ⇒ text "8"
                ∷ "limits.memory" ⇒ text "8Gi"
                ∷ "pods" ⇒ text "30"
                ∷ "services" ⇒ text "10"
                ∷ "persistentvolumeclaims" ⇒ text "5"
                ∷ "secrets" ⇒ text "30"
                ∷ [])
          ∷ [])
    ∷ [])

abbrev pub tenant_limit_range_manifest : Text → Json
tenant_limit_range_manifest namespace = object (
    "apiVersion" ⇒ text "v1"
    ∷ "kind" ⇒ text "LimitRange"
    ∷ "metadata" ⇒ tenant_metadata (text "tenant") namespace
    ∷ "spec"
      ⇒ object (
          "limits"
            ⇒ array (
                object (
                  "type" ⇒ text "Container"
                  ∷ "default" ⇒ object ("cpu" ⇒ text "100m" ∷ "memory" ⇒ text "128Mi" ∷ [])
                  ∷ "defaultRequest" ⇒ object ("cpu" ⇒ text "20m" ∷ "memory" ⇒ text "32Mi" ∷ [])
                  ∷ "max" ⇒ object ("cpu" ⇒ text "1" ∷ "memory" ⇒ text "1Gi" ∷ [])
                  ∷ [])
                ∷ [])
          ∷ [])
    ∷ [])

abbrev pub network_policy : Json → Text → List (Text × Json) → Json
network_policy name namespace spec = object (
    "apiVersion" ⇒ text "networking.k8s.io/v1"
    ∷ "kind" ⇒ text "NetworkPolicy"
    ∷ "metadata" ⇒ tenant_metadata name namespace
    ∷ "spec" ⇒ object spec
    ∷ [])

abbrev pub of_namespace : Json → Json
of_namespace name = object ("matchLabels" ⇒ object ("kubernetes.io/metadata.name" ⇒ name ∷ []) ∷ [])

abbrev pub port : Json → ℕ → Json
port protocol n = object ("protocol" ⇒ protocol ∷ "port" ⇒ num n ∷ [])

abbrev pub tenant_default_deny_manifest : Text → Json
tenant_default_deny_manifest namespace =
    network_policy (text "default-deny") namespace
      ("podSelector" ⇒ object [] ∷ "policyTypes" ⇒ array (text "Ingress" ∷ text "Egress" ∷ []) ∷ [])

abbrev pub tenant_allow_traefik_ingress_manifest : Text → Json
tenant_allow_traefik_ingress_manifest namespace =
    network_policy (text "allow-traefik-ingress") namespace (
      "podSelector" ⇒ object []
      ∷ "policyTypes" ⇒ array (text "Ingress" ∷ [])
      ∷ "ingress"
        ⇒ array (
            object (
              "from"
                ⇒ array
                    (object ("namespaceSelector" ⇒ of_namespace (text "traefik-system") ∷ []) ∷ [])
              ∷ "ports" ⇒ array (port (text "TCP") tenant_port ∷ [])
              ∷ [])
            ∷ [])
      ∷ [])

abbrev pub tenant_allow_public_egress_manifest : Text → Json
tenant_allow_public_egress_manifest namespace =
    network_policy (text "allow-public-egress") namespace (
      "podSelector" ⇒ object []
      ∷ "policyTypes" ⇒ array (text "Egress" ∷ [])
      ∷ "egress"
        ⇒ array (
            object (
              "to"
                ⇒ array (
                    object ("namespaceSelector" ⇒ of_namespace (text "kube-system") ∷ [])
                    ∷ object ("ipBlock" ⇒ object ("cidr" ⇒ text "169.254.20.10/32" ∷ []) ∷ [])
                    ∷ [])
              ∷ "ports" ⇒ array (port (text "UDP") 53 ∷ port (text "TCP") 53 ∷ [])
              ∷ [])
            ∷ object (
                "to"
                  ⇒ array (
                      object (
                        "ipBlock"
                          ⇒ object (
                              "cidr" ⇒ text "0.0.0.0/0"
                              ∷ "except"
                                ⇒ array (
                                    text "10.0.0.0/8"
                                    ∷ text "172.16.0.0/12"
                                    ∷ text "192.168.0.0/16"
                                    ∷ text "169.254.0.0/16"
                                    ∷ [])
                              ∷ [])
                        ∷ [])
                      ∷ [])
                ∷ [])
            ∷ [])
      ∷ [])

abbrev pub tenant_allow_paas_db_egress_manifest : Text → Json
tenant_allow_paas_db_egress_manifest namespace =
    network_policy (text "allow-paas-db-egress") namespace (
      "podSelector" ⇒ object ("matchLabels" ⇒ object ("paas.db" ⇒ text "enabled" ∷ []) ∷ [])
      ∷ "policyTypes" ⇒ array (text "Egress" ∷ [])
      ∷ "egress"
        ⇒ array (
            object (
              "to"
                ⇒ array (
                    object (
                      "namespaceSelector" ⇒ of_namespace (text "paas-system")
                      ∷ "podSelector"
                        ⇒ object
                            ("matchLabels" ⇒ object ("cnpg.io/cluster" ⇒ text "paas-db" ∷ []) ∷ [])
                      ∷ [])
                    ∷ [])
              ∷ "ports" ⇒ array (port (text "TCP") 5432 ∷ [])
              ∷ [])
            ∷ [])
      ∷ [])
