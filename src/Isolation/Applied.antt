-- ===== src/Isolation/Applied.antt =====
-- What `ensureTenant` leaves in the API server.
use Prim.Native.String.{String}
use vercel_clone.Prelude.{◌≡◌, Option, some, none, [], ◌∷◌, ◌++◌}
use vercel_clone.Prelude.Text.{Text, codes, text_key}
use vercel_clone.Prelude.Result.{Result}
use vercel_clone.Prelude.Json.{Json, num, object, array, text, nested, ◌⇒◌}
use vercel_clone.Kube.{Server}
use vercel_clone.Kube.Contents.{Contents}
use vercel_clone.Isolation
use vercel_clone.Isolation.{Planned, docker_config_manifest}

-- The server keeps an object under a name, of which this holds.
abbrev pub Keeps : {S : Server} → Contents S → S.State → Text → Text → (Json → Type 0) → Type 0
Keeps C s path name P = (o : Json) × (C.contents s path name ≡ some (C.spec o)) × P o

abbrev pub spec_field : String → Json → Option Json
spec_field k o = nested (codes "spec" ∷ codes k ∷ []) o

abbrev pub network_policies : Server → Text → Text
network_policies S ns =
    codes "/apis/networking.k8s.io/v1/namespaces/"
    ++ S.path_escape ns
    ++ codes "/"
    ++ codes "networkpolicies"

-- What keeps the pods of a namespace apart from those of others: the profile, and what the policies
-- deny and allow.
pub record IsIsolated {S : Server} (C : Contents S) (s : S.State) (ns : Text) : Type 0 where
  pub restricted : Keeps C s (codes "/api/v1/namespaces") ns (λ o.
      nested (codes "metadata" ∷ codes "labels" ∷ codes "pod-security.kubernetes.io/enforce" ∷ []) o
      ≡ some (text "restricted"))
  -- Of all pods, and with no rule that allows anything.
  pub denied : Keeps C s (network_policies S ns) (codes "default-deny") (λ o.
      (spec_field "podSelector" o ≡ some (object []))
      × (spec_field "policyTypes" o ≡ some (array (text "Ingress" ∷ text "Egress" ∷ [])))
      × (spec_field "ingress" o ≡ none)
      × (spec_field "egress" o ≡ none))
  -- From the proxy's namespace, to the port of the apps.
  pub let_in : Keeps C s (network_policies S ns) (codes "allow-traefik-ingress") (λ o.
      (spec_field "ingress" o
        ≡ some (
            array (
              object (
                "from"
                  ⇒ array (
                      object (
                        "namespaceSelector"
                          ⇒ object (
                              "matchLabels"
                                ⇒ object
                                    ("kubernetes.io/metadata.name" ⇒ text "traefik-system" ∷ [])
                              ∷ [])
                        ∷ [])
                      ∷ [])
                ∷ "ports" ⇒ array (object ("protocol" ⇒ text "TCP" ∷ "port" ⇒ num 8080 ∷ []) ∷ [])
                ∷ [])
              ∷ [])))
      × (spec_field "egress" o ≡ none))
  -- No traffic in; and out to the name servers' port, and to no private address.
  pub let_out : Keeps C s (network_policies S ns) (codes "allow-public-egress") (λ o.
      (spec_field "ingress" o ≡ none)
      × (dns : Json) × (spec_field "egress" o
          ≡ some (
              array (
                object (
                  "to" ⇒ dns
                  ∷ "ports"
                    ⇒ array (
                        object ("protocol" ⇒ text "UDP" ∷ "port" ⇒ num 53 ∷ [])
                        ∷ object ("protocol" ⇒ text "TCP" ∷ "port" ⇒ num 53 ∷ [])
                        ∷ [])
                  ∷ [])
                ∷ object (
                    "to"
                      ⇒ array (
                          object (
                            "ipBlock"
                              ⇒ object (
                                  "cidr" ⇒ text "0.0.0.0/0"
                                  ∷ "except"
                                    ⇒ array (
                                        text "10.0.0.0/8"
                                        ∷ text "172.16.0.0/12"
                                        ∷ text "192.168.0.0/16"
                                        ∷ text "169.254.0.0/16"
                                        ∷ [])
                                  ∷ [])
                            ∷ [])
                          ∷ [])
                    ∷ [])
                ∷ []))))
  pub to_databases : Keeps C s (network_policies S ns) (codes "allow-paas-db-egress") (λ o.
      (spec_field "podSelector" o
        ≡ some (object ("matchLabels" ⇒ object ("paas.db" ⇒ text "enabled" ∷ []) ∷ [])))
      × (spec_field "ingress" o ≡ none))
