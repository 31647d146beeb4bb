-- ===== src/Manifests/Labels.antt =====
-- How the objects of a deployment find one another, and how they are found.
use vercel_clone.Prelude.{◌≡◌, true, Option, [], ◌∷◌}
use vercel_clone.Prelude.Text.{Text, codes, text_key}
use vercel_clone.Prelude.Json.{Json, member, nested, and_then}
use vercel_clone.Manifests.{selects, fields_at, pod_labels, first_at}

-- The first container of a Deployment, and the first Service of the first rule of a route.
abbrev pub container_of : Json → Option Json
container_of = first_at (codes "spec" ∷ codes "template" ∷ codes "spec" ∷ codes "containers" ∷ [])

abbrev pub routed_service : Json → Option Json
routed_service o =
    and_then (first_at (codes "spec" ∷ codes "routes" ∷ []) o) (first_at (codes "services" ∷ []))

abbrev pub port_of : Json → Option Json
port_of = first_at (codes "spec" ∷ codes "ports" ∷ [])

-- A route leads to a Service: by its name in the namespace, and to a port that it has.
abbrev pub LeadsTo : Json → Json → Type 0
LeadsTo route service =
    (and_then (routed_service route) (member (codes "name"))
      ≡ nested (codes "metadata" ∷ codes "name" ∷ []) service)
    × (and_then (routed_service route) (member (codes "port"))
        ≡ and_then (port_of service) (member (codes "port")))
    × (nested (codes "metadata" ∷ codes "namespace" ∷ []) route
        ≡ nested (codes "metadata" ∷ codes "namespace" ∷ []) service)

-- A Service reaches the pods of a Deployment: by their labels, in the namespace, at their port.
abbrev pub Reaches : Json → Json → Type 0
Reaches service deployment =
    (selects (fields_at (codes "spec" ∷ codes "selector" ∷ []) service) (pod_labels deployment)
      ≡ true)
    × (and_then (port_of service) (member (codes "targetPort"))
        ≡ and_then (and_then (container_of deployment) (first_at (codes "ports" ∷ [])))
            (member (codes "containerPort")))
    × (nested (codes "metadata" ∷ codes "namespace" ∷ []) service
        ≡ nested (codes "metadata" ∷ codes "namespace" ∷ []) deployment)
