-- ===== src/Manifests/Security.antt =====
-- The pods of tenants under Pod Security.
use vercel_clone.Prelude.{ℕ, ◌≡◌, refl, true, false, none, some, [], ◌∷◌}
use vercel_clone.Prelude.Text.{Text, codes, text_key}
use vercel_clone.Prelude.Json.{Json, bool, text, array, member, nested}
use vercel_clone.Builder.Effects.{DeployInput}
use vercel_clone.Manifests.{is_text, labels_of}
use vercel_clone.Manifests.Tenant.{tenant_namespace_manifest}
use vercel_clone.Manifests.App.{deployment_manifest, app_pod, app_container}
use vercel_clone.Prelude.Json.{get_field}

-- What the profile `restricted` asks of a pod and of its one container.
abbrev pub IsRestricted : Json → Json → Type 0
IsRestricted pod container =
    (nested (codes "containers" ∷ []) pod ≡ some (array (container ∷ [])))
    × (nested (codes "securityContext" ∷ codes "runAsNonRoot" ∷ []) pod ≡ some (bool true))
    × (nested (codes "securityContext" ∷ codes "seccompProfile" ∷ codes "type" ∷ []) pod
        ≡ some (text "RuntimeDefault"))
    × (nested (codes "securityContext" ∷ codes "allowPrivilegeEscalation" ∷ []) container
        ≡ some (bool false))
    × (nested (codes "securityContext" ∷ codes "capabilities" ∷ codes "drop" ∷ []) container
        ≡ some (array (text "ALL" ∷ [])))
    × (nested (codes "securityContext" ∷ codes "capabilities" ∷ codes "add" ∷ []) container ≡ none)
    × (member (codes "volumes") pod ≡ none)
    × (member (codes "hostNetwork") pod ≡ none)
    × (member (codes "hostPID") pod ≡ none)
    × (member (codes "hostIPC") pod ≡ none)
    × (member (codes "initContainers") pod ≡ none)

-- The namespace of a tenant enforces the profile `restricted`, and the pods of every deployment, with or
-- without a database and variables, meet it.
pub app_pod-IsRestricted :
    (name login : Text) (i : DeployInput) (port : ℕ)
    → (is_text (codes "restricted") (
          get_field
            (codes "pod-security.kubernetes.io/enforce")
            (labels_of (tenant_namespace_manifest name login)))
        ≡ true)
      × (nested (codes "spec" ∷ codes "template" ∷ codes "spec" ∷ []) (deployment_manifest i port)
          ≡ some (app_pod i port))
      × IsRestricted (app_pod i port) (app_container i port)
app_pod-IsRestricted name login i port =
    (refl, refl, (refl, refl, refl, refl, refl, refl, refl, refl, refl, refl, refl))
