-- ===== src/Builder/Confined.antt =====
-- What the builder touches for one deployment: the build objects of that deployment in paas-system,
-- its own rows, and the namespace of its tenant.
use vercel_clone.Prelude.{◌≡◌, ◌⊎◌, Bool, true, false, ◌==◌}
use vercel_clone.Prelude.Text.{codes, text_key}
use vercel_clone.Store.Queue.{ClaimedDeployment}
use vercel_clone.Tenant.{tenant_namespace_for}
use vercel_clone.Builder.Effects.{Effect}
use vercel_clone.Builder

abbrev pub Confined : ClaimedDeployment → Effect → Type 0
Confined c (Effect.post_status _ _ _) = Unit
Confined c (Effect.installation_token i) = i ≡ c.installation_id
Confined c (Effect.apply_secret ns name) =
    (ns ≡ tenant_namespace_for c.tenant_login)
    ⊎ ((ns ≡ Builder.build_namespace) × (name ≡ Builder.git_secret_name c))
Confined c (Effect.get_job_phase ns name) =
    (ns ≡ Builder.build_namespace) × (name ≡ Builder.build_job_name c.deployment_id)
Confined c (Effect.delete_job ns name) =
    (ns ≡ Builder.build_namespace) × (name ≡ Builder.build_job_name c.deployment_id)
Confined c (Effect.create_job j) = j ≡ Builder.build_job_input c
Confined c (Effect.mark_deploying id _) = id ≡ c.deployment_id
Confined c (Effect.apply_object kind ns name) =
    (ns ≡ tenant_namespace_for c.tenant_login)
    ⊎ ((kind ≡ codes "Namespace") × (name ≡ tenant_namespace_for c.tenant_login))
Confined c (Effect.get_secret_data ns _) = ns ≡ Builder.build_namespace
Confined c (Effect.get_project_database id) = id ≡ c.project_id
Confined c (Effect.map_project_env id) = id ≡ c.project_id
Confined c (Effect.apply_deployment i) = i.namespace ≡ tenant_namespace_for c.tenant_login
Confined c (Effect.apply_service ns _) = ns ≡ tenant_namespace_for c.tenant_login
Confined c (Effect.apply_ingress_route r) = r.namespace ≡ tenant_namespace_for c.tenant_login
Confined c (Effect.mark_ready id _) = id ≡ c.deployment_id
Confined c (Effect.set_production_deployment p id) = (p ≡ c.project_id) × (id ≡ c.deployment_id)
Confined c (Effect.list_verified_domains id) = id ≡ c.project_id
Confined c (Effect.delete_all_by_label ns _ _) = ns ≡ tenant_namespace_for c.tenant_login
Confined c (Effect.mark_failed_if_in_flight id _) = id ≡ c.deployment_id

-- What changes where the project's production host leads, or removes what it led to.
abbrev pub cuts_over : ClaimedDeployment → Effect → Bool
cuts_over c (Effect.apply_ingress_route r) = r.host == Builder.production_host c
cuts_over c (Effect.set_production_deployment _ _) = true
cuts_over c (Effect.delete_all_by_label _ _ _) = true
cuts_over c _ = false

abbrev pub Private : ClaimedDeployment → Effect → Type 0
Private c e = Confined c e × (cuts_over c e ≡ false)
