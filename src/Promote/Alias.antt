-- ===== src/Promote/Alias.antt =====
-- Where the production host leads after a promotion.
use vercel_clone.Prelude.{◌≡◌, Bool, some, if◌then◌else◌}
use vercel_clone.Prelude.Text.{Text, text_key}
use vercel_clone.Prelude.Table.{find}
use vercel_clone.Store.{ready, Deployment, Project}
use vercel_clone.Tenant.{tenant_namespace_for}
use vercel_clone.Builder.{set_production}
use vercel_clone.Http.{Answer, done, refused}
use vercel_clone.Domains.Handlers.{Site, is_route}
use vercel_clone.Promote

-- What a promotion leaves.
abbrev pub Promotes : Bool → Text → Text → Site → Answer Promote.Promoted × Site → Type 0
Promotes records id user s (refused _, after) = after ≡ s
Promotes records id user s (done r, after) =
    (d : Deployment) × (p : Project) × (Promote.get_deployment_for_user id user s.db ≡ some (d, p))
    × (d.status ≡ ready)
    × (r.deployment_id ≡ d.id)
    × (after.db ≡ (if records then set_production p.id d.id s.db else s.db))
    × (find
          (is_route (tenant_namespace_for (Promote.get_deployment_tenant_login id user s.db))
            (Promote.prod_route_name p))
          after.routes
        ≡ some (
            Promote.prod_route
              (tenant_namespace_for (Promote.get_deployment_tenant_login id user s.db)) d p))
