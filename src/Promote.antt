-- ===== src/Promote.antt =====
-- Promotion of a deployment that is built (control-plane/promote_handlers.go), with the lookups of
-- control-plane/store.go that it makes.
--
-- The Kubernetes API says of each route whether it takes it; a route that it refuses changes nothing.
pub mod Alias
mod Examples
use vercel_clone.Prelude.{
  ℕ, Bool, true, false, not, ◌&&◌, ◌||◌, Option, none, some, List, [], ◌∷◌, ◌++◌, nat_eq, ◌==◌,
  if◌then◌else◌,
}
use vercel_clone.Prelude.Text.{Text, codes, text_key}
use vercel_clone.Prelude.Table.{find}
use vercel_clone.Store.{Status, ready, Deployment, Project, Installation, User, Database}
use vercel_clone.Store.Queue.{project_of, installation_of}
use vercel_clone.Store.Enqueue.{owned_by}
use vercel_clone.Store.Accounts.{is_uuid}
use vercel_clone.Tenant.{tenant_namespace_for}
use vercel_clone.Builder.Effects.{Route}
use vercel_clone.Builder.{custom_domain_route_name, short, tenant_host_zone, set_production}
use vercel_clone.Http.{Answer, done, refused}
use vercel_clone.Domains.{list_verified_domains_for_project}
use vercel_clone.Domains.Handlers.{Site, apply_route, is_ready, login_of}

pub record Promoted : Type 0 where
  pub deployment_id : Text
  pub project_id : Text
  pub slug : Text
  pub commit_sha : Text
  pub host : Text
  pub url : Text
  pub custom_domains : List Text

-- The join of a deployment with its project, filtered by owner; an empty user skips the filter.
joined : Text → Deployment → Option Project → Option (Deployment × Project)
joined user d none = none
joined user d (some p) = if owned_by user p then some (d, p) else none

find_joined : Text → Database → Option Deployment → Option (Deployment × Project)
find_joined user db none = none
find_joined user db (some d) = joined user d (project_of db.projects d.project_id)

unfoldable pub get_deployment_for_user : Text → Text → Database → Option (Deployment × Project)
unfolding find_joined joined
get_deployment_for_user id user db = find_joined user db (find (λ d. d.id == id) db.deployments)

-- The inner join with the installation: empty without one.
login_for : Database → Option (Deployment × Project) → Text
login_for db none = []
login_for db (some (_, p)) = login_of (installation_of db.installations p.installation_id)

unfoldable pub get_deployment_tenant_login : Text → Text → Database → Text
unfolding login_for
get_deployment_tenant_login id user db = login_for db (get_deployment_for_user id user db)

abbrev pub service_name : Deployment → Project → Text
service_name d p = p.slug ++ codes "-" ++ short d.commit_sha

abbrev pub prod_route_name : Project → Text
prod_route_name p = codes "prod-" ++ p.slug

abbrev pub prod_host : Project → Text
prod_host p = p.slug ++ codes "." ++ tenant_host_zone

abbrev pub prod_route : Text → Deployment → Project → Route
prod_route ns d p = record {
  namespace = ns;
  name = prod_route_name p;
  host = prod_host p;
  service = service_name d p;
}

abbrev pub domain_alias : Text → Deployment → Project → Text → Route
domain_alias ns d p host = record {
  namespace = ns;
  name = custom_domain_route_name host;
  host = host;
  service = service_name d p;
}

-- The loop over the verified domains: those that are applied, and the routes.
abbrev pub promote_domains :
    (Route → Bool) → (Text → Route) → List Text → List Route → List Text × List Route
promote_domains accepts route [] rs = ([], rs)
promote_domains accepts route (h ∷ hs) rs =
    let (applied, after) = promote_domains accepts route hs (apply_route (route h) rs) in
    let skipped = promote_domains accepts route hs rs in
    if accepts (route h) then (h ∷ applied, after) else skipped

-- How the calls end whose errors are logged or answered: each route in the API, the statement that
-- moves the pointer, and the list of the domains.
pub record Outcomes : Type 0 where
  pub accepts : Route → Bool
  pub records : Bool
  pub lists : Bool

promote_to : Outcomes → Text → Deployment → Project → Site → Answer Promoted × Site
promote_to o ns d p s =
    if not (o.accepts (prod_route ns d p))
    then (refused 500, s)
    else (let db = if o.records then set_production p.id d.id s.db else s.db in
        let (hosts, routes) =
          promote_domains o.accepts (domain_alias ns d p)
            (if o.lists then list_verified_domains_for_project p.id db else [])
            (apply_route (prod_route ns d p) s.routes) in
        (
          done (record {
            deployment_id = d.id;
            project_id = p.id;
            slug = p.slug;
            commit_sha = d.commit_sha;
            host = prod_host p;
            url = codes "https://" ++ prod_host p;
            custom_domains = hosts;
          }),
          record { db = db; routes = routes },
        ))

promote_ready : Outcomes → Text → Deployment → Project → Site → Answer Promoted × Site
promote_ready o login d p s =
    if login == [] then (refused 400, s) else promote_to o (tenant_namespace_for login) d p s

promote_found :
    Outcomes → Text → Text → Site → Option (Deployment × Project) → Answer Promoted × Site
promote_found o id user s none = (refused 404, s)
promote_found o id user s (some (d, p)) =
    if not (is_ready d.status)
    then (refused 400, s)
    else promote_ready o (get_deployment_tenant_login id user s.db) d p s

-- Nobody's filter for an admin.
abbrev pub scope_of : User → Text
scope_of u = if u.is_admin then [] else u.id

promote_as : Outcomes → Text → Site → Option User → Answer Promoted × Site
promote_as o id s none = (refused 401, s)
promote_as o id s (some u) =
    promote_found o id (scope_of u) s (get_deployment_for_user id (scope_of u) s.db)

unfoldable pub handle_promote_deployment :
    Outcomes → Text → Option User → Site → Answer Promoted × Site
unfolding promote_as promote_found promote_ready promote_to
handle_promote_deployment o id u s =
    if not (is_uuid id) then (refused 400, s) else promote_as o id s u
