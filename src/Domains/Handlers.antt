-- ===== src/Domains/Handlers.antt =====
-- The handlers of control-plane/domain_handlers.go, and the routes that they put in the cluster.
--
-- The JSON decoder, the DNS resolver and the Kubernetes API are arguments. The cluster is a table of
-- IngressRoutes, keyed by namespace and name; an API call that fails leaves it as it was.
pub mod Registry
pub mod Verified
pub mod Routes
use vercel_clone.Prelude.{
  ℕ, Bool, true, false, not, ◌&&◌, Option, none, some, List, [], ◌∷◌, ◌++◌, ltb, keep, take, ◌==◌,
  if◌then◌else◌, is_some,
}
use vercel_clone.Prelude.Text.{Text, codes, text_key, trim_space}
use vercel_clone.Prelude.Result.{Result, ok, err}
use vercel_clone.Prelude.Sort.{sort_by}
use vercel_clone.Prelude.Table.{find, delete}
use vercel_clone.Store.{
  Status, ready, Deployment, Project, User, Installation, ProjectDomain, Database,
}
use vercel_clone.Store.Queue.{installation_of}
use vercel_clone.Store.Accounts.{authorise_project}
use vercel_clone.Tenant.{tenant_namespace_for}
use vercel_clone.Builder.Effects.{Route}
use vercel_clone.Builder.{custom_domain_route_name, short}
use vercel_clone.Http.{Answer, done, refused, with_project}
use vercel_clone.Domains.{
  Added, added, already_exists, failed, normalise_hostname, is_hostname, is_platform_host,
  add_project_domain, mark_domain_verified, delete_project_domain, get_project_domain,
  list_project_domains,
}

pub record Site : Type 0 where
  pub db : Database
  pub routes : List Route

-- `domainResponse`, with the times as numbers.
pub record DomainResponse : Type 0 where
  pub hostname : Text
  pub verification_token : Text
  pub verified : Bool
  pub created_at : ℕ
  pub verified_at : Option ℕ
  pub verify_name : Text
  pub verify_value : Text
  pub cname_target : Text

abbrev pub tunnel_target : Text
tunnel_target = codes "3a067db9-77b1-49c9-a3d4-30f86d16c80d.cfargotunnel.com"

abbrev pub verify_name_of : Text → Text
verify_name_of host = codes "_paas-verify." ++ host

abbrev pub dto_for_domain : ProjectDomain → DomainResponse
dto_for_domain d = record {
  hostname = d.hostname;
  verification_token = d.verification_token;
  verified = is_some d.verified_at;
  created_at = d.created_at;
  verified_at = d.verified_at;
  verify_name = verify_name_of d.hostname;
  verify_value = d.verification_token;
  cname_target = tunnel_target;
}

abbrev dtos : List ProjectDomain → List DomainResponse
dtos [] = []
dtos (d ∷ ds) = dto_for_domain d ∷ dtos ds

unfoldable pub handle_list_project_domains :
    Text → Option User → Site → Answer (List DomainResponse) × Site
handle_list_project_domains id u s =
    with_project (authorise_project id u s.db) s
      (λ p. (done (dtos (list_project_domains p.id s.db)), s))

-- COALESCE(i.account_login, ''), by the left join with the installation.
abbrev pub login_of : Option Installation → Text
login_of none = []
login_of (some i) = i.account_login

abbrev pub tenant_login : Project → Database → Text
tenant_login p db = login_of (installation_of db.installations p.installation_id)

-- The routes under one key.
abbrev pub is_route : Text → Text → Route → Bool
is_route ns name r = r.namespace == ns && r.name == name

abbrev pub apply_route : Route → List Route → List Route
apply_route r rs = delete (is_route r.namespace r.name) rs ++ r ∷ []

-- The five latest deployments of the project.
abbrev pub later : Deployment → Deployment → Bool
later a b = ltb b.created_at a.created_at

abbrev pub of_project : Text → Deployment → Bool
of_project project d = d.project_id == project

abbrev pub latest_five : Text → Database → List Deployment
latest_five project db = take 5 (sort_by later (keep (of_project project) db.deployments))

abbrev pub is_ready : Status → Bool
is_ready ready = true
is_ready _ = false

-- The commit of the first one that is ready.
abbrev pub target_sha : List Deployment → Text
target_sha [] = []
target_sha (d ∷ ds) = let rest = target_sha ds in if is_ready d.status then d.commit_sha else rest

abbrev pub domain_route : Project → Text → Text → Text → Route
domain_route p login host sha = record {
  namespace = tenant_namespace_for login;
  name = custom_domain_route_name host;
  host = host;
  service = p.slug ++ codes "-" ++ short sha;
}

-- `reachable` says whether the Kubernetes API takes the call. An error changes nothing.
unfoldable pub publish_domain_route : Bool → Project → Text → Site → Site
publish_domain_route reachable p host s =
    if tenant_login p s.db == []
    then s
    else if target_sha (latest_five p.id s.db) == []
    then s
    else if reachable
    then record s {
      routes =
          apply_route
            (domain_route p (tenant_login p s.db) host (target_sha (latest_five p.id s.db)))
            s.routes;
    }
    else s

unfoldable pub delete_domain_route : Bool → Project → Text → Site → Site
delete_domain_route reachable p host s =
    if tenant_login p s.db == []
    then s
    else if reachable
    then record s {
      routes =
          delete
            (is_route (tenant_namespace_for (tenant_login p s.db)) (custom_domain_route_name host))
            s.routes;
    }
    else s

answer_added : Site → Added × Database → Answer DomainResponse × Site
answer_added s (added d, db) = (done (dto_for_domain d), record s { db = db })
answer_added s (already_exists, db) = (refused 409, s)
answer_added s (failed, db) = (refused 500, s)

add_host : Text → Text → ℕ → Site → Project → Answer DomainResponse × Site
add_host host token now s p =
    if not (is_hostname host)
    then (refused 400, s)
    else if is_platform_host host
    then (refused 400, s)
    else answer_added s (add_project_domain p.id host token now s.db)

add_decoded : Option Text → Text → ℕ → Site → Project → Answer DomainResponse × Site
add_decoded none token now s p = (refused 400, s)
add_decoded (some hostname) token now s p = add_host (normalise_hostname hostname) token now s p

-- The body is the decoded hostname.
unfoldable pub handle_add_project_domain :
    Text → Option User → Option Text → Text → ℕ → Site → Answer DomainResponse × Site
unfolding add_decoded add_host answer_added
handle_add_project_domain id u body token now s =
    with_project (authorise_project id u s.db) s (add_decoded body token now s)

-- The records that the resolver finds under a name, or its error.
abbrev pub Resolver : Type 0
Resolver = Text → Result (List Text)

matches_any : Text → List Text → Bool
matches_any expected [] = false
matches_any expected (r ∷ rs) = if trim_space r == expected then true else matches_any expected rs

matches : Text → Result (List Text) → Bool
matches expected (err _) = false
matches expected (ok records) = matches_any expected records

unfoldable pub check_verification_txt : Resolver → Text → Text → Bool
unfolding matches matches_any
check_verification_txt lookup host expected = matches expected (lookup (verify_name_of host))

-- The state after the verification; no row is left when it was deleted in the meantime.
answer_verified : Site → Option ProjectDomain → Answer (Option DomainResponse) × Site
answer_verified s none = (done none, s)
answer_verified s (some d) = (done (some (dto_for_domain d)), s)

pub verify_row :
    Resolver
    → Bool
    → Text
    → ℕ
    → Site
    → Project
    → Option ProjectDomain
    → Answer (Option DomainResponse) × Site
verify_row lookup reachable host now s p none = (refused 404, s)
verify_row lookup reachable host now s p (some d) =
    if is_some d.verified_at
    then (done (some (dto_for_domain d)), publish_domain_route reachable p host s)
    else if not (check_verification_txt lookup host d.verification_token)
    then (refused 400, s)
    else (let marked = record s { db = (mark_domain_verified p.id host now s.db).1 } in
        let published = publish_domain_route reachable p host marked in
        answer_verified published (get_project_domain p.id host published.db))

unfoldable pub handle_verify_project_domain :
    Resolver → Bool → Text → Option User → Text → ℕ → Site → Answer (Option DomainResponse) × Site
unfolding verify_row answer_verified
handle_verify_project_domain lookup reachable id u hostname now s =
    with_project (authorise_project id u s.db) s (λ p.
      verify_row lookup reachable (normalise_hostname hostname) now s p
        (get_project_domain p.id (normalise_hostname hostname) s.db))

answer_deleted : Site → Bool × Database → Answer (Unit {0}) × Site
answer_deleted s (false, db) = (refused 404, record s { db = db })
answer_deleted s (true, db) = (done tt, record s { db = db })

delete_host : Bool → Text → Site → Project → Answer (Unit {0}) × Site
delete_host reachable host s p =
    if host == []
    then (refused 400, s)
    else (let unrouted = delete_domain_route reachable p host s in
        answer_deleted unrouted (delete_project_domain p.id host unrouted.db))

unfoldable pub handle_delete_project_domain :
    Bool → Text → Option User → Text → Site → Answer (Unit {0}) × Site
unfolding delete_host answer_deleted
handle_delete_project_domain reachable id u hostname s =
    with_project (authorise_project id u s.db) s
      (delete_host reachable (normalise_hostname hostname) s)
