-- ===== src/Projects/Deletion.antt =====
-- The deletion of a project (control-plane/project_delete.go) with its statements of
-- control-plane/store.go. The calls that delete objects of the cluster are listed in order; how each
-- of them ends is an argument. The table project_databases is not modelled.
pub mod Cascade
use vercel_clone.Prelude.{
  ℕ, Bool, true, false, not, ◌&&◌, Option, none, some, List, [], ◌∷◌, ◌++◌, map, keep, take, ◌==◌,
  is_some, nat_eq, if◌then◌else◌,
}
use vercel_clone.Prelude.Text.{Text, codes, text_key}
use vercel_clone.Prelude.Table.{find, count, delete}
use vercel_clone.Store.{Deployment, Project, User, Database}
use vercel_clone.Store.Queue.{installation_of}
use vercel_clone.Store.Enqueue.{owned_by}
use vercel_clone.Store.Accounts.{authorise_project}
use vercel_clone.Tenant.{tenant_namespace_for}
use vercel_clone.Builder.{build_namespace, build_job_name}
use vercel_clone.Http.{Answer, done, refused, with_project}
use vercel_clone.Domains.{list_verified_domains_for_project}
use vercel_clone.Domains.Handlers.{login_of}
use vercel_clone.Promote.{scope_of}

pub data Removal : Type 0 where
  all_by_label : Text → Text → Text → Removal
  secret : Text → Text → Removal

pub record ProjectDeleteMeta : Type 0 where
  pub id : Text
  pub slug : Text
  pub tenant_login : Text

pub record Deleted : Type 0 where
  pub slug : Text
  pub warnings : List Text

meta_of : Database → Option Project → Option ProjectDeleteMeta
meta_of db none = none
meta_of db (some p) = some (record {
  id = p.id;
  slug = p.slug;
  tenant_login = login_of (installation_of db.installations p.installation_id);
})

unfoldable pub get_project_delete_meta : Text → Text → Database → Option ProjectDeleteMeta
unfolding meta_of
get_project_delete_meta id user db =
    meta_of db (find (λ p. p.id == id && owned_by user p) db.projects)

abbrev pub list_deployment_ids_for_project : Text → Database → List Text
list_deployment_ids_for_project id db =
    map (λ d. d.id) (keep (λ d. d.project_id == id) db.deployments)

-- `ON DELETE SET NULL` of the pointers to deployments.
clear_pointer : List Deployment → Option Text → Option Text
clear_pointer ds none = none
clear_pointer ds (some id) = if is_some (find (λ d. d.id == id) ds) then some id else none

-- The row with the rows that refer to it, and whether there was one.
unfoldable pub delete_project : Text → Database → Bool × Database
unfolding clear_pointer
delete_project id db =
    let ds = delete (λ d. d.project_id == id) db.deployments in
    (
      not (nat_eq (count (λ p. p.id == id) db.projects) 0),
      record db {
        deployments = ds;
        projects =
            map {A = Project}
              (λ p. record p {
                production_deployment_id = clear_pointer ds p.production_deployment_id;
              })
              (delete (λ p. p.id == id) db.projects);
        project_env_vars = delete (λ v. v.project_id == id) db.project_env_vars;
        project_domains = delete (λ d. d.project_id == id) db.project_domains;
      },
    )

abbrev pub selector : ProjectDeleteMeta → Text
selector m = codes "paas.project=" ++ m.slug

tenant_removals : ProjectDeleteMeta → List Removal
tenant_removals m =
    if m.tenant_login == []
    then []
    else (let ns = tenant_namespace_for m.tenant_login in
        all_by_label ns (codes "deployments") (selector m)
        ∷ all_by_label ns (codes "services") (selector m)
        ∷ all_by_label ns (codes "ingressroutes") (selector m)
        ∷ all_by_label ns (codes "secrets") (selector m)
        ∷ secret ns (codes "paas-env-" ++ m.slug)
        ∷ secret ns (codes "paas-db-" ++ take 50 m.slug)
        ∷ [])

git_secret : Text → Removal
git_secret id = secret build_namespace (build_job_name id ++ codes "-git")

unfoldable pub removals : ProjectDeleteMeta → Database → List Removal
unfolding tenant_removals git_secret
removals m db =
    tenant_removals m
    ++ (all_by_label build_namespace (codes "jobs") (selector m)
        ∷ map git_secret (list_deployment_ids_for_project m.id db))

abbrev pub or_skip : Option Text → List Text → List Text
or_skip none ws = ws
or_skip (some e) ws = e ∷ ws

-- The errors of the calls that fail.
abbrev pub warnings_of : (Removal → Option Text) → List Removal → List Text
warnings_of fails [] = []
warnings_of fails (r ∷ rs) = or_skip (fails r) (warnings_of fails rs)

-- Its three bytes in UTF-8.
em_dash : Text
em_dash = 226 ∷ 128 ∷ 148 ∷ []

domain_warning : Text → Text
unfolding em_dash
domain_warning host =
    codes "Custom domain \""
    ++ host
    ++ codes "\" may still route via cloudflared "
    ++ em_dash
    ++ codes " remove from tunnel config and DNS if no longer needed"

-- The warnings and the calls.
unfoldable pub teardown_project_resources :
    (Removal → Option Text) → ProjectDeleteMeta → Database → List Text × List Removal
unfolding domain_warning
teardown_project_resources fails m db = (
  warnings_of fails (removals m db)
      ++ map domain_warning (list_verified_domains_for_project m.id db),
  removals m db,
)

-- `deleteScope`.
abbrev pub delete_scope : Option User → Text
delete_scope none = []
delete_scope (some u) = scope_of u

answer_deleted :
    Database
    → ProjectDeleteMeta
    → List Text × List Removal
    → Option (Bool × Database)
    → Answer Deleted × (Database × List Removal)
answer_deleted before m (warnings, calls) none = (refused 500, (before, calls))
answer_deleted before m (warnings, calls) (some (false, db)) = (refused 404, (db, calls))
answer_deleted before m (warnings, calls) (some (true, db)) =
    (done (record { slug = m.slug; warnings = warnings }), (db, calls))

delete_found :
    (Removal → Option Text)
    → Bool
    → Database
    → Option ProjectDeleteMeta
    → Answer Deleted × (Database × List Removal)
unfolding answer_deleted
delete_found fails broken db none = (refused 404, (db, []))
delete_found fails broken db (some m) =
    answer_deleted db m (teardown_project_resources fails m db)
      (if broken then none else some (delete_project m.id db))

-- `broken`: the statement that deletes the row fails. The teardown has run then.
unfoldable pub handle_delete_project :
    (Removal → Option Text)
    → Bool
    → Text
    → Option User
    → Database
    → Answer Deleted × (Database × List Removal)
unfolding delete_found
handle_delete_project fails broken id u db =
    with_project (authorise_project id u db) (db, [])
      (λ p. delete_found fails broken db (get_project_delete_meta p.id (delete_scope u) db))
