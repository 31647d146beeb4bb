-- ===== src/Store/Examples/Owners.antt =====
-- Enqueueing, repositories and ownership on the database of the examples.
use vercel_clone.Prelude.{◌≡◌, ◌≤◌, refl, false, none, some, List, [], ◌∷◌, All, arith}
use Prim.Native.Nat.{max}
use vercel_clone.Prelude.Text.{Text, codes}
use vercel_clone.Prelude.Result.{ok}
use vercel_clone.Store.{Deployment, Project, Installation, InstallationRepo, User, Database}
use vercel_clone.Store.Enqueue.{Push, no_options, deduped_result, enqueue_deployment}
use vercel_clone.Store.Enqueue.Dedupe.{enqueue_twice}
use vercel_clone.Store.Repos.{RepoRow, add_repos, count_projects}
use vercel_clone.Store.Repos.Cap.{add_repos-cap}
use vercel_clone.Store.Repos.Orphans.{orphan_of, reconcile_orphan_repos}
use vercel_clone.Store.Repos.Orphans.Covered.{
  Extends, HasProject, reconcile_orphan_repos-HasProject,
}
use vercel_clone.Store.Accounts.{allowed, get_project_for_owner, authorise_project}
use vercel_clone.Store.Examples.{database, site, installation}

abbrev push : Push
push = record {
  installation_id = 7;
  repo_id = 70;
  commit_sha = codes "f00d";
  ref = codes "refs/heads/next";
  delivery_id = codes "g1";
  triggered_by = codes "webhook";
  options = no_options;
}

abbrev main_push : Push
main_push = record push { ref = codes "refs/heads/main" }

enqueue_twice_example :
    enqueue_deployment (codes "e2") 60 push (enqueue_deployment (codes "e1") 50 push database).1
    ≡ (some (deduped_result site), (enqueue_deployment (codes "e1") 50 push database).1)
enqueue_twice_example = enqueue_twice (codes "e1") (codes "e2") 50 60 push database site refl refl

abbrev blog : RepoRow
blog = record { id = 71; full_name = codes "ada/blog"; private = false; default_branch = [] }

abbrev known : RepoRow
known = record { id = 70; full_name = codes "ada/site"; private = false; default_branch = [] }

abbrev fresh : List Project → Text
fresh ps = codes "p2"

added :
    add_repos fresh 7 (blog ∷ []) 3 database ≡ (ok tt, (add_repos fresh 7 (blog ∷ []) 3 database).1)
unfolding add_repos vercel_clone.Store.Repos.count_projects_for_user
    vercel_clone.Store.Repos.insert_project vercel_clone.Slug.slugify
added = refl

add_repos-cap_example :
    count_projects (codes "u1") (add_repos fresh 7 (blog ∷ []) 3 database).1.projects
    ≤ max (count_projects (codes "u1") database.projects) 3
add_repos-cap_example =
    add_repos-cap fresh 7 3 blog [] database (add_repos fresh 7 (blog ∷ []) 3 database).1
      installation (codes "u1") (omega arith) refl refl (ground arith) added

-- A repository that the cap kept out.
abbrev orphan : InstallationRepo
orphan = record {
  installation_id = 7;
  repo_id = 71;
  full_name = codes "ada/blog";
  private = false;
  default_branch = none;
  removed_at = none;
}

abbrev with_orphan : Database
with_orphan = record database { installation_repos = orphan ∷ [] }

reconciled : (reconcile_orphan_repos fresh with_orphan).0 ≡ ok (orphan_of orphan ∷ [])
unfolding reconcile_orphan_repos vercel_clone.Store.Repos.Orphans.insert_orphans
    vercel_clone.Store.Repos.insert_project vercel_clone.Slug.slugify
reconciled = refl

reconcile_orphan_repos-HasProject_example :
    Extends with_orphan.projects (reconcile_orphan_repos fresh with_orphan).1.projects
    × All
        (HasProject with_orphan.installations (reconcile_orphan_repos fresh with_orphan).1.projects)
        with_orphan.installation_repos
    × (reconcile_orphan_repos fresh (reconcile_orphan_repos fresh with_orphan).1
        ≡ (ok [], (reconcile_orphan_repos fresh with_orphan).1))
reconcile_orphan_repos-HasProject_example =
    reconcile_orphan_repos-HasProject fresh with_orphan (orphan_of orphan ∷ []) reconciled

abbrev pub project_id : Text
project_id = codes "01234567-89ab-cdef-0123-456789abcdef"

abbrev pub with_uuid : Database
with_uuid = record database { projects = record site { id = project_id } ∷ [] }

abbrev pub ada : User
ada = record {
  id = codes "u1";
  github_user_id = 77;
  github_login = codes "ada";
  email = none;
  avatar_url = none;
  oauth_token = none;
  oauth_expires_at = none;
  last_login_at = none;
  is_admin = false;
}

let_through :
    authorise_project project_id (some ada) with_uuid ≡ allowed (record site { id = project_id })
unfolding authorise_project get_project_for_owner
let_through = refl

abbrev unclaimed : Database
unclaimed = record database { installations = record installation { owner_user_id = none } ∷ [] }
