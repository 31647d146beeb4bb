-- ===== src/Projects.antt =====
-- The handlers on a user's projects: settings (control-plane/project_handlers.go), redeployment
-- (control-plane/redeploy_handlers.go) and deployment of the branch's head
-- (control-plane/deploy_handlers.go), with their statements of control-plane/store.go.
--
-- The GitHub client is two arguments: the commit of a branch, and the default branch of a
-- repository. Id and time of a new row are arguments, too.
pub mod Heads
pub mod Deletion
mod Examples
use vercel_clone.Prelude.{
  ℕ, Bool, true, false, not, ◌&&◌, ◌||◌, Option, none, some, List, [], ◌∷◌, ◌++◌, nat_eq, ◌==◌, leb,
  length, is_some, if◌then◌else◌,
}
use vercel_clone.Prelude.Text.{Text, codes, text_key, trim_space, contains}
use vercel_clone.Prelude.Result.{Result, ok, err}
use vercel_clone.Prelude.Table.{find, update}
use vercel_clone.Store.{Project, InstallationRepo, User, Database, null_if_empty}
use vercel_clone.Store.Enqueue.{
  Push, DeploymentEnqueued, no_options, owned_by, enqueue_deployment, enqueue_redeploy,
}
use vercel_clone.Store.Accounts.{is_uuid, authorise_project}
use vercel_clone.Http.{Answer, done, refused, with_project}
use vercel_clone.Promote.{scope_of}

abbrev pub get_project_for_deploy : Text → Text → Database → Option Project
get_project_for_deploy id user db = find (λ p. p.id == id && owned_by user p) db.projects

abbrev has_id : Text → Project → Bool
has_id id p = p.id == id

-- The repositories of the projects that the first half of the statement returns.
abbrev is_repo_of : Text → List Project → InstallationRepo → Bool
is_repo_of id [] r = false
is_repo_of id (p ∷ ps) r =
    p.id == id && nat_eq r.installation_id p.installation_id && nat_eq r.repo_id p.repo_id
    || is_repo_of id ps r

unfoldable pub update_project_production_branch : Text → Text → Database → Database
update_project_production_branch id branch db = record db {
  projects = update (has_id id) (λ p. record p { production_branch = branch }) db.projects;
  installation_repos =
      update (is_repo_of id db.projects) (λ r. record r { default_branch = some branch })
        db.installation_repos;
}

unfoldable pub update_project_display_name : Text → Text → Database → Database
update_project_display_name id name db = record db {
  projects = update (has_id id) (λ p. record p { display_name = null_if_empty name }) db.projects;
}

pub record PatchBody : Type 0 where
  pub display_name : Option Text
  pub production_branch : Option Text

-- The database behind the change, or nothing if the value is refused.
unfoldable pub patch_name : Text → Option Text → Database → Option Database
patch_name id none db = some db
patch_name id (some name) db =
    if leb 81 (length (trim_space name))
    then none
    else some (update_project_display_name id (trim_space name) db)

unfoldable pub patch_branch : Text → Option Text → Database → Option Database
patch_branch id none db = some db
patch_branch id (some branch) db =
    if trim_space branch == []
    then none
    else if leb 256 (length (trim_space branch))
    then none
    else some (update_project_production_branch id (trim_space branch) db)

trimmed : Option Text → Option Text
trimmed none = none
trimmed (some s) = some (trim_space s)

-- The body of the answer repeats what is set.
patched : PatchBody → Database → Option Database → Answer PatchBody × Database
unfolding trimmed
patched b db none = (refused 400, db)
patched b db (some after) = (
  done (record {
    display_name = trimmed b.display_name;
    production_branch = trimmed b.production_branch;
  }),
  after,
)

patch_rest : Text → PatchBody → Database → Option Database → Answer PatchBody × Database
patch_rest id b db none = (refused 400, db)
patch_rest id b db (some named) = patched b named (patch_branch id b.production_branch named)

patch_body : Text → PatchBody → Database → Answer PatchBody × Database
patch_body id b db =
    if not (is_some b.display_name) && not (is_some b.production_branch)
    then (refused 400, db)
    else patch_rest id b db (patch_name id b.display_name db)

-- A body that does not decode is `none`.
patch_decoded : Text → Option PatchBody → Database → Project → Answer PatchBody × Database
patch_decoded id none db p = (refused 400, db)
patch_decoded id (some b) db p = patch_body id b db

unfoldable pub handle_patch_project :
    Text → Option User → Option PatchBody → Database → Answer PatchBody × Database
unfolding patch_decoded patch_body patch_rest patched
handle_patch_project id u body db =
    if not (is_uuid id)
    then (refused 400, db)
    else with_project (authorise_project id u db) db (patch_decoded id body db)

-- The new row's id; without one the source is not found or not the user's.
answer_redeploy : Option (Text × Text) × Database → Answer Text × Database
answer_redeploy (none, db) = (refused 404, db)
answer_redeploy (some (new_id, slug), db) = (done new_id, db)

redeploy_as : Text → ℕ → Text → Option User → Database → Answer Text × Database
unfolding answer_redeploy
redeploy_as new_id now id none db = (refused 401, db)
redeploy_as new_id now id (some u) db =
    answer_redeploy (enqueue_redeploy new_id now id (scope_of u) db)

unfoldable pub handle_redeploy : Text → ℕ → Text → Option User → Database → Answer Text × Database
unfolding redeploy_as
handle_redeploy new_id now id u db =
    if not (is_uuid id) then (refused 400, db) else redeploy_as new_id now id u db

pub record DeployedNow : Type 0 where
  pub deployment_id : Text
  pub commit_sha : Text
  pub branch : Text

abbrev pub branch_of : Project → Text
branch_of p =
    if trim_space p.production_branch == [] then codes "main" else trim_space p.production_branch

abbrev pub manual_push : Project → Text → Text → Push
manual_push p sha branch = record {
  installation_id = p.installation_id;
  repo_id = p.repo_id;
  commit_sha = sha;
  ref = codes "refs/heads/" ++ branch;
  delivery_id = [];
  triggered_by = codes "manual";
  options = no_options;
}

-- `fetchBranchSHA` by installation, repository and branch; `fetchRepoDefaultBranch`.
module _ (fetch_branch_sha : ℕ → Text → Text → Result Text)
    (fetch_default : ℕ → Text → Result Text) where
  -- The other branch that the API names, if it does.
  correction : Text → Result Text → Option Text
  correction branch (err e) = none
  correction branch (ok default) = if default == branch then none else some default

  with_branch : Text → Result Text → Result (Text × Text)
  with_branch branch (err e) = err e
  with_branch branch (ok sha) = ok (sha, branch)

  corrected : Text → Project → Text → Option Text → Database → Result (Text × Text) × Database
  unfolding with_branch
  corrected id p e none db = (err e, db)
  corrected id p e (some branch) db = (
    with_branch branch (fetch_branch_sha p.installation_id p.full_name branch),
    update_project_production_branch id branch db,
  )

  resolved : Text → Project → Text → Result Text → Database → Result (Text × Text) × Database
  unfolding correction corrected
  resolved id p branch (ok sha) db = (ok (sha, branch), db)
  resolved id p branch (err e) db =
      if contains e (codes "HTTP 404")
      then corrected id p e (correction branch (fetch_default p.installation_id p.full_name)) db
      else (err e, db)

  -- Commit and branch of the project's head; a wrong branch is corrected once.
  unfoldable pub resolve_head : Text → Project → Database → Result (Text × Text) × Database
  unfolding resolved
  resolve_head id p db =
      resolved id p (branch_of p) (fetch_branch_sha p.installation_id p.full_name (branch_of p)) db

  answer_queued : Text → Text → Option DeploymentEnqueued × Database → Answer DeployedNow × Database
  answer_queued sha branch (none, db) = (refused 404, db)
  answer_queued sha branch (some r, db) =
      (done (record { deployment_id = r.deployment_id; commit_sha = sha; branch = branch }), db)

  queue_head : Text → ℕ → Project → Result (Text × Text) × Database → Answer DeployedNow × Database
  unfolding answer_queued
  queue_head new_id now p (err e, db) = (refused 422, db)
  queue_head new_id now p (ok (sha, branch), db) =
      answer_queued sha branch (enqueue_deployment new_id now (manual_push p sha branch) db)

  deploy_found : Text → ℕ → Text → Database → Option Project → Answer DeployedNow × Database
  unfolding queue_head
  deploy_found new_id now id db none = (refused 404, db)
  deploy_found new_id now id db (some p) = queue_head new_id now p (resolve_head id p db)

  deploy_as : Text → ℕ → Text → Option User → Database → Answer DeployedNow × Database
  unfolding deploy_found
  deploy_as new_id now id none db = (refused 401, db)
  deploy_as new_id now id (some u) db =
      deploy_found new_id now id db (get_project_for_deploy id (scope_of u) db)

  unfoldable pub handle_deploy_now :
      Text → ℕ → Text → Option User → Database → Answer DeployedNow × Database
  unfolding deploy_as
  handle_deploy_now new_id now id u db =
      if not (is_uuid id) then (refused 400, db) else deploy_as new_id now id u db
