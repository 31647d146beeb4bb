-- ===== src/Projects/Examples.antt =====
-- A deployment from the dashboard whose branch GitHub does not know, changes of the settings, and a
-- deletion.
use vercel_clone.Prelude.{false, none, ◌≡◌, refl, ℕ, some, ◌==◌, if◌then◌else◌}
use vercel_clone.Prelude.Text.{Text, codes, text_key}
use vercel_clone.Prelude.Result.{Result, ok, err}
use vercel_clone.Store.Examples.Owners.{project_id, with_uuid, ada}
use vercel_clone.Store.Accounts.{is_uuid, authorise_project, get_project_for_owner}
use vercel_clone.Store.Enqueue.{enqueue_deployment}
use vercel_clone.Http.{done, refused}
use vercel_clone.Projects.{
  handle_deploy_now, resolve_head, update_project_production_branch, handle_patch_project,
  patch_name, patch_branch, update_project_display_name,
}
use vercel_clone.Projects.Deletion.{handle_delete_project}
use vercel_clone.Projects.Deletion.Cascade.{Deletes, handle_delete_project-Deletes}

-- The repository has the branch `master` alone.
abbrev fetch_branch : ℕ → Text → Text → Result Text
fetch_branch installation repo branch =
    if branch == codes "master" then ok (codes "cafe") else err (codes "fetch branch: HTTP 404")

abbrev fetch_default : ℕ → Text → Result Text
fetch_default installation repo = ok (codes "master")

master_deployed :
    (handle_deploy_now fetch_branch fetch_default (codes "d9") 7 project_id (some ada) with_uuid).0
    ≡ done
        (record { deployment_id = codes "d9"; commit_sha = codes "cafe"; branch = codes "master" })
unfolding handle_deploy_now is_uuid resolve_head update_project_production_branch enqueue_deployment
master_deployed = refl

-- The name is changed, although the request is refused for its branch.
name_changed :
    handle_patch_project project_id
      (some ada)
      (some (record { display_name = some (codes "Blog"); production_branch = some (codes " ") }))
      with_uuid
    ≡ (refused 400, update_project_display_name project_id (codes "Blog") with_uuid)
unfolding handle_patch_project is_uuid patch_name patch_branch authorise_project
    get_project_for_owner
name_changed = refl

handle_delete_project-Deletes_example :
    Deletes false project_id
      (some ada)
      with_uuid
      (handle_delete_project (λ _. none) false project_id (some ada) with_uuid)
handle_delete_project-Deletes_example =
    handle_delete_project-Deletes (λ _. none) false project_id (some ada) with_uuid
