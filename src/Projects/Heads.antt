-- ===== src/Projects/Heads.antt =====
-- Which commit a deployment from the dashboard queues.
use vercel_clone.Prelude.{ℕ, ◌≡◌, some, [], ◌∷◌, ◌++◌}
use vercel_clone.Prelude.Text.{Text, codes, text_key}
use vercel_clone.Prelude.Result.{Result, ok, err}
use vercel_clone.Store.{queued, Deployment, Project, Database}
use vercel_clone.Http.{Answer, done, refused}
use vercel_clone.Projects
use vercel_clone.Projects.{DeployedNow, get_project_for_deploy}

module _ (fetch_branch_sha : ℕ → Text → Text → Result Text)
    (fetch_default : ℕ → Text → Result Text) where
  -- What a deployment from the dashboard leaves: after an error the rows it found, else one more.
  abbrev pub QueuesHead : Text → Text → Database → Answer DeployedNow × Database → Type 0
  QueuesHead id user db (refused _, after) = after.deployments ≡ db.deployments
  QueuesHead id user db (done r, after) =
      (p : Project) × (d : Deployment) × (get_project_for_deploy id user db ≡ some p)
      × (fetch_branch_sha p.installation_id p.full_name r.branch ≡ ok r.commit_sha)
      × (after.deployments ≡ db.deployments ++ d ∷ [])
      × (d.id ≡ r.deployment_id)
      × (d.commit_sha ≡ r.commit_sha)
      × (d.ref ≡ codes "refs/heads/" ++ r.branch)
      × (d.status ≡ queued)

  -- A head is what GitHub says of the branch, and to find it changes no deployment.
  abbrev IsHead : Project → Database → Result (Text × Text) × Database → Type 0
  IsHead p db (err e, after) = after.deployments ≡ db.deployments
  IsHead p db (ok (sha, branch), after) =
      (after.deployments ≡ db.deployments)
      × (fetch_branch_sha p.installation_id p.full_name branch ≡ ok sha)
