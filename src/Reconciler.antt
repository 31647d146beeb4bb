-- ===== src/Reconciler.antt =====
-- The build reconciler (control-plane/build_reconciler.go): deployments whose Job is missing or
-- stuck go back to the queue.
--
-- What the cluster answers is a parameter. A time is a number of seconds. The query for the rows and
-- the requeue do not fail here.
pub mod Rows
mod Examples
use vercel_clone.Prelude.{
  ℕ, ◌+◌, Bool, true, false, not, ◌||◌, Option, none, some, List, [], ◌∷◌, ◌++◌, ltb, leb, ◌==◌,
  if◌then◌else◌, keep,
}
use vercel_clone.Prelude.Text.{Text, codes, text_key}
use vercel_clone.Prelude.Result.{Result, ok, err}
use vercel_clone.Store.{Status, queued, building, deploying, ready, failed, Deployment}
use vercel_clone.Store.Queue.{in_flight, started_at, requeue_deployment}
use vercel_clone.Builder.Effects.{JobPhase}
use vercel_clone.Builder.{build_job_name, has_failed}

abbrev pub stuck_kaniko_threshold : ℕ
stuck_kaniko_threshold = 480

abbrev pub missing_job_grace : ℕ
missing_job_grace = 90

pub record Cluster : Type 0 where
  -- getJobPhase, by the Job's name.
  pub job_phase : Text → Result (Option JobPhase)
  -- findBuildPod, by the deployment's id: none for an error or no pod.
  pub build_pod : Text → Option Text
  -- containerStatus: whether the pod's kaniko container is known and running.
  pub is_running : Text → Bool
  -- Whether deleting the Job fails.
  pub delete_fails : Text → Bool
  -- The text of an age, for the reason.
  pub age : ℕ → ℕ → Text

-- Nothing is done about a row, or it is requeued for a reason.
pub data Verdict : Type 0 where
  leave : Verdict
  requeue : Text → Verdict

abbrev pub is_building : Status → Bool
is_building building = true
is_building _ = false

-- ORDER BY COALESCE(build_started_at, created_at).
abbrev insert_by_start : Deployment → List Deployment → List Deployment
insert_by_start d [] = d ∷ []
insert_by_start d (e ∷ es) =
    let later = insert_by_start d es in
    if leb (started_at d) (started_at e) then d ∷ e ∷ es else e ∷ later

abbrev sort_by_start : List Deployment → List Deployment
sort_by_start [] = []
sort_by_start (d ∷ ds) = insert_by_start d (sort_by_start ds)

unfoldable pub list_in_flight_deployments : List Deployment → List Deployment
list_in_flight_deployments ds = sort_by_start (keep (λ d. in_flight d.status) ds)

module _ (cluster : Cluster) (now : ℕ) where
  stalled : Deployment → Verdict
  stalled d =
      if cluster.delete_fails (build_job_name d.id)
      then leave
      else requeue
          (codes "kaniko stalled after " ++ cluster.age (started_at d) now ++ codes "; retrying")

  of_pod : Deployment → Option Text → Verdict
  of_pod d none = leave
  of_pod d (some pod) = if cluster.is_running pod then stalled d else leave

  of_phase : Deployment → Result (Option JobPhase) → Verdict
  of_phase d (err _) = leave
  of_phase d (ok none) =
      if ltb (missing_job_grace + started_at d) now
      then requeue (codes "build job missing from cluster; retrying")
      else leave
  of_phase d (ok (some p)) =
      if ltb 0 p.succeeded || has_failed p
      then leave
      else if ltb now (stuck_kaniko_threshold + started_at d) || ltb p.active 1
      then leave
      else of_pod d (cluster.build_pod d.id)

  unfoldable pub verdict : Deployment → Verdict
  unfolding of_phase of_pod stalled
  verdict d =
      if is_building d.status then of_phase d (cluster.job_phase (build_job_name d.id)) else leave

  settle : Deployment → Verdict → List Deployment → List Deployment
  settle d leave ds = ds
  settle d (requeue reason) ds = (requeue_deployment d.id reason ds).1

  reconcile_rows : List Deployment → List Deployment → List Deployment
  reconcile_rows [] ds = ds
  reconcile_rows (d ∷ rows) ds = reconcile_rows rows (settle d (verdict d) ds)

  unfoldable pub reconcile : List Deployment → List Deployment
  unfolding reconcile_rows settle
  reconcile ds = reconcile_rows (list_in_flight_deployments ds) ds
