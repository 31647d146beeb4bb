-- ===== src/Reconciler/Examples.antt =====
-- A tick that finds the Job of a deployment missing.
use vercel_clone.Prelude.{◌≡◌, refl, false, none, some, [], ◌∷◌}
use vercel_clone.Prelude.Text.{codes}
use vercel_clone.Prelude.Result.{ok}
use vercel_clone.Store.{building, Deployment}
use vercel_clone.Store.Queue.{requeue_deployment}
use vercel_clone.Reconciler.{
  Cluster, list_in_flight_deployments, verdict, reconcile, reconcile_rows, settle, of_phase,
}

abbrev empty_cluster : Cluster
empty_cluster = record {
  job_phase = λ _. ok none;
  build_pod = λ _. none;
  is_running = λ _. false;
  delete_fails = λ _. false;
  age = λ _ _. [];
}

abbrev orphan : Deployment
orphan = record {
  id = codes "d1";
  project_id = codes "p1";
  commit_sha = codes "c0ffee";
  ref = codes "refs/heads/main";
  status = building;
  url = none;
  image = none;
  triggered_by = codes "webhook";
  delivery_id = none;
  commit_message = none;
  is_preview = false;
  pr_number = none;
  created_at = 10;
  build_started_at = some 20;
  build_ended_at = none;
  ready_at = none;
  error = none;
}

reconcile_sample :
    reconcile empty_cluster 200 (orphan ∷ [])
    ≡ (requeue_deployment
        (codes "d1")
        (codes "build job missing from cluster; retrying")
        (orphan ∷ [])).1
unfolding reconcile reconcile_rows settle verdict of_phase list_in_flight_deployments
reconcile_sample = refl
