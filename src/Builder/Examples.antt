-- ===== src/Builder/Examples.antt =====
-- The builder's theorems at concrete runs: one that succeeds, and one whose context ends before the
-- build does.
use vercel_clone.Prelude.{◌≡◌, refl, false, none, some, List, [], ◌∷◌, All}
use vercel_clone.Prelude.Text.{codes}
use vercel_clone.Prelude.Result.{ok, err}
use vercel_clone.Store.{building, Deployment}
use vercel_clone.Store.Queue.{ClaimedDeployment}
use vercel_clone.Builder.Effects.{Effect, Env, World, JobPhase, Poll}
use vercel_clone.Builder.Confined.{Confined, cuts_over}
use vercel_clone.Builder.Runs.{run_one-Confined, run_one-failed}
use vercel_clone.Builder.Ready.{IsBuilt, IsReady, run_one-IsReady}
use vercel_clone.Builder

abbrev at_work : JobPhase
at_work = record { active = 1; succeeded = 0; failed = 0; failure_msg = [] }

abbrev finished : JobPhase
finished = record { active = 0; succeeded = 1; failed = 0; failure_msg = [] }

abbrev good_polls : List Poll
good_polls =
    record { time = 0; phase = ok none }
    ∷ record { time = 3; phase = ok (some at_work) }
    ∷ record { time = 6; phase = ok (some finished) }
    ∷ []

abbrev env_with : List Poll → Env
env_with ps = record {
  fails = λ _ _. none;
  now = λ _. 0;
  phase = λ _. none;
  database_secret = λ _. none;
  docker_config = λ _. some [];
  domains = λ _. codes "a.io" ∷ [];
  polls = λ _. ps;
  first = λ _ _. false;
  decimal = λ _. [];
}

abbrev good_env : Env
good_env = env_with good_polls

abbrev short_env : Env
short_env = env_with []

abbrev claim : ClaimedDeployment
claim = record {
  deployment_id = codes "d1";
  project_id = codes "p1";
  slug = codes "ada-site";
  repo_full_name = codes "ada/site";
  installation_id = 7;
  commit_sha = codes "abcdef123";
  ref = codes "refs/heads/main";
  production_branch = codes "main";
  tenant_login = codes "ada";
}

abbrev preview_claim : ClaimedDeployment
preview_claim = record claim { ref = codes "refs/heads/next" }

abbrev row : Deployment
row = record {
  id = codes "d1";
  project_id = codes "p1";
  commit_sha = codes "abcdef123";
  ref = codes "refs/heads/main";
  status = building;
  url = none;
  image = none;
  triggered_by = codes "webhook";
  delivery_id = none;
  commit_message = none;
  is_preview = false;
  pr_number = none;
  created_at = 1;
  build_started_at = some 2;
  build_ended_at = none;
  ready_at = none;
  error = none;
}

abbrev start : World
start = record {
  db = record {
    deployments = row ∷ [];
    projects = [];
    installations = [];
    installation_repos = [];
    users = [];
    webhook_deliveries = [];
    sessions = [];
    project_env_vars = [];
    project_domains = [];
    waitlist_signups = [];
  };
  trace = [];
}

good_run : (Builder.run_one good_env claim start).0 ≡ ok tt
unfolding Builder.run_one Builder.build_image Builder.post_status Builder.ensure_build_job
    Builder.make_job Builder.create_job Builder.deploy Builder.require_tenant Builder.ensure_tenant
    Builder.apply_policies Builder.copy_pull_secret Builder.mirror_registry_pull_secret
    Builder.apply_tenant_objects Builder.apply_env Builder.publish Builder.promote
    Builder.move_pointer Builder.apply_listed Builder.apply_domains Builder.old_selector
    Builder.Effects.◌>>=◌ Builder.Effects.quietly Builder.Effects.wrap Builder.Effects.call
    Builder.Effects.write
good_run = refl

short_run : (Builder.run_one short_env claim start).0 ≡ err (codes "context deadline exceeded")
unfolding Builder.run_one Builder.build_image Builder.post_status Builder.ensure_build_job
    Builder.make_job Builder.create_job Builder.Effects.◌>>=◌ Builder.Effects.quietly
    Builder.Effects.wrap Builder.Effects.call
short_run = refl

run_one-Confined_example : All (Confined claim) (Builder.run_one good_env claim start).1.trace
run_one-Confined_example = run_one-Confined good_env claim start tt

run_one-failed_example :
    All (λ e. cuts_over claim e ≡ false) (Builder.run_one short_env claim start).1.trace
run_one-failed_example =
    run_one-failed short_env claim start (codes "context deadline exceeded") tt short_run

run_one-IsReady_example :
    IsBuilt good_env claim
    × IsReady good_env claim (row ∷ []) (Builder.run_one good_env claim start).1
run_one-IsReady_example = run_one-IsReady good_env claim start good_run
