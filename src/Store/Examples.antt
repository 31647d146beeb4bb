-- ===== src/Store/Examples.antt =====
-- The store's theorems on a small database.
pub mod Owners
use mathlib.Core.List.{Memᴰ}
use vercel_clone.Prelude.{
  ℕ, suc, ◌≡◌, ◌≢◌, ◌⊎◌, ◌≤◌, inl, inr, refl, Bool, true, false, Option, none, some, List, [], ◌∷◌,
  ◌++◌, All, arith, length,
}
use vercel_clone.Prelude.Text.{Text, codes}
use vercel_clone.Prelude.Result.{Result, ok, err}
use vercel_clone.Store.{
  Status, queued, building, deploying, ready, failed, Deployment, Project, Installation, User,
  Database,
}
use vercel_clone.Store.Queue.{
  ClaimedDeployment, Tie, in_flight, claim_next_queued, claimed_row, begin_build, null_login,
  requeue_stale, requeue_stuck, requeue_deployment, mark_failed_if_in_flight,
}
use vercel_clone.Store.Queue.Rows.{
  Statement, insert, claim, deploy, finish, IsValid, run_statement, run_statements,
  run_statements-IsValid,
}
use vercel_clone.Store.Queue.Diagram.{Follows, run_statement-Follows}
use vercel_clone.Store.Queue.Oldest.{IsOldest}
use vercel_clone.Store.Queue.Claim.{
  Claims, claim_sound, claim_once, claim_at, claim_complete, claim_wedged,
}
use vercel_clone.Store.Queue.Recovery.{
  requeue_stale_twice, requeue_stuck-clears, requeue-mark_failed,
}

abbrev deployment : Text → ℕ → Status → Option ℕ → Deployment
deployment id created s started = record {
  id = id;
  project_id = codes "p1";
  commit_sha = codes "c0ffee";
  ref = codes "refs/heads/next";
  status = s;
  url = none;
  image = none;
  triggered_by = codes "webhook";
  delivery_id = none;
  commit_message = none;
  is_preview = false;
  pr_number = none;
  created_at = created;
  build_started_at = started;
  build_ended_at = none;
  ready_at = none;
  error = none;
}

abbrev pub first : Deployment
first = deployment (codes "d1") 10 queued none

abbrev second : Deployment
second = deployment (codes "d2") 11 queued none

abbrev running : Deployment
running = deployment (codes "d3") 12 building (some 20)

abbrev pub site : Project
site = record {
  id = codes "p1";
  installation_id = 7;
  repo_id = 70;
  full_name = codes "ada/site";
  slug = codes "ada-site";
  production_branch = codes "main";
  owner_user_id = some (codes "u1");
  production_deployment_id = none;
  display_name = none;
}

abbrev pub installation : Installation
installation = record {
  id = 7;
  account_login = codes "ada";
  account_id = 77;
  target_type = codes "User";
  suspended_at = none;
  owner_user_id = some (codes "u1");
}

abbrev pub database : Database
database = record {
  deployments = first ∷ second ∷ running ∷ [];
  projects = site ∷ [];
  installations = installation ∷ [];
  installation_repos = [];
  users = [];
  webhook_deliveries = [];
  sessions = [];
  project_env_vars = [];
  project_domains = [];
  waitlist_signups = [];
}

abbrev once : Database
once = begin_build 30 first database

abbrev orphaned : Database
orphaned = record database { installations = [] }

abbrev pub by_table : Tie
by_table d e = true

pub at_once :
    claim_next_queued by_table 30 database ≡ (ok (some (claimed_row first site installation)), once)
at_once = claim_at by_table 30 database first site installation refl refl refl

claim_complete_example :
    (c : ClaimedDeployment) × (after : Database) × (claim_next_queued by_table 30 database
      ≡ (ok (some c), after))
claim_complete_example = claim_complete by_table 30 database first (Memᴰ.head refl) refl (
  (λ q. (site, installation, refl, refl)),
  ((λ q. (site, installation, refl, refl)), ((λ q. (site, installation, refl, refl)), tt)),
)

again :
    claim_next_queued by_table 40 once
    ≡ (ok (some (claimed_row second site installation)), begin_build 40 second once)
again = claim_at by_table 40 once second site installation refl refl refl

claim_sound_example :
    (d : Deployment) × Memᴰ d database.deployments
    × (d.status ≡ queued)
    × All (IsOldest d) database.deployments
    × Claims 30 database d (claimed_row first site installation) once
claim_sound_example =
    claim_sound by_table 30 database (claimed_row first site installation) once at_once

abbrev life : List Statement
life =
    insert first
    ∷ claim 30 (codes "d1")
    ∷ deploy 40 (codes "d1") (codes "image")
    ∷ finish 50 (codes "d1") (codes "url")
    ∷ []

run_statements-IsValid_example : All IsValid (run_statements life [])
run_statements-IsValid_example =
    run_statements-IsValid life [] ((refl, refl), (tt, (tt, (tt, tt)))) tt

run_statement-Follows_example :
    Follows (running ∷ []) (run_statement (deploy 40 (codes "d3") (codes "image")) (running ∷ []))
run_statement-Follows_example =
    run_statement-Follows (deploy 40 (codes "d3") (codes "image")) (running ∷ []) ((λ _. refl), tt)
