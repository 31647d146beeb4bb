-- ===== src/Webhook/Examples.antt =====
-- The receiver's theorems at one push and one pull request.
use vercel_clone.Prelude.{◌≡◌, refl, true, false, none, some, [], ◌∷◌}
use vercel_clone.Prelude.Text.{codes}
use vercel_clone.Prelude.Result.{ok}
use vercel_clone.Store.{Database}
use vercel_clone.Webhook.{Envelope, PullRequest, Outside, Request}
use vercel_clone.Webhook.Deliveries.{handle_twice}
use vercel_clone.Webhook

abbrev pushed : Envelope
pushed = record {
  action = codes "opened";
  ref = codes "refs/heads/main";
  after = codes "c0ffee";
  deleted = false;
  repository_id = 70;
  repository_full_name = codes "ada/site";
  installation_id = 7;
  target_type = codes "User";
  account_login = codes "ada";
  account_id = 77;
}

-- A MAC that is the body itself.
abbrev outside : Outside
outside = record {
  mac = λ _ body. body;
  hex_decode = λ s. some s;
  is_json = λ _. true;
  envelope = λ _. pushed;
  repositories = λ _. [];
  repository_changes = λ _. ok ([], []);
  pull_request = λ _. ok (record { number = 3; title = []; head_sha = codes "c0ffee" });
  push_commit_message = λ _. [];
  branch_sha = λ _ _ _. none;
  decimal = λ _. codes "3";
  project_id = λ _. codes "p2";
  deployment_id = λ _. codes "d2";
}

abbrev database : Database
database = record {
  deployments = [];
  projects =
      record {
        id = codes "p1";
        installation_id = 7;
        repo_id = 70;
        full_name = codes "ada/site";
        slug = codes "ada-site";
        production_branch = codes "main";
        owner_user_id = none;
        production_deployment_id = none;
        display_name = none;
      }
      ∷ [];
  installations = [];
  installation_repos = [];
  users = [];
  webhook_deliveries = [];
  sessions = [];
  project_env_vars = [];
  project_domains = [];
  waitlist_signups = [];
}

abbrev push_request : Request
push_request = record {
  event = codes "push";
  delivery = codes "g1";
  signature = codes "sha256=body";
  body = codes "body";
}

abbrev forged : Request
forged = record push_request { signature = codes "sha256=other" }

forged-unsigned :
    Webhook.verify_signature outside 5 3 (codes "key") forged.signature forged.body ≡ false
unfolding Webhook.verify_signature Webhook.matches_mac
forged-unsigned = refl

handle_twice_example :
    let once = (Webhook.handle_github_webhook outside 5 3 (codes "key") push_request database).1 in
    (Webhook.handle_github_webhook outside 9 3 (codes "key") push_request once).1 ≡ once
handle_twice_example = handle_twice outside 5 9 3 (codes "key") push_request database
