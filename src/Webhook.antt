-- ===== src/Webhook.antt =====
-- The receiver of GitHub's webhooks (control-plane/main.go and control-plane/preview_webhook.go,
-- with `RecordDelivery` of control-plane/store.go).
--
-- JSON, HMAC-SHA256, hexadecimal and the GitHub API are parameters, in a record `Outside`; so are
-- the ids that Postgres gives to rows.
pub mod Payloads
pub mod Deliveries
pub mod Previews
mod Kept
mod Examples
use vercel_clone.Prelude.{
  ℕ, Bool, true, false, not, ◌||◌, Option, none, some, List, [], ◌∷◌, ◌++◌, map, ltb, ◌==◌, length,
  drop, if◌then◌else◌,
}
use vercel_clone.Prelude.Text.{Text, codes, text_key, has_prefix, trim_space}
use vercel_clone.Prelude.Result.{Result, ok, err}
use vercel_clone.Store.{Database}
use vercel_clone.Store.Enqueue.{Push, no_options, enqueue_deployment, webhook}
use vercel_clone.Store.Repos.{add_repos, remove_repos}
use vercel_clone.Store.Accounts.{
  InstallationUpsert, upsert_installation, suspend_installation, delete_installation,
  link_installation_by_github_account, set_project_owner_by_installation,
}
pub use Payloads.{
  Envelope, GithubRepo, PullRequest, Outside, Request, Response, bad_request, invalid_signature,
  internal_error, accepted, max_body_bytes, zero_sha, to_repo_row, is_ignored, is_one_of,
}

abbrev is_recorded : Text → List Text → Bool
is_recorded d [] = false
is_recorded d (e ∷ ds) = e == d || is_recorded d ds

-- Whether the delivery is new.
unfoldable pub record_delivery : Text → Bool → Database → Result Bool × Database
record_delivery delivery is_json db =
    if delivery == []
    then (err (codes "empty delivery id"), db)
    else if not is_json
    then (err (codes "payload is not valid JSON"), db)
    else if is_recorded delivery db.webhook_deliveries
    then (ok false, db)
    else (ok true, record db { webhook_deliveries = delivery ∷ db.webhook_deliveries })

module _ (out : Outside) (now : ℕ) (max_projects : ℕ) where
  matches_mac : Text → Text → Option Text → Bool
  matches_mac secret body none = false
  matches_mac secret body (some wanted) = out.mac secret body == wanted

  unfoldable pub verify_signature : Text → Text → Text → Bool
  unfolding matches_mac
  verify_signature secret header body =
      if has_prefix header (codes "sha256=")
      then matches_mac secret body (out.hex_decode (drop 7 header))
      else false

  enqueue : Push → Database → Database
  enqueue q db = (enqueue_deployment (out.deployment_id db.deployments) now q db).1

  unfoldable pub handle_push : Envelope → Text → Text → Database → Database
  unfolding enqueue
  handle_push e body delivery db =
      if is_ignored e
      then db
      else enqueue
          (record {
            installation_id = e.installation_id;
            repo_id = e.repository_id;
            commit_sha = e.after;
            ref = e.ref;
            delivery_id = delivery;
            triggered_by = webhook;
            options = record no_options { commit_message = out.push_commit_message body };
          })
          db

  abbrev pub preview_push : Envelope → Text → PullRequest → Push
  preview_push e delivery p = record {
    installation_id = e.installation_id;
    repo_id = e.repository_id;
    commit_sha = p.head_sha;
    ref = codes "refs/pull/" ++ out.decimal p.number ++ codes "/head";
    delivery_id = delivery;
    triggered_by = codes "preview";
    options = record {
      commit_message =
          if p.title == []
          then codes "PR #" ++ out.decimal p.number ++ codes " preview"
          else p.title;
      is_preview = true;
      pr_number = p.number;
    };
  }

  enqueue_preview : Envelope → Text → Result PullRequest → Database → Database
  enqueue_preview e delivery (err _) db = db
  enqueue_preview e delivery (ok p) db =
      if p.head_sha == [] then db else enqueue (preview_push e delivery p) db

  unfoldable pub handle_pull_request : Envelope → Text → Text → Database → Database
  unfolding enqueue_preview enqueue
  handle_pull_request e body delivery db =
      if is_one_of e.action (codes "opened" ∷ codes "synchronize" ∷ codes "reopened" ∷ [])
      then enqueue_preview e delivery (out.pull_request body) db
      else db

  abbrev branch_of : GithubRepo → Text
  branch_of r =
      if trim_space r.default_branch == [] then codes "main" else trim_space r.default_branch

  deploy_sha : ℕ → GithubRepo → Option Text → Database → Database
  deploy_sha installation r none db = db
  deploy_sha installation r (some sha) db =
      enqueue
        (record {
          installation_id = installation;
          repo_id = r.id;
          commit_sha = sha;
          ref = codes "refs/heads/" ++ branch_of r;
          delivery_id = [];
          triggered_by = codes "install";
          options = no_options;
        })
        db

  try_auto_deploy_repo : ℕ → GithubRepo → Database → Database
  try_auto_deploy_repo installation r db =
      deploy_sha installation r (out.branch_sha installation r.full_name (branch_of r)) db

  auto_deploy : ℕ → List GithubRepo → Database → Database
  auto_deploy installation [] db = db
  auto_deploy installation (r ∷ rs) db =
      auto_deploy installation rs (try_auto_deploy_repo installation r db)

  -- AddRepos, the owners, and the first builds; false if AddRepos failed.
  after_adding : ℕ → List GithubRepo → Result (Unit {0}) × Database → Bool × Database
  after_adding installation rs (err _, db) = (false, db)
  after_adding installation rs (ok _, db) =
      (true, auto_deploy installation rs (set_project_owner_by_installation installation db))

  add_and_deploy : ℕ → List GithubRepo → Database → Bool × Database
  add_and_deploy installation [] db = (true, db)
  add_and_deploy installation (r ∷ rs) db =
      after_adding installation (r ∷ rs)
        (add_repos out.project_id installation (map to_repo_row (r ∷ rs)) max_projects db)

  abbrev upsert_of : Envelope → InstallationUpsert
  upsert_of e = record {
    id = e.installation_id;
    account_login = e.account_login;
    account_id = e.account_id;
    target_type = e.target_type;
  }

  unfoldable pub handle_installation : Envelope → Text → Database → Database
  unfolding add_and_deploy after_adding auto_deploy try_auto_deploy_repo deploy_sha enqueue
  handle_installation e body db =
      if is_one_of e.action
        (codes "created" ∷ codes "new_permissions_accepted" ∷ codes "unsuspend" ∷ [])
      then (add_and_deploy e.installation_id (out.repositories body) (
          link_installation_by_github_account e.installation_id e.account_id
            (upsert_installation (upsert_of e) db))).1
      else if e.action == codes "suspend"
      then suspend_installation now e.installation_id true db
      else if e.action == codes "deleted"
      then delete_installation e.installation_id db
      else db

  remove_listed : ℕ → List GithubRepo → Bool × Database → Database
  remove_listed installation rs (false, db) = db
  remove_listed installation [] (true, db) = db
  remove_listed installation (r ∷ rs) (true, db) =
      remove_repos now installation (map (λ g. g.id) (r ∷ rs)) db

  change_repos : ℕ → Result (List GithubRepo × List GithubRepo) → Database → Database
  change_repos installation (err _) db = db
  change_repos installation (ok (added, removed)) db =
      remove_listed installation removed (add_and_deploy installation added db)

  unfoldable pub handle_installation_repos : Envelope → Text → Database → Database
  unfolding change_repos remove_listed add_and_deploy after_adding auto_deploy try_auto_deploy_repo
      deploy_sha enqueue
  handle_installation_repos e body db =
      change_repos e.installation_id (out.repository_changes body) db

  unfoldable pub dispatch : Text → Text → Envelope → Text → Database → Database
  dispatch event body e delivery db =
      if event == codes "installation"
      then handle_installation e body db
      else if event == codes "installation_repositories"
      then handle_installation_repos e body db
      else if event == codes "push"
      then handle_push e body delivery db
      else if event == codes "pull_request"
      then handle_pull_request e body delivery db
      else db

  -- An error of `dispatch` is logged: GitHub is told that the delivery was accepted.
  answer : Request → Result Bool × Database → Response × Database
  answer r (err _, db) = (internal_error, db)
  answer r (ok false, db) = (accepted, db)
  answer r (ok true, db) = (accepted, dispatch r.event r.body (out.envelope r.body) r.delivery db)

  unfoldable pub handle_github_webhook : Text → Request → Database → Response × Database
  unfolding answer
  handle_github_webhook secret r db =
      if ltb max_body_bytes (length r.body)
      then (bad_request, db)
      else if not (verify_signature secret r.signature r.body)
      then (invalid_signature, db)
      else answer r (record_delivery r.delivery (out.is_json r.body) db)
