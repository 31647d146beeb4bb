-- ===== src/Store/Enqueue.antt =====
-- `EnqueueDeployment` and `EnqueueRedeploy` (control-plane/store.go): how a row enters the queue.
-- The id and the time that Postgres gives a new row are arguments.
pub mod Dedupe
pub mod Fifo
pub mod Kept
use vercel_clone.Prelude.{
  ℕ, ◌≡◌, refl, Bool, true, false, not, ◌&&◌, ◌||◌, Option, none, some, List, [], ◌∷◌, ◌++◌, ltb,
  nat_eq, ◌==◌, is_some, if◌then◌else◌,
}
use vercel_clone.Prelude.Text.{Text, codes, text_key}
use vercel_clone.Prelude.Table.{find}
use vercel_clone.Store.{Status, queued, Deployment, Project, Database, null_if_empty}

-- A pull request number that is not positive is 0 here.
pub record EnqueueOptions : Type 0 where
  pub commit_message : Text
  pub is_preview : Bool
  pub pr_number : ℕ

pub record DeploymentEnqueued : Type 0 where
  pub project_id : Text
  pub deployment_id : Text
  pub slug : Text
  pub deduped : Bool

abbrev pub no_options : EnqueueOptions
no_options = record { commit_message = []; is_preview = false; pr_number = 0 }

-- What a caller of `EnqueueDeployment` passes.
pub record Push : Type 0 where
  pub installation_id : ℕ
  pub repo_id : ℕ
  pub commit_sha : Text
  pub ref : Text
  pub delivery_id : Text
  pub triggered_by : Text
  pub options : EnqueueOptions

abbrev pub webhook : Text
webhook = codes "webhook"

abbrev pub trigger_of : Push → Text
trigger_of q = if q.triggered_by == [] then webhook else q.triggered_by

abbrev pub find_project : ℕ → ℕ → List Project → Option Project
find_project installation repo =
    find (λ p. nat_eq p.installation_id installation && nat_eq p.repo_id repo)

abbrev pub prod_ref : Project → Text
prod_ref p = if p.production_branch == [] then [] else codes "refs/heads/" ++ p.production_branch

abbrev pub built : Text → Text → Deployment → Bool
built project sha d = d.project_id == project && d.commit_sha == sha

-- Only a webhook's push to another branch than production is looked up.
abbrev pub is_dedupable : Push → Project → Bool
is_dedupable q p = trigger_of q == webhook && not (q.ref == prod_ref p)

abbrev pub is_duplicate : Push → Project → List Deployment → Bool
is_duplicate q p ds = is_dedupable q p && is_some (find (built p.id q.commit_sha) ds)

abbrev pub new_row : Text → ℕ → Push → Project → Deployment
new_row id now q p = record {
  id = id;
  project_id = p.id;
  commit_sha = q.commit_sha;
  ref = q.ref;
  status = queued;
  url = none;
  image = none;
  triggered_by = trigger_of q;
  delivery_id = null_if_empty q.delivery_id;
  commit_message = null_if_empty q.options.commit_message;
  is_preview = q.options.is_preview;
  pr_number = if ltb 0 q.options.pr_number then some q.options.pr_number else none;
  created_at = now;
  build_started_at = none;
  build_ended_at = none;
  ready_at = none;
  error = none;
}

abbrev pub insert_row : Deployment → Database → Database
insert_row d db = record db { deployments = db.deployments ++ d ∷ [] }

abbrev pub deduped_result : Project → DeploymentEnqueued
deduped_result p = record { project_id = p.id; deployment_id = []; slug = p.slug; deduped = true }

abbrev pub queued_result : Text → Project → DeploymentEnqueued
queued_result id p = record {
  project_id = p.id;
  deployment_id = id;
  slug = p.slug;
  deduped = false;
}

-- The part behind the lookup of the project.
enqueue_for : Text → ℕ → Push → Database → Option Project → Option DeploymentEnqueued × Database
enqueue_for id now q db none = (none, db)
enqueue_for id now q db (some p) =
    if is_duplicate q p db.deployments
    then (some (deduped_result p), db)
    else (some (queued_result id p), insert_row (new_row id now q p) db)

unfoldable pub enqueue_deployment :
    Text → ℕ → Push → Database → Option DeploymentEnqueued × Database
unfolding enqueue_for
enqueue_deployment id now q db =
    enqueue_for id now q db (find_project q.installation_id q.repo_id db.projects)

-- `owner_user_id = $2`, which a NULL owner fails; an empty user id skips the test.
abbrev pub owner_is : Option Text → Text → Bool
owner_is none user = false
owner_is (some owner) user = owner == user

abbrev pub owned_by : Text → Project → Bool
owned_by user p = user == [] || owner_is p.owner_user_id user

redeploy_row : Text → ℕ → Deployment → Deployment
redeploy_row id now d = record {
  id = id;
  project_id = d.project_id;
  commit_sha = d.commit_sha;
  ref = d.ref;
  status = queued;
  url = none;
  image = none;
  triggered_by = codes "redeploy";
  delivery_id = none;
  commit_message = none;
  is_preview = false;
  pr_number = none;
  created_at = now;
  build_started_at = none;
  build_ended_at = none;
  ready_at = none;
  error = none;
}

-- The join of the source row with its project, filtered by owner.
redeploy_from :
    Text → ℕ → Text → Database → Deployment → Option Project → Option (Text × Text) × Database
unfolding redeploy_row
redeploy_from id now user db d none = (none, db)
redeploy_from id now user db d (some p) =
    if owned_by user p
    then (some (id, p.slug), insert_row (redeploy_row id now d) db)
    else (none, db)

redeploy_source : Text → ℕ → Text → Database → Option Deployment → Option (Text × Text) × Database
unfolding redeploy_from
redeploy_source id now user db none = (none, db)
redeploy_source id now user db (some d) =
    redeploy_from id now user db d (find (λ p. p.id == d.project_id) db.projects)

-- The new row's id and the project's slug, or nothing.
unfoldable pub enqueue_redeploy :
    Text → ℕ → Text → Text → Database → Option (Text × Text) × Database
unfolding redeploy_source
enqueue_redeploy id now source user db =
    redeploy_source id now user db (find (λ d. d.id == source) db.deployments)
