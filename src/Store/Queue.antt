-- ===== src/Store/Queue.antt =====
-- The life of a deployment row (control-plane/store.go, lines 920 to 1140).
--
--   queued → building → deploying → ready, with building and deploying also going to failed or back
--   to queued.
pub mod Rows
pub mod Claim
pub mod Oldest
pub mod Diagram
pub mod Recovery
use vercel_clone.Prelude.{
  ◌||◌, nat_eq, ltb, ℕ, ◌-◌, ◌+◌, ◌≡◌, refl, Bool, true, false, not, ◌&&◌, Option, none, some, List,
  [], ◌∷◌, leb, ◌==◌, if◌then◌else◌,
}
use vercel_clone.Prelude.Text.{Text, codes, text_key}
use vercel_clone.Prelude.Result.{Result, ok, err}
use vercel_clone.Prelude.Table.{update, find, count}
use vercel_clone.Store.{
  Status, queued, building, deploying, ready, failed, Deployment, Project, Installation, Database,
}

abbrev pub is_queued : Status → Bool
is_queued queued = true
is_queued _ = false

-- status IN ('building', 'deploying').
abbrev pub in_flight : Status → Bool
in_flight building = true
in_flight deploying = true
in_flight _ = false

-- COALESCE(build_started_at, created_at).
abbrev pub coalesce : Option ℕ → ℕ → ℕ
coalesce none d = d
coalesce (some t) d = t

abbrev pub started_at : Deployment → ℕ
started_at d = coalesce d.build_started_at d.created_at

-- Which of two rows of one time comes first: ORDER BY created_at leaves it open.
abbrev pub Tie : Type 0
Tie = Deployment → Deployment → Bool

abbrev pub precedes : Tie → Deployment → Deployment → Bool
precedes first d e = ltb d.created_at e.created_at || nat_eq d.created_at e.created_at && first d e

abbrev pub older : Tie → Deployment → Option Deployment → Option Deployment
older first d none = some d
older first d (some e) = if precedes first d e then some d else some e

-- ORDER BY created_at LIMIT 1.
abbrev pub oldest_queued : Tie → List Deployment → Option Deployment
oldest_queued first [] = none
oldest_queued first (d ∷ ds) =
    let rest = oldest_queued first ds in if is_queued d.status then older first d rest else rest

-- What `ClaimNextQueued` hands to the builder.
pub record ClaimedDeployment : Type 0 where
  pub deployment_id : Text
  pub project_id : Text
  pub slug : Text
  pub repo_full_name : Text
  pub installation_id : ℕ
  pub commit_sha : Text
  pub ref : Text
  pub production_branch : Text
  pub tenant_login : Text

abbrev pub project_of : List Project → Text → Option Project
project_of ps id = find (λ p. p.id == id) ps

abbrev pub installation_of : List Installation → ℕ → Option Installation
installation_of is id = find (λ i. nat_eq i.id id) is

abbrev pub start_build : ℕ → Deployment → Deployment
start_build now d = record d { status = building; build_started_at = some now }

abbrev pub null_login : Text
null_login = codes "cannot scan NULL into *string"

abbrev pub claimed_row : Deployment → Project → Installation → ClaimedDeployment
claimed_row d p i = record {
  deployment_id = d.id;
  project_id = d.project_id;
  slug = p.slug;
  repo_full_name = p.full_name;
  installation_id = p.installation_id;
  commit_sha = d.commit_sha;
  ref = d.ref;
  production_branch = p.production_branch;
  tenant_login = i.account_login;
}

abbrev pub begin_build : ℕ → Deployment → Database → Database
begin_build now d db = record db {
  deployments = update (λ e. e.id == d.id) (start_build now) db.deployments;
}

-- The subquery for `account_login` is NULL when the installation's row is gone. Scanning NULL into
-- a Go string is an error, and the deferred Rollback undoes the UPDATE.
claim_scan :
    Database
    → ℕ
    → Deployment
    → Project
    → Option Installation
    → Result (Option ClaimedDeployment) × Database
claim_scan db now d p none = (err null_login, db)
claim_scan db now d p (some i) = (ok (some (claimed_row d p i)), begin_build now d db)

-- The UPDATE joins the project: a row without one is not updated, and no row comes back.
claim_join :
    Database → ℕ → Deployment → Option Project → Result (Option ClaimedDeployment) × Database
unfolding claim_scan
claim_join db now d none = (ok none, db)
claim_join db now d (some p) =
    claim_scan db now d p (installation_of db.installations p.installation_id)

pub claim_oldest : Database → ℕ → Option Deployment → Result (Option ClaimedDeployment) × Database
unfolding claim_join
claim_oldest db now none = (ok none, db)
claim_oldest db now (some d) = claim_join db now d (project_of db.projects d.project_id)

unfoldable pub claim_next_queued : Tie → ℕ → Database → Result (Option ClaimedDeployment) × Database
unfolding claim_oldest
claim_next_queued first now db = claim_oldest db now (oldest_queued first db.deployments)

-- An UPDATE of the row with an id.
abbrev pub with_id : Text → Deployment → Bool
with_id id d = d.id == id

abbrev pub with_id_in_flight : Text → Deployment → Bool
with_id_in_flight id d = d.id == id && in_flight d.status

abbrev pub set_deploying : ℕ → Text → Deployment → Deployment
set_deploying now image d = record d {
  status = deploying;
  build_ended_at = some now;
  image = some image;
}

abbrev pub set_ready : ℕ → Text → Deployment → Deployment
set_ready now url d = record d { status = ready; ready_at = some now; url = some url }

abbrev pub set_failed : ℕ → Text → Deployment → Deployment
set_failed now reason d = record d {
  status = failed;
  build_ended_at = some (coalesce d.build_ended_at now);
  error = some reason;
}

abbrev pub set_queued : Option Text → Deployment → Deployment
set_queued reason d = record d {
  status = queued;
  build_started_at = none;
  build_ended_at = none;
  error = reason;
}

unfoldable pub mark_deploying : ℕ → Text → Text → List Deployment → List Deployment
mark_deploying now id image = update (with_id id) (set_deploying now image)

unfoldable pub mark_ready : ℕ → Text → Text → List Deployment → List Deployment
mark_ready now id url = update (with_id id) (set_ready now url)

unfoldable pub mark_failed : ℕ → Text → Text → List Deployment → List Deployment
mark_failed now id reason = update (with_id id) (set_failed now reason)

unfoldable pub mark_failed_if_in_flight : ℕ → Text → Text → List Deployment → List Deployment
mark_failed_if_in_flight now id reason = update (with_id_in_flight id) (set_failed now reason)

-- The result says whether a row was updated.
unfoldable pub requeue_deployment : Text → Text → List Deployment → Bool × List Deployment
requeue_deployment id reason ds = (
  ltb 0 (count (with_id_in_flight id) ds),
  update (with_id_in_flight id) (set_queued (some reason)) ds,
)

-- … < now() - maxAge, as maxAge + … < now().
abbrev pub is_stale : ℕ → ℕ → Deployment → Bool
is_stale now max_age d = in_flight d.status && ltb (max_age + started_at d) now

unfoldable pub requeue_stale : ℕ → ℕ → List Deployment → ℕ × List Deployment
requeue_stale now max_age ds =
    (count (is_stale now max_age) ds, update (is_stale now max_age) (set_queued none) ds)

unfoldable pub requeue_stuck : List Deployment → ℕ × List Deployment
requeue_stuck ds =
    (count (λ d. in_flight d.status) ds, update (λ d. in_flight d.status) (set_queued none) ds)
