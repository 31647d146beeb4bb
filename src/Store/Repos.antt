-- ===== src/Store/Repos.antt =====
-- `AddRepos` and `RemoveRepos` (control-plane/store.go): repositories
-- become projects, up to a cap for each owner.
--
-- pgx runs a batch as one transaction: its first error undoes all of it.
pub mod Cap
pub mod Kept
pub mod Orphans
use vercel_clone.Prelude.{
  ℕ, suc, ◌≡◌, refl, Bool, true, false, not, ◌&&◌, ◌||◌, Option, none, some, List, [], ◌∷◌, ◌++◌,
  ltb, leb, nat_eq, ◌==◌, is_some, if◌then◌else◌,
}
use vercel_clone.Prelude.Text.{Text, codes, text_key}
use vercel_clone.Prelude.Result.{Result, ok, err, ◌>>=◌}
use vercel_clone.Prelude.Table.{find, count, update}
use vercel_clone.Slug.{slugify}
use vercel_clone.Store.{Project, Installation, InstallationRepo, Database, null_if_empty}
use vercel_clone.Store.Queue.{installation_of}
use vercel_clone.Store.Enqueue.{find_project, owner_is}

pub record RepoRow : Type 0 where
  pub id : ℕ
  pub full_name : Text
  pub private : Bool
  pub default_branch : Text

abbrev pub unique_violation : Text
unique_violation = codes "SQLSTATE 23505"

-- COALESCE(NULLIF(branch, ''), 'main').
abbrev pub or_main : Text → Text
or_main branch = if branch == [] then codes "main" else branch

-- SELECT COUNT(*) FROM projects WHERE owner_user_id = $1.
abbrev pub count_projects : Text → List Project → ℕ
count_projects user = count (λ p. owner_is p.owner_user_id user)

unfoldable pub count_projects_for_user : Text → Database → ℕ
count_projects_for_user user db = if user == [] then 0 else count_projects user db.projects

-- INSERT … ON CONFLICT (installation_id, repo_id) DO UPDATE.
abbrev pub repo_row : ℕ → RepoRow → InstallationRepo
repo_row installation r = record {
  installation_id = installation;
  repo_id = r.id;
  full_name = r.full_name;
  private = r.private;
  default_branch = null_if_empty r.default_branch;
  removed_at = none;
}

abbrev pub is_repo : ℕ → ℕ → InstallationRepo → Bool
is_repo installation repo r = nat_eq r.installation_id installation && nat_eq r.repo_id repo

abbrev pub upsert_repo : ℕ → RepoRow → List InstallationRepo → List InstallationRepo
upsert_repo installation r rs =
    if is_some (find (is_repo installation r.id) rs)
    then update (is_repo installation r.id) (λ _. repo_row installation r) rs
    else rs ++ repo_row installation r ∷ []

abbrev pub new_project : Text → ℕ → ℕ → Text → Text → Option Text → Project
new_project id installation repo full_name branch owner = record {
  id = id;
  installation_id = installation;
  repo_id = repo;
  full_name = full_name;
  slug = slugify full_name;
  production_branch = branch;
  owner_user_id = owner;
  production_deployment_id = none;
  display_name = none;
}

-- The insert's values come from the installation's row: without one there is nothing to insert.
-- A project of the same repository is the conflict that the statement ignores; another project
-- with the same slug violates `projects.slug UNIQUE`.
insert_checked : List Project → Option Project → Project → Result (List Project)
insert_checked ps (some _) p = ok ps
insert_checked ps none p =
    if is_some (find (λ q. q.slug == p.slug) ps) then err unique_violation else ok (ps ++ p ∷ [])

insert_owned : List Project → Project → Option Installation → Result (List Project)
unfolding insert_checked
insert_owned ps p none = ok ps
insert_owned ps p (some i) =
    insert_checked ps (find_project p.installation_id p.repo_id ps)
      (record p { owner_user_id = i.owner_user_id })

unfoldable pub insert_project : List Installation → Project → List Project → Result (List Project)
unfolding insert_owned
insert_project is p ps = insert_owned ps p (installation_of is p.installation_id)

-- The owner of the installation, read only when there is a cap.
abbrev pub capped_owner : ℕ → Option Installation → Option Text
capped_owner cap none = none
capped_owner cap (some i) =
    if ltb 0 cap
    then (elim i.owner_user_id [
      | none ↦ none
      | some owner ↦ if owner == [] then none else some owner
    ])
    else none

-- Whether the loop skips the project of the next repository.
abbrev pub at_cap : ℕ → Option Text → ℕ → Bool
at_cap cap owner existing = is_some owner && leb cap existing

abbrev pub next_existing : Option Text → ℕ → ℕ
next_existing owner existing = if is_some owner then suc existing else existing

module _ (new_id : List Project → Text) (installation : ℕ) (is : List Installation) where
  -- The loop of `AddRepos` and the batch that it queues, one repository at a time.
  add_loop :
      ℕ
      → Option Text
      → ℕ
      → List RepoRow
      → List InstallationRepo
      → List Project
      → Result (List InstallationRepo × List Project)
  add_loop cap owner existing [] rs ps = ok (rs, ps)
  add_loop cap owner existing (r ∷ repos) rs ps =
      let skip = add_loop cap owner existing repos (upsert_repo installation r rs) ps in
      let queue = (do
        ps' ←
            insert_project is
              (new_project (new_id ps) installation r.id r.full_name (or_main r.default_branch)
                none)
              ps
        add_loop cap owner (next_existing owner existing) repos (upsert_repo installation r rs)
            ps') in
      if at_cap cap owner existing then skip else queue

commit_repos :
    Database → Result (List InstallationRepo × List Project) → Result (Unit {0}) × Database
commit_repos db (err e) = (err e, db)
commit_repos db (ok (rs, ps)) = (ok tt, record db { installation_repos = rs; projects = ps })

-- The foreign key of `installation_repos`: without the installation the batch fails as a whole.
with_installation :
    Option Installation
    → Result (List InstallationRepo × List Project)
    → Result (List InstallationRepo × List Project)
with_installation none r = err (codes "foreign_key_violation")
with_installation (some i) r = r

existing_of : Option Text → Database → ℕ
existing_of none db = 0
existing_of (some owner) db = count_projects_for_user owner db

unfoldable pub add_repos :
    (List Project → Text) → ℕ → List RepoRow → ℕ → Database → Result (Unit {0}) × Database
unfolding commit_repos existing_of add_loop with_installation
add_repos new_id installation [] cap db = (ok tt, db)
add_repos new_id installation (r ∷ repos) cap db =
    let found = installation_of db.installations installation in
    let owner = capped_owner cap found in
    commit_repos db (
      with_installation found (
        add_loop new_id installation db.installations cap owner (existing_of owner db) (r ∷ repos)
          db.installation_repos db.projects))

abbrev is_member : List ℕ → ℕ → Bool
is_member [] n = false
is_member (i ∷ is) n = nat_eq i n || is_member is n

unfoldable pub remove_repos : ℕ → ℕ → List ℕ → Database → Database
remove_repos now installation ids db = record db {
  installation_repos =
      update
        (λ r.
          nat_eq r.installation_id installation
          && is_member ids r.repo_id
          && not (is_some r.removed_at))
        (λ r. record r { removed_at = some now }) db.installation_repos;
}
