-- ===== src/Store/Repos/Orphans.antt =====
-- `ReconcileOrphanRepos` (control-plane/store.go): projects for the repositories that the cap kept out.
--
-- The rows are those of one query. Each insert is a statement of its own, so what is inserted before
-- one that fails stays.
pub mod Covered
use vercel_clone.Prelude.{
  ℕ, Bool, not, ◌&&◌, Option, none, some, List, [], ◌∷◌, ◌++◌, map, keep, ltb, length, ◌==◌,
  is_some, if◌then◌else◌,
}
use vercel_clone.Prelude.Text.{Text, text_key}
use vercel_clone.Prelude.Result.{Result, ok, err}
use vercel_clone.Store.{Project, Installation, InstallationRepo, Database}
use vercel_clone.Store.Enqueue.{find_project}
use vercel_clone.Store.Repos.{or_main, new_project, insert_project}

pub record OrphanRepo : Type 0 where
  pub installation_id : ℕ
  pub repo_id : ℕ
  pub full_name : Text
  pub default_branch : Text

abbrev pub is_orphan : List Project → InstallationRepo → Bool
is_orphan ps r =
    not (is_some r.removed_at) && not (is_some (find_project r.installation_id r.repo_id ps))

-- COALESCE(default_branch, '').
abbrev pub coalesced : Option Text → Text
coalesced none = []
coalesced (some branch) = branch

abbrev pub orphan_of : InstallationRepo → OrphanRepo
orphan_of r = record {
  installation_id = r.installation_id;
  repo_id = r.repo_id;
  full_name = r.full_name;
  default_branch = coalesced r.default_branch;
}

abbrev pub orphan_project : Text → OrphanRepo → Project
orphan_project id o =
    new_project id o.installation_id o.repo_id o.full_name (or_main o.default_branch) none

-- An insert that adds a row counts its repository as created.
abbrev pub counted : List Project → List Project → OrphanRepo → List OrphanRepo → List OrphanRepo
counted ps ps' o created = if ltb (length ps) (length ps') then created ++ o ∷ [] else created

abbrev pub Created : Type 0
Created = Result (List OrphanRepo) × List Project

-- The first error ends the loop.
insert_then : List Project → Result (List Project) → (List Project → Created) → Created
insert_then ps (err e) next = (err e, ps)
insert_then ps (ok ps') next = next ps'

module _ (new_id : List Project → Text) (is : List Installation) where
  unfoldable pub insert_orphans : List OrphanRepo → List OrphanRepo → List Project → Created
  unfolding insert_then
  insert_orphans created [] ps = (ok created, ps)
  insert_orphans created (o ∷ os) ps =
      insert_then ps (insert_project is (orphan_project (new_id ps) o) ps)
        (λ ps'. insert_orphans (counted ps ps' o created) os ps')

unfoldable pub reconcile_orphan_repos :
    (List Project → Text) → Database → Result (List OrphanRepo) × Database
reconcile_orphan_repos new_id db =
    let (r, ps) =
      insert_orphans new_id db.installations []
        (map orphan_of (keep (is_orphan db.projects) db.installation_repos)) db.projects in
    (r, record db { projects = ps })
