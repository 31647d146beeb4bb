-- ===== src/Projects/Deletion/Cascade.antt =====
-- What a deletion removes, in the database and in the cluster.
use vercel_clone.Prelude.{
  ◌≡◌, refl, inl, inr, ◌⊎◌, Bool, true, false, Option, none, some, List, [], ◌∷◌, map, ◌==◌, nat_eq,
  Bool-cases, All, All-append, arith, ◌&&◌, eq_refl,
}
use vercel_clone.Prelude.Text.{Text, codes, text_key}
use vercel_clone.Prelude.Table.{delete, find, count}
use vercel_clone.Store.{Project, User, Database}
use vercel_clone.Store.Enqueue.{owned_by}
use vercel_clone.Store.Accounts.{
  Reply, allowed, bad_request, unauthorized, not_found, authorise_project,
}
use vercel_clone.Tenant.{tenant_namespace_for}
use vercel_clone.Builder.{build_namespace}
use vercel_clone.Http.{Answer, done, refused, with_project}
use vercel_clone.Projects.Deletion
use vercel_clone.Projects.Deletion.{
  Removal, all_by_label, secret, ProjectDeleteMeta, Deleted, get_project_delete_meta,
  delete_project, removals, teardown_project_resources, handle_delete_project,
  list_deployment_ids_for_project,
}

All-delete {ℓ} :
    {A : Type ℓ} (test : A → Bool) (xs : List A) → All (λ x. test x ≡ false) (delete test xs)
All-delete test [] = tt
All-delete test (x ∷ xs) = elim (Bool-cases (test x)) [
  | inl e ↦ rw e (All-delete test xs)
  | inr e ↦ rw e (e, All-delete test xs)
]

abbrev pub namespace_of : Removal → Text
namespace_of (all_by_label ns kind sel) = ns
namespace_of (secret ns name) = ns

-- A call in the namespace of the tenant or in that of the builds.
abbrev pub IsLocal : Text → Removal → Type 0
IsLocal login r = (namespace_of r ≡ tenant_namespace_for login) ⊎ (namespace_of r ≡ build_namespace)

-- No row is left that belongs to the project.
abbrev pub IsGone : Text → Database → Type 0
IsGone id db =
    All (λ p. (p.id == id) ≡ false) db.projects
    × All (λ d. (d.project_id == id) ≡ false) db.deployments
    × All (λ v. (v.project_id == id) ≡ false) db.project_env_vars
    × All (λ d. (d.project_id == id) ≡ false) db.project_domains

All-pointer :
    (id : Text) (clear : Option Text → Option Text) (ps : List Project)
    → All (λ p. (p.id == id) ≡ false) ps
    → All
        (λ p. (p.id == id) ≡ false)
        (map {A = Project}
          (λ p. record p { production_deployment_id = clear p.production_deployment_id })
          ps)
All-pointer id clear [] h = tt
All-pointer id clear (p ∷ ps) (h, hs) = (h, All-pointer id clear ps hs)

delete_project-IsGone : (id : Text) (db : Database) → IsGone id (delete_project id db).1
unfolding delete_project
delete_project-IsGone id db = (
  All-pointer id (Deletion.clear_pointer (delete (λ d. d.project_id == id) db.deployments))
      (delete (λ p. p.id == id) db.projects) (All-delete (λ p. p.id == id) db.projects),
  All-delete (λ d. d.project_id == id) db.deployments,
  All-delete (λ v. v.project_id == id) db.project_env_vars,
  All-delete (λ d. d.project_id == id) db.project_domains,
)

git_secrets-IsLocal :
    (login : Text) (ids : List Text) → All (IsLocal login) (map Deletion.git_secret ids)
unfolding Deletion.git_secret
git_secrets-IsLocal login [] = tt
git_secrets-IsLocal login (id ∷ ids) = (inr refl, git_secrets-IsLocal login ids)

tenant_removals-IsLocal :
    (m : ProjectDeleteMeta) → All (IsLocal m.tenant_login) (Deletion.tenant_removals m)
unfolding Deletion.tenant_removals
tenant_removals-IsLocal m = elim (Bool-cases (m.tenant_login == [])) [
  | inl e ↦ rw e tt
  | inr e ↦ rw e (inl refl, (inl refl, (inl refl, (inl refl, (inl refl, (inl refl, tt))))))
]

removals-IsLocal :
    (m : ProjectDeleteMeta) (db : Database) → All (IsLocal m.tenant_login) (removals m db)
unfolding removals
removals-IsLocal m db =
    All-append (IsLocal m.tenant_login) (Deletion.tenant_removals m)
      (all_by_label build_namespace (codes "jobs") (Deletion.selector m)
        ∷ map Deletion.git_secret (list_deployment_ids_for_project m.id db))
      (tenant_removals-IsLocal m)
      (inr refl, git_secrets-IsLocal m.tenant_login (list_deployment_ids_for_project m.id db))

-- What a deletion leaves, and what it has called.
abbrev pub Deletes :
    Bool → Text → Option User → Database → Answer Deleted × (Database × List Removal) → Type 0
Deletes broken id u db (refused code, (after, calls)) =
    (after ≡ db)
    × ((calls ≡ [])
        ⊎ ((code ≡ 500)
            × (broken ≡ true)
            × ((p : Project) × (m : ProjectDeleteMeta) × (authorise_project id u db ≡ allowed p)
                × (get_project_delete_meta p.id (Deletion.delete_scope u) db ≡ some m)
                × All (IsLocal m.tenant_login) calls)))
Deletes broken id u db (done r, (after, calls)) =
    (p : Project) × (m : ProjectDeleteMeta) × (authorise_project id u db ≡ allowed p)
    × (get_project_delete_meta p.id (Deletion.delete_scope u) db ≡ some m)
    × (broken ≡ false)
    × IsGone m.id after
    × All (IsLocal m.tenant_login) calls

find-count :
    (test other : Project → Bool) (ps : List Project) (p : Project)
    → find test ps ≡ some p
    → other p ≡ true
    → nat_eq (count other ps) 0 ≡ false
find-count test other [] p found h = ground arith
find-count test other (q ∷ ps) p found h = elim (Bool-cases (other q)) [
  | inl e ↦ rw e (ground arith)
  | inr e ↦ elim (Bool-cases (test q)) [
    | inl t ↦ ground (arith, rw t at found, e, h)
    | inr t ↦ rw e (find-count test other ps p (rw t at found) h)
  ]
]

delete_known-Deletes :
    (fails : Removal → Option Text) (broken : Bool) (id : Text) (u : Option User) (db : Database)
    (p : Project) (o : Option Project)
    → authorise_project id u db ≡ allowed p
    → find (λ q. q.id == p.id && owned_by (Deletion.delete_scope u) q) db.projects ≡ o
    → get_project_delete_meta p.id (Deletion.delete_scope u) db ≡ Deletion.meta_of db o
    → Deletes broken id u db (Deletion.delete_found fails broken db (Deletion.meta_of db o))
unfolding Deletion.delete_found Deletion.answer_deleted teardown_project_resources Deletion.meta_of
    delete_project
delete_known-Deletes fails broken id u db p none let_in found meta = (refl, inl refl)
delete_known-Deletes fails broken id u db p (some q) let_in found meta = elim (Bool-cases broken) [
  | inl e ↦ rw e (refl, inr (refl, refl, (p, _, let_in, meta, removals-IsLocal _ db)))
  | inr e ↦
      rw
        (
          e,
          find-count (λ r. r.id == p.id && owned_by (Deletion.delete_scope u) r) (λ r. r.id == q.id)
              db.projects q found (eq_refl q.id),
        )
        (p, _, let_in, meta, refl, delete_project-IsGone q.id db, removals-IsLocal _ db)
]

let_in-Deletes :
    (fails : Removal → Option Text) (broken : Bool) (id : Text) (u : Option User) (db : Database)
    (r : Reply Project)
    → authorise_project id u db ≡ r
    → Deletes broken id u db (
        with_project r
          (db, [])
          (λ p.
            Deletion.delete_found fails broken db
              (get_project_delete_meta p.id (Deletion.delete_scope u) db)))
unfolding get_project_delete_meta
let_in-Deletes fails broken id u db (allowed p) h =
    delete_known-Deletes fails broken id u db p
      (find (λ q. q.id == p.id && owned_by (Deletion.delete_scope u) q) db.projects) h refl refl
let_in-Deletes fails broken id u db bad_request h = (refl, inl refl)
let_in-Deletes fails broken id u db unauthorized h = (refl, inl refl)
let_in-Deletes fails broken id u db not_found h = (refl, inl refl)

-- A deletion that is answered with an error leaves the database alone; and the cluster too, unless it
-- is the statement that deletes the row that fails, with 500: the teardown of a project that the user
-- may see has run then. One that succeeds is of such a project; no row of the project, of its
-- deployments, its variables or its domains is left. In both cases the calls that delete objects of the
-- cluster all go to the namespace of the tenant or that of the builds, whether they fail or not.
pub handle_delete_project-Deletes :
    (fails : Removal → Option Text) (broken : Bool) (id : Text) (u : Option User) (db : Database)
    → Deletes broken id u db (handle_delete_project fails broken id u db)
unfolding handle_delete_project
handle_delete_project-Deletes fails broken id u db =
    let_in-Deletes fails broken id u db (authorise_project id u db) refl
