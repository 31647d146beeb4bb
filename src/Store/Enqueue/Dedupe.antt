-- ===== src/Store/Enqueue/Dedupe.antt =====
-- When a push enters the queue.
use mathlib.Core.List.{append-nil}
use vercel_clone.Prelude.{
  ℕ, ◌≤◌, ◌≡◌, refl, ◌≢◌, ap, sym, ◌∙◌, ◌⊎◌, inl, inr, Bool, true, false, none, some, List, [], ◌∷◌,
  ◌++◌, arith, length, is_some, Bool-cases, Option-cases, ◌==◌, eq_refl,
}
use vercel_clone.Prelude.Text.{Text, text_key}
use vercel_clone.Prelude.Table.{find}
use vercel_clone.Store.{Deployment, Project, Database}
use vercel_clone.Store.Enqueue.{
  Push, deduped_result, queued_result, webhook, trigger_of, find_project, prod_ref, built,
  is_dedupable, is_duplicate, new_row, insert_row, enqueue_for, enqueue_deployment, owned_by,
  redeploy_from, redeploy_source, enqueue_redeploy,
}

find-snoc :
    (test : Deployment → Bool) (ds : List Deployment) (d : Deployment)
    → test d ≡ true
    → is_some (find test (ds ++ d ∷ [])) ≡ true
find-snoc test [] d h = rw h
find-snoc test (x ∷ ds) d h = elim (Bool-cases (test x)) [
  | inl e ↦ rw e
  | inr e ↦ rw e (find-snoc test ds d h)
]

built_self :
    (id : Text) (now : ℕ) (q : Push) (p : Project)
    → built p.id q.commit_sha (new_row id now q p) ≡ true
built_self id now q p = rw (eq_refl p.id, eq_refl q.commit_sha)

module _ (id : Text) (now : ℕ) (q : Push) (db : Database) (p : Project)
    (found : find_project q.installation_id q.repo_id db.projects ≡ some p) where
  enqueue_known : enqueue_deployment id now q db ≡ enqueue_for id now q db (some p)
  unfolding enqueue_deployment
  enqueue_known = ap (enqueue_for id now q db) found

  pub enqueue_duplicate :
      is_duplicate q p db.deployments ≡ true
      → enqueue_deployment id now q db ≡ (some (deduped_result p), db)
  enqueue_duplicate dup = enqueue_known ∙ (unfold enqueue_for in rw dup)

  pub enqueue_fresh :
      is_duplicate q p db.deployments ≡ false
      → enqueue_deployment id now q db
        ≡ (some (queued_result id p), insert_row (new_row id now q p) db)
  enqueue_fresh dup = enqueue_known ∙ (unfold enqueue_for in rw dup)

duplicate_after :
    (id : Text) (now : ℕ) (q : Push) (p : Project) (ds : List Deployment)
    → is_dedupable q p ≡ true
    → is_duplicate q p (ds ++ new_row id now q p ∷ []) ≡ true
duplicate_after id now q p ds h =
    rw (h, find-snoc (built p.id q.commit_sha) ds (new_row id now q p) (built_self id now q p))

-- A webhook's push of a commit to a branch that is not production is built once: delivered again,
-- with whatever id and time, it changes nothing and is reported as deduplicated.
pub enqueue_twice :
    (id id' : Text) (now now' : ℕ) (q : Push) (db : Database) (p : Project)
    → find_project q.installation_id q.repo_id db.projects ≡ some p
    → is_dedupable q p ≡ true
    → enqueue_deployment id' now' q (enqueue_deployment id now q db).1
      ≡ (some (deduped_result p), (enqueue_deployment id now q db).1)
enqueue_twice id id' now now' q db p found dedupable =
    elim (Bool-cases (is_duplicate q p db.deployments)) [
      | inl dup ↦
          rw (enqueue_duplicate id now q db p found dup)
            (enqueue_duplicate id' now' q db p found dup)
      | inr dup ↦ rw (enqueue_fresh id now q db p found dup) (
          enqueue_duplicate id' now' q (insert_row (new_row id now q p) db) p found
            (duplicate_after id now q p db.deployments dedupable))
    ]

-- A push to the production branch, and any trigger but a webhook, always adds one queued row for its
-- commit at the end of the table, even when that commit was built before.
pub enqueue_always :
    (id : Text) (now : ℕ) (q : Push) (db : Database) (p : Project)
    → find_project q.installation_id q.repo_id db.projects ≡ some p
    → (q.ref ≡ prod_ref p) ⊎ (trigger_of q ≢ webhook)
    → enqueue_deployment id now q db
      ≡ (some (queued_result id p), insert_row (new_row id now q p) db)
enqueue_always id now q db p found why =
    enqueue_fresh id now q db p found (
      ground
        (arith, text_key.same_iff q.ref (prod_ref p), text_key.same_iff (trigger_of q) webhook))

pub enqueue_unknown :
    (id : Text) (now : ℕ) (q : Push) (db : Database)
    → find_project q.installation_id q.repo_id db.projects ≡ none
    → enqueue_deployment id now q db ≡ (none, db)
unfolding enqueue_deployment
enqueue_unknown id now q db unknown =
    ap (λ o. enqueue_for id now q db o) unknown ∙ (unfold enqueue_for in refl)

-- A push never touches the rows that are there, whatever it is, and adds one at most.
pub enqueue-extends :
    (id : Text) (now : ℕ) (q : Push) (db : Database)
    → (rest : List Deployment) × ((enqueue_deployment id now q db).1.deployments
        ≡ db.deployments ++ rest)
      × (length rest ≤ 1)
enqueue-extends id now q db =
    elim (Option-cases (find_project q.installation_id q.repo_id db.projects)) [
      | inl unknown ↦ (
        [],
        ap (λ r. r.1.deployments) (enqueue_unknown id now q db unknown)
            ∙ sym (append-nil db.deployments),
        omega arith,
      )
      | inr (p, found) ↦ elim (Bool-cases (is_duplicate q p db.deployments)) [
        | inl dup ↦ (
          [],
          ap (λ r. r.1.deployments) (enqueue_duplicate id now q db p found dup)
              ∙ sym (append-nil db.deployments),
          omega arith,
        )
        | inr dup ↦ (
          new_row id now q p ∷ [],
          ap (λ r. r.1.deployments) (enqueue_fresh id now q db p found dup),
          omega arith,
        )
      ]
    ]

not_owned :
    (p : Project) (user : Text) → user ≢ [] → p.owner_user_id ≢ some user → owned_by user p ≡ false
not_owned p user named foreign = elim (Option-cases p.owner_user_id) [
  | inl e ↦ ground (arith, text_key.same_iff user [])
  | inr (owner, e) ↦ ground (arith, text_key.same_iff user [], text_key.same_iff owner user)
]

-- A user who does not own the project of a deployment cannot have it built again, and is told no
-- more than that it is not there.
pub redeploy_foreign :
    (id : Text) (now : ℕ) (source user : Text) (db : Database) (d : Deployment) (p : Project)
    → find (λ d. d.id == source) db.deployments ≡ some d
    → find (λ p. p.id == d.project_id) db.projects ≡ some p
    → user ≢ []
    → p.owner_user_id ≢ some user
    → enqueue_redeploy id now source user db ≡ (none, db)
unfolding enqueue_redeploy
redeploy_foreign id now source user db d p ed ep named foreign =
    rw (ed, redeploy_source) (rw (ep, redeploy_from) (rw (not_owned p user named foreign) refl))
