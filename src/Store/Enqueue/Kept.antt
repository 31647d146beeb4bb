-- ===== src/Store/Enqueue/Kept.antt =====
-- Tables that enqueueing leaves alone, and the rows that it adds.
use vercel_clone.Prelude.{
  ℕ, ◌≡◌, refl, sym, inl, inr, Option, none, some, List, [], ◌∷◌, ◌++◌, All, Bool-cases,
}
use mathlib.Core.List.{append-nil}
use vercel_clone.Prelude.Text.{Text}
use vercel_clone.Store.{Deployment, Project, Database}
use vercel_clone.Store.Enqueue.{
  Push, find_project, is_duplicate, new_row, enqueue_deployment, enqueue_for,
}

enqueue_for-webhook_deliveries :
    (id : Text) (now : ℕ) (q : Push) (db : Database) (o : Option Project)
    → (enqueue_for id now q db o).1.webhook_deliveries ≡ db.webhook_deliveries
unfolding enqueue_for
enqueue_for-webhook_deliveries id now q db none = refl
enqueue_for-webhook_deliveries id now q db (some p) =
    elim (Bool-cases (is_duplicate q p db.deployments)) [ inl e ↦ rw e refl | inr e ↦ rw e refl ]

pub enqueue_deployment-webhook_deliveries :
    (id : Text) (now : ℕ) (q : Push) (db : Database)
    → (enqueue_deployment id now q db).1.webhook_deliveries ≡ db.webhook_deliveries
unfolding enqueue_deployment
enqueue_deployment-webhook_deliveries id now q db =
    enqueue_for-webhook_deliveries id now q db
      (find_project q.installation_id q.repo_id db.projects)

enqueue_for-new_row :
    (id : Text) (now : ℕ) (q : Push) (db : Database) (o : Option Project)
    → (rest : List Deployment) × ((enqueue_for id now q db o).1.deployments
        ≡ db.deployments ++ rest)
      × All (λ d. d.is_preview ≡ q.options.is_preview) rest
unfolding enqueue_for
enqueue_for-new_row id now q db none = ([], sym (append-nil db.deployments), tt)
enqueue_for-new_row id now q db (some p) = elim (Bool-cases (is_duplicate q p db.deployments)) [
  | inl e ↦ rw e ([], sym (append-nil db.deployments), tt)
  | inr e ↦ rw e (new_row id now q p ∷ [], refl, (refl, tt))
]

pub enqueue_deployment-new_row :
    (id : Text) (now : ℕ) (q : Push) (db : Database)
    → (rest : List Deployment) × ((enqueue_deployment id now q db).1.deployments
        ≡ db.deployments ++ rest)
      × All (λ d. d.is_preview ≡ q.options.is_preview) rest
unfolding enqueue_deployment
enqueue_deployment-new_row id now q db =
    enqueue_for-new_row id now q db (find_project q.installation_id q.repo_id db.projects)
