-- ===== src/Webhook/Kept.antt =====
-- No event changes which deliveries are on record.
use vercel_clone.Prelude.{
  ℕ, ◌≡◌, refl, ◌∙◌, inl, inr, Bool, true, false, Option, none, some, List, [], ◌∷◌, ◌==◌,
  Bool-cases, if◌then◌else◌,
}
use vercel_clone.Prelude.Text.{Text, codes, text_key}
use vercel_clone.Prelude.Result.{Result, ok, err}
use vercel_clone.Store.{Database}
use vercel_clone.Store.Enqueue.{Push}
use vercel_clone.Store.Accounts.{upsert_installation}
use vercel_clone.Store.Enqueue.Kept.{enqueue_deployment-webhook_deliveries}
use vercel_clone.Store.Repos.Kept.{add_repos-webhook_deliveries, remove_repos-webhook_deliveries}
use vercel_clone.Store.Accounts.Kept.{
  upsert_installation-webhook_deliveries, link_installation-webhook_deliveries,
  set_project_owner-webhook_deliveries, suspend_installation-webhook_deliveries,
  delete_installation-webhook_deliveries,
}
use vercel_clone.Webhook.{
  Envelope, GithubRepo, PullRequest, Outside, Request, Response, bad_request, invalid_signature,
  internal_error, accepted,
}
use vercel_clone.Webhook

-- The deliveries on record are those of an earlier database.
pub record SameDeliveries (db db' : Database) : Type 0 where
  pub same : db'.webhook_deliveries ≡ db.webhook_deliveries

same_if :
    (b : Bool) {db x y : Database}
    → SameDeliveries db x
    → SameDeliveries db y
    → SameDeliveries db (if b then x else y)
same_if b hx hy = elim (Bool-cases b) [ inl e ↦ rw e hx | inr e ↦ rw e hy ]

same_after : {db x y : Database} → SameDeliveries db x → SameDeliveries x y → SameDeliveries db y
same_after h k = record { same = k.same ∙ h.same }

same_refl : {db : Database} → SameDeliveries db db
same_refl = record { same = refl }

module _ (out : Outside) (now : ℕ) (max_projects : ℕ) where
  enqueue-SameDeliveries :
      (q : Push) (db : Database) → SameDeliveries db (Webhook.enqueue out now max_projects q db)
  unfolding Webhook.enqueue
  enqueue-SameDeliveries q db = record { same = enqueue_deployment-webhook_deliveries _ now q db }

  handle_push-SameDeliveries :
      (e : Envelope) (body delivery : Text) (db : Database)
      → SameDeliveries db (Webhook.handle_push out now max_projects e body delivery db)
  unfolding Webhook.handle_push
  handle_push-SameDeliveries e body delivery db =
      same_if (Webhook.is_ignored e) same_refl (enqueue-SameDeliveries _ db)

  enqueue_preview-SameDeliveries :
      (e : Envelope) (delivery : Text) (r : Result PullRequest) (db : Database)
      → SameDeliveries db (Webhook.enqueue_preview out now max_projects e delivery r db)
  unfolding Webhook.enqueue_preview
  enqueue_preview-SameDeliveries e delivery (err _) db = same_refl
  enqueue_preview-SameDeliveries e delivery (ok p) db =
      same_if (p.head_sha == []) same_refl (enqueue-SameDeliveries _ db)

  handle_pull_request-SameDeliveries :
      (e : Envelope) (body delivery : Text) (db : Database)
      → SameDeliveries db (Webhook.handle_pull_request out now max_projects e body delivery db)
  unfolding Webhook.handle_pull_request
  handle_pull_request-SameDeliveries e body delivery db =
      same_if
        (Webhook.is_one_of e.action (codes "opened" ∷ codes "synchronize" ∷ codes "reopened" ∷ []))
        (enqueue_preview-SameDeliveries e delivery _ db) same_refl

  deploy_sha-SameDeliveries :
      (i : ℕ) (r : GithubRepo) (o : Option Text) (db : Database)
      → SameDeliveries db (Webhook.deploy_sha out now max_projects i r o db)
  unfolding Webhook.deploy_sha
  deploy_sha-SameDeliveries i r none db = same_refl
  deploy_sha-SameDeliveries i r (some sha) db = enqueue-SameDeliveries _ db

  auto_deploy-SameDeliveries :
      (i : ℕ) (rs : List GithubRepo) (db : Database)
      → SameDeliveries db (Webhook.auto_deploy out now max_projects i rs db)
  unfolding Webhook.auto_deploy Webhook.try_auto_deploy_repo
  auto_deploy-SameDeliveries i [] db = same_refl
  auto_deploy-SameDeliveries i (r ∷ rs) db =
      same_after (deploy_sha-SameDeliveries i r _ db) (auto_deploy-SameDeliveries i rs _)

  after_adding-SameDeliveries :
      (i : ℕ) (rs : List GithubRepo) (r : Result (Unit {0})) (db : Database)
      → SameDeliveries db (Webhook.after_adding out now max_projects i rs (r, db)).1
  unfolding Webhook.after_adding
  after_adding-SameDeliveries i rs (err _) db = same_refl
  after_adding-SameDeliveries i rs (ok _) db =
      same_after (record { same = set_project_owner-webhook_deliveries i db })
        (auto_deploy-SameDeliveries i rs _)

  add_and_deploy-SameDeliveries :
      (i : ℕ) (rs : List GithubRepo) (db : Database)
      → SameDeliveries db (Webhook.add_and_deploy out now max_projects i rs db).1
  unfolding Webhook.add_and_deploy
  add_and_deploy-SameDeliveries i [] db = same_refl
  add_and_deploy-SameDeliveries i (r ∷ rs) db =
      same_after (record { same = add_repos-webhook_deliveries out.project_id i _ max_projects db })
        (after_adding-SameDeliveries i (r ∷ rs) _ _)

  handle_installation-SameDeliveries :
      (e : Envelope) (body : Text) (db : Database)
      → SameDeliveries db (Webhook.handle_installation out now max_projects e body db)
  unfolding Webhook.handle_installation
  handle_installation-SameDeliveries e body db =
      same_if
        (Webhook.is_one_of e.action
          (codes "created" ∷ codes "new_permissions_accepted" ∷ codes "unsuspend" ∷ []))
        (same_after {x = upsert_installation (Webhook.upsert_of out now max_projects e) db}
          (record {
            same =
                upsert_installation-webhook_deliveries (Webhook.upsert_of out now max_projects e)
                  db;
          })
          (same_after
            (record {
              same = link_installation-webhook_deliveries e.installation_id e.account_id _;
            })
            (add_and_deploy-SameDeliveries e.installation_id (out.repositories body) _)))
        (same_if (e.action == codes "suspend")
          (record { same = suspend_installation-webhook_deliveries now e.installation_id true db })
          (same_if (e.action == codes "deleted")
            (record { same = delete_installation-webhook_deliveries e.installation_id db })
            same_refl))

  remove_listed-SameDeliveries :
      (i : ℕ) (rs : List GithubRepo) (b : Bool) (db : Database)
      → SameDeliveries db (Webhook.remove_listed out now max_projects i rs (b, db))
  unfolding Webhook.remove_listed
  remove_listed-SameDeliveries i rs false db = same_refl
  remove_listed-SameDeliveries i [] true db = same_refl
  remove_listed-SameDeliveries i (r ∷ rs) true db = record {
    same = remove_repos-webhook_deliveries now i _ db;
  }

  change_repos-SameDeliveries :
      (i : ℕ) (c : Result (List GithubRepo × List GithubRepo)) (db : Database)
      → SameDeliveries db (Webhook.change_repos out now max_projects i c db)
  unfolding Webhook.change_repos
  change_repos-SameDeliveries i (err _) db = same_refl
  change_repos-SameDeliveries i (ok (added, removed)) db =
      same_after (add_and_deploy-SameDeliveries i added db)
        (remove_listed-SameDeliveries i removed _ _)

  pub dispatch-SameDeliveries :
      (event body : Text) (e : Envelope) (delivery : Text) (db : Database)
      → SameDeliveries db (Webhook.dispatch out now max_projects event body e delivery db)
  unfolding Webhook.dispatch Webhook.handle_installation_repos
  dispatch-SameDeliveries event body e delivery db =
      same_if (event == codes "installation") (handle_installation-SameDeliveries e body db) (
        same_if (event == codes "installation_repositories")
          (change_repos-SameDeliveries e.installation_id _ db)
          (same_if (event == codes "push") (handle_push-SameDeliveries e body delivery db) (
            same_if (event == codes "pull_request")
              (handle_pull_request-SameDeliveries e body delivery db) same_refl)))
