-- ===== src/Webhook/Previews.antt =====
-- Which deployments a pull request and a push can queue.
use mathlib.Core.List.{append-nil}
use vercel_clone.Prelude.{ℕ, ◌≡◌, sym, Bool, true, false, ◌==◌, List, [], ◌++◌, All, if◌then◌else◌}
use vercel_clone.Prelude.Text.{Text, text_key}
use vercel_clone.Prelude.Result.{Result, ok, err}
use vercel_clone.Store.{Deployment, Database}
use vercel_clone.Store.Enqueue.{Push}
use vercel_clone.Store.Enqueue.Kept.{enqueue_deployment-new_row}
use vercel_clone.Webhook.{Envelope, PullRequest, Outside}
use vercel_clone.Webhook

-- The deployments of one database and then rows of one kind.
abbrev pub Adds : Bool → Database → Database → Type 0
Adds preview db db' =
    (rest : List Deployment) × (db'.deployments ≡ db.deployments ++ rest)
    × All (λ d. d.is_preview ≡ preview) rest

Adds-nothing : (b : Bool) (db : Database) → Adds b db db
Adds-nothing b db = ([], sym (append-nil db.deployments), tt)

Adds-if :
    (c b : Bool) (db x y : Database) → Adds b db x → Adds b db y → Adds b db (if c then x else y)
Adds-if true b db x y hx hy = hx
Adds-if false b db x y hx hy = hy

module _ (out : Outside) (now : ℕ) (max_projects : ℕ) where
  enqueue-Adds :
      (q : Push) (db : Database)
      → Adds q.options.is_preview db (Webhook.enqueue out now max_projects q db)
  unfolding Webhook.enqueue
  enqueue-Adds q db = enqueue_deployment-new_row _ now q db

  enqueue_preview-Adds :
      (e : Envelope) (delivery : Text) (r : Result PullRequest) (db : Database)
      → Adds true db (Webhook.enqueue_preview out now max_projects e delivery r db)
  unfolding Webhook.enqueue_preview
  enqueue_preview-Adds e delivery (err _) db = Adds-nothing true db
  enqueue_preview-Adds e delivery (ok p) db =
      Adds-if (p.head_sha == []) true db _ _ (Adds-nothing true db)
        (enqueue-Adds (Webhook.preview_push out now max_projects e delivery p) db)

  -- Whatever a pull request's event says, the deployments that it adds are previews, and those that
  -- were there stay as they are.
  pub handle_pull_request-Adds :
      (e : Envelope) (body delivery : Text) (db : Database)
      → Adds true db (Webhook.handle_pull_request out now max_projects e body delivery db)
  unfolding Webhook.handle_pull_request
  handle_pull_request-Adds e body delivery db =
      Adds-if _ true db _ _ (enqueue_preview-Adds e delivery (out.pull_request body) db)
        (Adds-nothing true db)
