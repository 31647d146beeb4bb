-- ===== src/Store/Enqueue/Fifo.antt =====
-- The queue of deployments as a first-in, first-out queue of ids.
use vercel_clone.Prelude.{◌≤◌, ◌<◌, Option, none, some, List, [], ◌∷◌, if◌then◌else◌, All}
use vercel_clone.Prelude.Text.{Text, text_key}
use vercel_clone.Prelude.Table.{count}
use vercel_clone.Store.{Deployment}
use vercel_clone.Store.Queue.{is_queued, with_id}
use vercel_clone.Store.Enqueue.{DeploymentEnqueued}

-- The ids of the queued rows, in the order of the table.
abbrev pub queue_of : List Deployment → List Text
queue_of [] = []
queue_of (d ∷ ds) = if is_queued d.status then d.id ∷ queue_of ds else queue_of ds

-- Every row is older than those behind it.
abbrev pub IsChronological : List Deployment → Type 0
IsChronological [] = Unit
IsChronological (d ∷ ds) = All (λ e. d.created_at < e.created_at) ds × IsChronological ds

abbrev pub HasKeys : List Deployment → Type 0
HasKeys ds = (id : Text) → count (with_id id) ds ≤ 1

-- The id that an enqueueing answers with, unless the push was dropped.
abbrev pub queued_id : Option DeploymentEnqueued → List Text
queued_id none = []
queued_id (some r) = if r.deduped then [] else r.deployment_id ∷ []
