-- ===== src/Reconciler/Rows.antt =====
-- What a tick of the reconciler does to the rows.
use vercel_clone.Prelude.{ℕ, ◌+◌, ◌≤◌, ◌<◌, ◌≡◌, ◌⊎◌, true, false, none, some, List, [], ◌∷◌}
use vercel_clone.Prelude.Text.{Text}
use vercel_clone.Prelude.Result.{Result, ok}
use vercel_clone.Store.{building, queued, Deployment}
use vercel_clone.Store.Queue.{started_at, in_flight}
use vercel_clone.Builder.Effects.{JobPhase}
use vercel_clone.Builder.{build_job_name, has_failed}
use vercel_clone.Reconciler
use vercel_clone.Reconciler.{Cluster}

abbrev pub IsIn : Deployment → List Deployment → Type 0
IsIn x [] = ⊥
IsIn x (d ∷ ds) = (x ≡ d) ⊎ IsIn x ds

-- The build's Job is gone for more than 90 seconds after the start.
abbrev pub IsMissing : Cluster → ℕ → Deployment → Type 0
IsMissing cluster now x =
    (cluster.job_phase (build_job_name x.id) ≡ ok none) × (90 + started_at x < now)

-- The Job has neither succeeded nor failed, and runs in a pod for 480 seconds or more; it is deleted.
abbrev pub IsStuck : Cluster → ℕ → Deployment → Type 0
IsStuck cluster now x =
    (p : JobPhase) × (pod : Text) × (cluster.job_phase (build_job_name x.id) ≡ ok (some p))
    × (p.succeeded ≡ 0)
    × (has_failed p ≡ false)
    × (0 < p.active)
    × (480 + started_at x ≤ now)
    × (cluster.build_pod x.id ≡ some pod)
    × (cluster.is_running pod ≡ true)
    × (cluster.delete_fails (build_job_name x.id) ≡ false)

-- A row of the table with this id was building, with its Job missing or stuck.
abbrev pub IsLost : Cluster → ℕ → List Deployment → Text → Type 0
IsLost cluster now table id =
    (x : Deployment) × IsIn x table
    × (x.id ≡ id)
    × (x.status ≡ building)
    × (IsMissing cluster now x ⊎ IsStuck cluster now x)

-- A row stays as it is, or goes from in flight to queued, for a reason that its id gives.
abbrev pub GoesBack : (Text → Type 0) → Deployment → Deployment → Type 0
GoesBack Reason d e =
    (e ≡ d)
    ⊎ ((in_flight d.status ≡ true)
        × (e.status ≡ queued)
        × (e.id ≡ d.id)
        × (e.commit_sha ≡ d.commit_sha)
        × Reason d.id)

abbrev pub RowsGoBack : (Text → Type 0) → List Deployment → List Deployment → Type 0
RowsGoBack Reason [] [] = Unit
RowsGoBack Reason [] (_ ∷ _) = ⊥
RowsGoBack Reason (_ ∷ _) [] = ⊥
RowsGoBack Reason (d ∷ ds) (e ∷ es) = GoesBack Reason d e × RowsGoBack Reason ds es
