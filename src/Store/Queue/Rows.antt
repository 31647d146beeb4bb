-- ===== src/Store/Queue/Rows.antt =====
-- What every row of `deployments` satisfies, and which rows the guarded statements leave alone.
use vercel_clone.Prelude.{
  ℕ, ◌≡◌, true, none, some, List, [], ◌∷◌, ◌++◌, arith, is_some, All, All-append,
}
use vercel_clone.Prelude.Text.{Text, text_key}
use vercel_clone.Prelude.Table.{update, All-update}
use vercel_clone.Store.{queued, building, deploying, ready, failed, Deployment}
use vercel_clone.Store.Queue.{
  in_flight, start_build, with_id, with_id_in_flight, is_stale, set_queued, set_failed, set_ready,
  set_deploying, mark_deploying, mark_ready, mark_failed, mark_failed_if_in_flight,
  requeue_deployment, requeue_stale, requeue_stuck,
}

pub record IsValid (d : Deployment) : Type 0 where
  pub queued_unstarted : d.status ≡ queued → d.build_started_at ≡ none
  pub building_started : d.status ≡ building → is_some d.build_started_at ≡ true
  pub deploying_built :
      d.status ≡ deploying → (is_some d.image ≡ true) × (is_some d.build_ended_at ≡ true)
  pub ready_served : d.status ≡ ready → (is_some d.url ≡ true) × (is_some d.ready_at ≡ true)
  pub failed_explained :
      d.status ≡ failed → (is_some d.error ≡ true) × (is_some d.build_ended_at ≡ true)

-- The statements on the table, `claim` with the row that `ClaimNextQueued` picked.
pub data Statement : Type 0 where
  insert : Deployment → Statement
  claim : ℕ → Text → Statement
  deploy : ℕ → Text → Text → Statement
  finish : ℕ → Text → Text → Statement
  fail : ℕ → Text → Text → Statement
  fail_in_flight : ℕ → Text → Text → Statement
  requeue : Text → Text → Statement
  stale : ℕ → ℕ → Statement
  stuck : Statement

abbrev pub run_statement : Statement → List Deployment → List Deployment
run_statement (insert d) ds = ds ++ d ∷ []
run_statement (claim now id) ds = update (with_id id) (start_build now) ds
run_statement (deploy now id image) ds = mark_deploying now id image ds
run_statement (finish now id url) ds = mark_ready now id url ds
run_statement (fail now id reason) ds = mark_failed now id reason ds
run_statement (fail_in_flight now id reason) ds = mark_failed_if_in_flight now id reason ds
run_statement (requeue id reason) ds = (requeue_deployment id reason ds).1
run_statement (stale now max_age) ds = (requeue_stale now max_age ds).1
run_statement stuck ds = (requeue_stuck ds).1

abbrev pub run_statements : List Statement → List Deployment → List Deployment
run_statements [] ds = ds
run_statements (s ∷ ss) ds = run_statements ss (run_statement s ds)

-- What an INSERT may put in: a queued row with no build times.
abbrev pub IsInsert : Statement → Type 0
IsInsert (insert d) = (d.status ≡ queued) × (d.build_started_at ≡ none)
IsInsert _ = Unit

run_statement-IsValid :
    (s : Statement) (ds : List Deployment)
    → IsInsert s
    → All IsValid ds
    → All IsValid (run_statement s ds)
unfolding mark_deploying mark_ready mark_failed mark_failed_if_in_flight requeue_deployment
    requeue_stale requeue_stuck
run_statement-IsValid (insert d) ds i h = All-append IsValid ds (d ∷ []) h (ground arith, tt)
run_statement-IsValid (claim now id) ds i h =
    All-update IsValid (with_id id) (start_build now) (λ x e v. ground arith) ds h
run_statement-IsValid (deploy now id image) ds i h =
    All-update IsValid (with_id id) (set_deploying now image) (λ x e v. ground arith) ds h
run_statement-IsValid (finish now id url) ds i h =
    All-update IsValid (with_id id) (set_ready now url) (λ x e v. ground arith) ds h
run_statement-IsValid (fail now id reason) ds i h =
    All-update IsValid (with_id id) (set_failed now reason) (λ x e v. ground arith) ds h
run_statement-IsValid (fail_in_flight now id reason) ds i h =
    All-update IsValid (with_id_in_flight id) (set_failed now reason) (λ x e v. ground arith) ds h
run_statement-IsValid (requeue id reason) ds i h =
    All-update IsValid (with_id_in_flight id) (set_queued (some reason)) (λ x e v. ground arith) ds
      h
run_statement-IsValid (stale now max_age) ds i h =
    All-update IsValid (is_stale now max_age) (set_queued none) (λ x e v. ground arith) ds h
run_statement-IsValid stuck ds i h =
    All-update IsValid (λ d. in_flight d.status) (set_queued none) (λ x e v. ground arith) ds h

-- Whatever statements the worker, the reconciler and the boot run, in whatever order, every row
-- stays well formed: a queued row has no build start, a building one has it, a deploying one has an
-- image and a build end, a ready one a URL and a time, a failed one an error and a build end.
pub run_statements-IsValid :
    (ss : List Statement) (ds : List Deployment)
    → All IsInsert ss
    → All IsValid ds
    → All IsValid (run_statements ss ds)
run_statements-IsValid [] ds i h = h
run_statements-IsValid (s ∷ ss) ds (i, is) h =
    run_statements-IsValid ss (run_statement s ds) is (run_statement-IsValid s ds i h)
