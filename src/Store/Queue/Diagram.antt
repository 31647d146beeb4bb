-- ===== src/Store/Queue/Diagram.antt =====
-- The edges that a row's status takes.
use vercel_clone.Prelude.{
  ◌≡◌, refl, some, none, ◌⊎◌, inl, inr, Bool, true, List, [], ◌∷◌, ◌++◌, arith, Bool-cases, All,
}
use vercel_clone.Prelude.Table.{update}
use vercel_clone.Store.{Status, queued, building, deploying, ready, failed, Deployment}
use vercel_clone.Store.Queue.{
  in_flight, start_build, with_id, with_id_in_flight, is_stale, set_queued, set_failed, set_ready,
  set_deploying, mark_deploying, mark_ready, mark_failed, mark_failed_if_in_flight,
  requeue_deployment, requeue_stale, requeue_stuck,
}
use vercel_clone.Store.Queue.Rows.{
  Statement, insert, claim, deploy, finish, fail, fail_in_flight, requeue, stale, stuck,
  run_statement,
}

-- The diagram at the head of control-plane/builder.go, with the way back to `queued`.
infix 40 ◌⟶◌
pub data ◌⟶◌ : Status → Status → Type 0 where
  claimed : queued ⟶ building
  built : building ⟶ deploying
  served : deploying ⟶ ready
  build_failed : building ⟶ failed
  deploy_failed : deploying ⟶ failed
  build_retried : building ⟶ queued
  deploy_retried : deploying ⟶ queued

ruleset edges = (claimed, built, served, build_failed, deploy_failed, build_retried, deploy_retried)

-- The rows of two tables, in their order; the second may have rows added at its end.
abbrev pub Follows : List Deployment → List Deployment → Type 0
Follows [] after = Unit
Follows (_ ∷ _) [] = ⊥
Follows (d ∷ ds) (e ∷ es) = ((e ≡ d) ⊎ (d.status ⟶ e.status)) × Follows ds es

-- What the caller knows of the row that it names: the worker claims a queued row, marks as
-- deploying what it has built, and as ready what it has deployed.
abbrev pub Applies : Statement → Deployment → Type 0
Applies (claim now id) d = with_id id d ≡ true → d.status ≡ queued
Applies (deploy now id image) d = with_id id d ≡ true → d.status ≡ building
Applies (finish now id url) d = with_id id d ≡ true → d.status ≡ deploying
Applies (fail now id reason) d = with_id id d ≡ true → in_flight d.status ≡ true
Applies _ d = Unit

Follows-refl : (ds es : List Deployment) → Follows ds (ds ++ es)
Follows-refl [] es = tt
Follows-refl (d ∷ ds) es = (inl refl, Follows-refl ds es)

Follows-update :
    (test : Deployment → Bool) (change : Deployment → Deployment) (ds : List Deployment)
    → All (λ d. test d ≡ true → d.status ⟶ (change d).status) ds
    → Follows ds (update test change ds)
Follows-update test change [] h = tt
Follows-update test change (d ∷ ds) (hd, hds) = elim (Bool-cases (test d)) [
  | inl e ↦ rw e (inr (hd e), Follows-update test change ds hds)
  | inr e ↦ rw e (inl refl, Follows-update test change ds hds)
]

to_failed : (s : Status) → in_flight s ≡ true → s ⟶ failed
to_failed building h = build_failed
to_failed deploying h = deploy_failed
to_failed _ h = cc

to_queued : (s : Status) → in_flight s ≡ true → s ⟶ queued
to_queued building h = build_retried
to_queued deploying h = deploy_retried
to_queued _ h = cc

along : {s t u : Status} → s ≡ t → t ⟶ u → s ⟶ u
along e h = rw e h

module _ (P : Deployment → Type 0) (Q : Deployment → Type 0)
    (f : (d : Deployment) → P d → Q d) where
  All-map : (ds : List Deployment) → All P ds → All Q ds
  All-map [] h = h
  All-map (d ∷ ds) (hd, hds) = (f d hd, All-map ds hds)

flying :
    (ds : List Deployment) (test : Deployment → Bool)
    → ((d : Deployment) → test d ≡ true → in_flight d.status ≡ true)
    → (u : Status) → ((s : Status) → in_flight s ≡ true → s ⟶ u)
    → All (λ d. test d ≡ true → d.status ⟶ u) ds
flying [] test t u e = tt
flying (d ∷ ds) test t u e = ((λ h. e d.status (t d h)), flying ds test t u e)

-- Where the worker names only rows in the state that it left them in, every statement, the
-- reconciler's included, leaves each row as it is or moves it along an edge of the diagram; a
-- ready or failed row never moves.
pub run_statement-Follows :
    (s : Statement) (ds : List Deployment) → All (Applies s) ds → Follows ds (run_statement s ds)
unfolding mark_deploying mark_ready mark_failed mark_failed_if_in_flight requeue_deployment
    requeue_stale requeue_stuck
run_statement-Follows (insert d) ds h = Follows-refl ds (d ∷ [])
run_statement-Follows (claim now id) ds h =
    Follows-update (with_id id) (start_build now) ds
      (All-map _ _ (λ d k e. along (k e) claimed) ds h)
run_statement-Follows (deploy now id image) ds h =
    Follows-update (with_id id) (set_deploying now image) ds
      (All-map _ _ (λ d k e. along (k e) built) ds h)
run_statement-Follows (finish now id url) ds h =
    Follows-update (with_id id) (set_ready now url) ds
      (All-map _ _ (λ d k e. along (k e) served) ds h)
run_statement-Follows (fail now id reason) ds h =
    Follows-update (with_id id) (set_failed now reason) ds
      (All-map _ _ (λ d k e. to_failed d.status (k e)) ds h)
run_statement-Follows (fail_in_flight now id reason) ds h =
    Follows-update (with_id_in_flight id) (set_failed now reason) ds
      (flying ds _ (λ d e. ground arith) failed to_failed)
run_statement-Follows (requeue id reason) ds h =
    Follows-update (with_id_in_flight id) (set_queued (some reason)) ds
      (flying ds _ (λ d e. ground arith) queued to_queued)
run_statement-Follows (stale now max_age) ds h =
    Follows-update (is_stale now max_age) (set_queued none) ds
      (flying ds _ (λ d e. ground arith) queued to_queued)
run_statement-Follows stuck ds h =
    Follows-update (λ d. in_flight d.status) (set_queued none) ds
      (flying ds _ (λ d e. e) queued to_queued)
