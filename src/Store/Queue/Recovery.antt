-- ===== src/Store/Queue/Recovery.antt =====
-- Getting rows back from a worker that died, and what a worker that is still alive can do to them
-- afterwards.
use vercel_clone.Prelude.{
  ℕ, ◌≡◌, refl, inl, inr, Bool, false, none, some, List, [], ◌∷◌, arith, Bool-cases, All,
}
use vercel_clone.Prelude.Text.{Text, text_key}
use vercel_clone.Prelude.Table.{update, count, update-none}
use vercel_clone.Store.{Deployment}
use vercel_clone.Store.Queue.{
  in_flight, is_stale, set_queued, set_failed, with_id_in_flight, requeue_stale, requeue_stuck,
  requeue_deployment, mark_failed_if_in_flight,
}

-- After an update that leaves no row of a kind, no row is of that kind.
update-clears :
    (test kind : Deployment → Bool) (change : Deployment → Deployment)
    → ((d : Deployment) → kind (change d) ≡ false)
    → ((d : Deployment) → test d ≡ false → kind d ≡ false)
    → (ds : List Deployment) → All (λ d. kind d ≡ false) (update test change ds)
update-clears test kind change cleared outside [] = tt
update-clears test kind change cleared outside (d ∷ ds) = elim (Bool-cases (test d)) [
  | inl e ↦ rw e (cleared d, update-clears test kind change cleared outside ds)
  | inr e ↦ rw e (outside d e, update-clears test kind change cleared outside ds)
]

count-none :
    (test : Deployment → Bool) (ds : List Deployment)
    → All (λ d. test d ≡ false) ds
    → count test ds ≡ 0
count-none test [] h = refl
count-none test (d ∷ ds) h = rw (h.0) (count-none test ds h.1)

-- After `requeue_stale` no row is stale: a second run at the same time changes nothing and counts 0.
pub requeue_stale_twice :
    (now max_age : ℕ) (ds : List Deployment)
    → requeue_stale now max_age (requeue_stale now max_age ds).1
      ≡ (0, (requeue_stale now max_age ds).1)
unfolding requeue_stale
requeue_stale_twice now max_age ds =
    let rest = update (is_stale now max_age) (set_queued none) ds in
    let clear : count (is_stale now max_age) rest ≡ 0 = count-none _ rest (
      update-clears (is_stale now max_age) (is_stale now max_age) (set_queued none) (λ d. refl)
        (λ d h. h) ds) in
    rw (clear, update-none (is_stale now max_age) (set_queued none) rest clear) refl

-- After `requeue_stuck` no row is building or deploying.
pub requeue_stuck-clears :
    (ds : List Deployment) → All (λ d. in_flight d.status ≡ false) (requeue_stuck ds).1
unfolding requeue_stuck
requeue_stuck-clears ds =
    update-clears (λ d. in_flight d.status) (λ d. in_flight d.status) (set_queued none) (λ d. refl)
      (λ d h. h) ds

-- Once a deployment has been requeued, a worker that still runs it and fails cannot mark it failed.
pub requeue-mark_failed :
    (now : ℕ) (id reason late : Text) (ds : List Deployment)
    → mark_failed_if_in_flight now id late (requeue_deployment id reason ds).1
      ≡ (requeue_deployment id reason ds).1
unfolding mark_failed_if_in_flight requeue_deployment
requeue-mark_failed now id reason late ds =
    let rest = update (with_id_in_flight id) (set_queued (some reason)) ds in
    update-none (with_id_in_flight id) (set_failed now late) rest (
      count-none _ rest (
        update-clears (with_id_in_flight id) (with_id_in_flight id) (set_queued (some reason))
          (λ d. ground arith) (λ d h. h) ds))
