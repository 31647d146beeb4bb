-- ===== src/Builder/Ready.antt =====
-- What a run of the builder leaves of the deployments' rows.
use vercel_clone.Prelude.{ℕ, ◌+◌, ◌≡◌, ◌⊎◌, inl, inr, refl, false, none, List, ap}
use vercel_clone.Prelude.Text.{Text}
use vercel_clone.Prelude.Result.{ok, err}
use vercel_clone.Store.{Deployment}
use vercel_clone.Store.Queue.{ClaimedDeployment, mark_deploying, mark_ready}
use vercel_clone.Builder.Effects.{Effect, Env, World, Action}
use vercel_clone.Builder.Triples.{
  Triple, Keeps, Anywhere, then_Triple, wrap-Triple, write-Triple, lift-Triple, both_Triple,
  weaken-Triple, from_Triple, any-Triple, with_fact, at_ok, at_err,
}
use vercel_clone.Builder.Keeping.{Accepts}
use vercel_clone.Builder.Confined.{Private}
use vercel_clone.Builder.Private.{
  build_image-Keeps, require_tenant-Keeps, ensure_tenant-Keeps, apply_tenant_objects-Keeps,
}
use vercel_clone.Builder.Publish.{publish-succeeds, publish-Keeps}
use vercel_clone.Builder.Wait.{Succeeds, wait_for_job-Succeeds}
use vercel_clone.Builder

-- The Job of this deployment succeeded, in polls that began at some time.
abbrev pub IsBuilt : Env → ClaimedDeployment → Type 0
IsBuilt env c =
    (start : ℕ) × Succeeds (start + Builder.build_timeout)
      (env.polls (Builder.build_job_name c.deployment_id))

module _ (env : Env) (c : ClaimedDeployment) (ds : List Deployment) where
  abbrev pub Untouched : World → Type 0
  Untouched w = w.db.deployments ≡ ds

  abbrev pub IsDeploying : World → Type 0
  IsDeploying w =
      (t : ℕ) × (w.db.deployments ≡ mark_deploying t c.deployment_id (Builder.pull_image c) ds)

  abbrev pub IsReady : World → Type 0
  IsReady w =
      (t : ℕ) × (u : ℕ) × (w.db.deployments
        ≡ mark_ready u c.deployment_id (Builder.live_url c)
            (mark_deploying t c.deployment_id (Builder.pull_image c) ds))

  abbrev pub HasStopped : World → Type 0
  HasStopped w = Untouched w ⊎ IsDeploying w

  accept-Untouched : (e : Effect) → Private c e → Accepts Untouched e
  accept-Untouched e p w h = h

  accept-IsDeploying : (e : Effect) → Private c e → Accepts IsDeploying e
  accept-IsDeploying e p w h = h

  build_image-IsBuilt : Triple Anywhere (Builder.build_image env c) (λ _ _. IsBuilt env c) Anywhere
  unfolding Builder.build_image
  build_image-IsBuilt =
      then_Triple (λ _. Anywhere) (any-Triple _)
        (λ _.
          then_Triple (λ _. Anywhere) (any-Triple _)
            (λ _.
              then_Triple (λ _. Anywhere) (any-Triple _)
                (λ _.
                  then_Triple (λ _. Anywhere) (any-Triple _)
                    (λ _.
                      then_Triple (λ _. Anywhere) (any-Triple _)
                        (λ start.
                          lift-Triple _
                            (λ a e w h. (start, wait_for_job-Succeeds env.decimal _ false none _ e))
                            (λ w h. tt))))))

  build_image-Untouched :
      Triple Untouched (Builder.build_image env c) (λ _ w. IsBuilt env c × Untouched w) HasStopped
  build_image-Untouched =
      both_Triple (λ a w built same. (built, same)) (λ w _ same. inl same)
        (from_Triple (λ w _. tt) build_image-IsBuilt)
        (build_image-Keeps env c Untouched accept-Untouched)

  may_stop :
      {A : Type 0} {m : Action A}
      → Keeps IsDeploying m
      → Triple IsDeploying m (λ _. IsDeploying) HasStopped
  may_stop k = weaken-Triple (λ a w h. h) (λ w h. inr h) k

  deploy-IsReady : Triple Untouched (Builder.deploy env c) (λ _. IsReady) HasStopped
  unfolding Builder.deploy
  deploy-IsReady =
      then_Triple (λ _. IsDeploying)
        (wrap-Triple _
          (write-Triple _ _ _ (λ w now h. (now, ap (mark_deploying now _ _) h)) (λ w h. inl h)))
        (λ _.
          then_Triple (λ _. IsDeploying)
            (may_stop (require_tenant-Keeps env c _ accept-IsDeploying _))
            (λ _.
              then_Triple (λ _. IsDeploying)
                (wrap-Triple _ (may_stop (ensure_tenant-Keeps env c _ accept-IsDeploying)))
                (λ _.
                  then_Triple (λ _. IsDeploying)
                    (may_stop (apply_tenant_objects-Keeps env c _ accept-IsDeploying))
                    (λ _. wrap-Triple _ (
                      write-Triple _ _ _ (λ w now h. (h.0, now, ap (mark_ready now _ _) h.1))
                        (λ w h. inr h))))))

  publish-IsReady : Triple IsReady (Builder.publish env c) (λ _. IsReady) HasStopped
  publish-IsReady =
      both_Triple (λ a w ready _. ready) (λ w _ stopped. stopped)
        (publish-Keeps env c IsReady (λ e p w h. h) (λ w h. h)) (publish-succeeds env c)

  run_one-Outcome :
      Triple Untouched (Builder.run_one env c) (λ _ w. IsBuilt env c × IsReady w) HasStopped
  unfolding Builder.run_one
  run_one-Outcome =
      then_Triple (λ _ w. IsBuilt env c × Untouched w) build_image-Untouched
        (λ _. with_fact (λ built.
          then_Triple (λ _. IsReady) deploy-IsReady
            (λ _. weaken-Triple (λ a w ready. (built, ready)) (λ w h. h) publish-IsReady)))

-- If `run_one` succeeds, then the polls of the deployment's build Job showed it succeeded before
-- any poll showed it failed, and of the deployments only the claimed one changed: it was marked
-- deploying with the image that was pushed and then ready with the URL of its host.
pub run_one-IsReady :
    (env : Env) (c : ClaimedDeployment) (w : World)
    → (Builder.run_one env c w).0 ≡ ok tt
    → IsBuilt env c × IsReady env c w.db.deployments (Builder.run_one env c w).1
run_one-IsReady env c w h =
    at_ok (λ v. IsBuilt env c × IsReady env c w.db.deployments v)
      (HasStopped env c w.db.deployments) _ h ((run_one-Outcome env c w.db.deployments).runs w refl)

-- If `run_one` fails, the deployments' rows are as they were, or the claimed one was marked
-- deploying; it was not marked ready.
pub run_one-HasStopped :
    (env : Env) (c : ClaimedDeployment) (w : World) (e : Text)
    → (Builder.run_one env c w).0 ≡ err e
    → HasStopped env c w.db.deployments (Builder.run_one env c w).1
run_one-HasStopped env c w e h =
    at_err (λ v. IsBuilt env c × IsReady env c w.db.deployments v)
      (HasStopped env c w.db.deployments) _ h ((run_one-Outcome env c w.db.deployments).runs w refl)
