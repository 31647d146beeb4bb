-- ===== src/Builder/Runs.antt =====
-- A whole run of the builder: where it may reach, and what is left alone when it does not get to
-- the end or when the commit is not one of the production branch.
use vercel_clone.Prelude.{◌≡◌, refl, false, All}
use vercel_clone.Prelude.Text.{Text}
use vercel_clone.Prelude.Result.{err}
use vercel_clone.Store.Queue.{ClaimedDeployment}
use vercel_clone.Builder.Effects.{Effect, Env, World}
use vercel_clone.Builder.Triples.{Keeps, then_Triple, Anywhere, at_err}
use vercel_clone.Builder.Keeping.{Calls, accept-Calls, then_Keeps, pure-Keeps, Keeps-Calls}
use vercel_clone.Builder.Publish.{publish-succeeds, publish-Keeps}
use vercel_clone.Builder.Confined.{Confined, cuts_over}
use vercel_clone.Builder.Private.{post_status-Calls, build_image-Calls, deploy-Calls}
use vercel_clone.Builder

module _ (env : Env) (c : ClaimedDeployment) where
  publish-Confined : Keeps (Calls (Confined c)) (Builder.publish env c)
  publish-Confined = publish-Keeps env c _ (accept-Calls _) (λ w h. ((refl, refl), h))

  run_one-Keeps : Keeps (Calls (Confined c)) (Builder.run_one env c)
  unfolding Builder.run_one
  run_one-Keeps =
      then_Keeps (build_image-Calls env c (Confined c) (λ e h. h.0))
        (λ _. then_Keeps (deploy-Calls env c (Confined c) (λ e h. h.0)) (λ _. publish-Confined))

  -- If every call made so far was confined to the deployment c, then so is every call after
  -- `run_one c`, whether it succeeds or fails, and whatever calls fail on the way: the only secret
  -- it writes outside the tenant's namespace is the git secret of the build in paas-system, the
  -- only Job it makes or deletes is the deployment's build Job there, and all other objects, routes
  -- and deletions are in the namespace of the claim's login.
  pub run_one-Confined :
      (w : World) → All (Confined c) w.trace → All (Confined c) (Builder.run_one env c w).1.trace
  run_one-Confined w h = Keeps-Calls (run_one-Keeps) w h

  CutsNothing : Effect → Type 0
  CutsNothing e = cuts_over c e ≡ false

  publish-CutsNothing :
      Builder.is_production c ≡ false → Keeps (Calls CutsNothing) (Builder.publish env c)
  unfolding Builder.publish CutsNothing
  publish-CutsNothing preview = rw preview (
      then_Keeps pure-Keeps (λ url.
        then_Keeps (post_status-Calls env c CutsNothing (λ e h. h.1) _ _ _) (λ _. pure-Keeps)))

  -- If no call so far moved the production host, recorded a new production deployment or deleted
  -- the project's other deployments, then none has after a run for a ref other than the production
  -- branch.
  pub run_one-preview :
      Builder.is_production c ≡ false
      → (w : World) → All (λ e. cuts_over c e ≡ false) w.trace
      → All (λ e. cuts_over c e ≡ false) (Builder.run_one env c w).1.trace
  unfolding Builder.run_one CutsNothing
  run_one-preview preview w h =
      Keeps-Calls
        (then_Keeps (build_image-Calls env c CutsNothing (λ e k. k.1)) (λ _.
          then_Keeps (deploy-Calls env c CutsNothing (λ e k. k.1))
            (λ _. publish-CutsNothing preview)))
        w h

  -- If no call so far moved the production host, recorded a new production deployment or deleted
  -- the project's other deployments, then none has after a run that returns an error.
  pub run_one-failed :
      (w : World) (e : Text)
      → All (λ e. cuts_over c e ≡ false) w.trace
      → (Builder.run_one env c w).0 ≡ err e
      → All (λ e. cuts_over c e ≡ false) (Builder.run_one env c w).1.trace
  unfolding Builder.run_one CutsNothing
  run_one-failed w e h failed = at_err Anywhere (Calls CutsNothing) _ failed (
      (then_Triple (λ _. Calls CutsNothing) (build_image-Calls env c CutsNothing (λ e k. k.1))
          (λ _.
            then_Triple (λ _. Calls CutsNothing) (deploy-Calls env c CutsNothing (λ e k. k.1))
              (λ _. publish-succeeds env c))).runs
        w h)
