-- ===== src/Scale.antt =====
-- Stopping and starting a project's Deployments (control-plane/scale_handlers.go).
--
-- The goroutines of `fanoutScale` end in any order; the model makes the calls in the order of the
-- list, and the theorem is about every list.
pub mod Stopped
mod Examples
use vercel_clone.Prelude.{
  ℕ, ◌+◌, ◌*◌, Bool, true, false, not, Option, none, some, List, [], ◌∷◌, ◌++◌, ltb, nat_eq, length,
  ◌==◌, if◌then◌else◌,
}
use vercel_clone.Prelude.Text.{Text, codes, text_key}
use vercel_clone.Prelude.Result.{Result, ok, err}
use vercel_clone.Store.{Project, User, Database}
use vercel_clone.Store.Accounts.{authorise_project}
use vercel_clone.Tenant.{tenant_namespace_for}
use vercel_clone.Http.{Answer, done, refused, with_project}
use vercel_clone.Domains.Handlers.{tenant_login}
use vercel_clone.Kube.{Server, Call, DeploymentScale}
use vercel_clone.Kube.Queries.{list_deployments, patch_deployment_scale, get_deployment_scale}

pub record ScaleState : Type 0 where
  pub project_id : Text
  pub slug : Text
  pub running : Bool
  pub replicas : ℕ
  pub ready : ℕ
  pub deployments : ℕ

abbrev pub selector : Project → Text
selector p = codes "paas.project=" ++ p.slug

-- The state of a project with these totals over so many Deployments.
abbrev pub scale_state : Project → ℕ → DeploymentScale → ScaleState
scale_state p n total = record {
  project_id = p.id;
  slug = p.slug;
  running = ltb 0 total.ready;
  replicas = total.desired;
  ready = total.ready;
  deployments = n;
}

abbrev pub no_scale : DeploymentScale
no_scale = record { desired = 0; ready = 0 }

-- A Deployment that is gone adds nothing.
abbrev pub add_scale : Option DeploymentScale → DeploymentScale → DeploymentScale
add_scale none total = total
add_scale (some d) total = record {
  desired = total.desired + d.desired;
  ready = total.ready + d.ready;
}

module _ (S : Server) where
  open S use {State}

  and_on :
      Result (Option DeploymentScale) × State
      → (Option DeploymentScale → Call S DeploymentScale)
      → Result DeploymentScale × State
  and_on (err e, s) next = (err e, s)
  and_on (ok d, s) next = next d s

  unfoldable pub sum_scales : Text → List Text → DeploymentScale → Call S DeploymentScale
  unfolding and_on
  sum_scales ns [] total s = (ok total, s)
  sum_scales ns (name ∷ names) total s =
      and_on (get_deployment_scale S ns name s) (λ d. sum_scales ns names (add_scale d total))

  summed : Project → ℕ → Result DeploymentScale × State → Result ScaleState × State
  summed p n (err e, s) = (err e, s)
  summed p n (ok total, s) = (ok (scale_state p n total), s)

  scale_listed : Text → Project → Result (List Text) × State → Result ScaleState × State
  unfolding summed
  scale_listed ns p (err e, s) = (err e, s)
  scale_listed ns p (ok names, s) = summed p (length names) (sum_scales ns names no_scale s)

  unfoldable pub read_project_scale : Text → Project → Call S ScaleState
  unfolding scale_listed
  read_project_scale login p s =
      if login == []
      then (ok (scale_state p 0 no_scale), s)
      else (let ns = tenant_namespace_for login in
          scale_listed ns p (list_deployments S ns (selector p) s))

  collected : Text → Result (Unit {0}) → List Text → List Text
  collected name (ok _) errs = errs
  collected name (err e) errs = (name ++ codes ": " ++ e) ∷ errs

  -- The errors of the calls; every call is made.
  unfoldable pub fanout_scale : Text → List Text → ℕ → State → List Text × State
  unfolding collected
  fanout_scale ns [] k s = ([], s)
  fanout_scale ns (name ∷ names) k s =
      let (r, s1) = patch_deployment_scale S ns name k s in
      let (errs, s2) = fanout_scale ns names k s1 in (collected name r errs, s2)

  -- The state as it is read back, or the hopes without it.
  answer_scaled : Project → ℕ → ℕ → Result ScaleState × State → Answer ScaleState × State
  answer_scaled p k n (ok state, s) = (done state, s)
  answer_scaled p k n (err e, s) =
      (done (scale_state p n (record { desired = k * n; ready = 0 })), s)

  fanned_out : Text → Project → ℕ → ℕ → List Text × State → Answer ScaleState × State
  unfolding answer_scaled
  fanned_out login p k n ([], s) = answer_scaled p k n (read_project_scale login p s)
  fanned_out login p k n (e ∷ errs, s) = (refused 500, s)

  scale_names : Text → Project → ℕ → Result (List Text) × State → Answer ScaleState × State
  unfolding fanned_out
  scale_names login p k (err e, s) = (refused 500, s)
  scale_names login p k (ok [], s) = (refused 400, s)
  scale_names login p k (ok (n ∷ ns), s) =
      fanned_out login p k (length (n ∷ ns))
        (fanout_scale (tenant_namespace_for login) (n ∷ ns) k s)

  scale_to : Text → Project → ℕ → State → Answer ScaleState × State
  unfolding scale_names
  scale_to login p k s =
      if login == []
      then (refused 400, s)
      else scale_names login p k (list_deployments S (tenant_namespace_for login) (selector p) s)

  -- `none` for a body that does not decode.
  scale_action : Text → Project → Option Text → State → Answer ScaleState × State
  unfolding scale_to
  scale_action login p none s = (refused 400, s)
  scale_action login p (some action) s =
      if action == codes "start"
      then scale_to login p 1 s
      else if action == codes "stop"
      then scale_to login p 0 s
      else (refused 400, s)

  unfoldable pub handle_project_scale :
      Text → Option User → Option Text → Database → State → Answer ScaleState × State
  unfolding scale_action
  handle_project_scale id u action db s =
      with_project (authorise_project id u db) s (λ p. scale_action (tenant_login p db) p action s)

  answer_state : Result ScaleState × State → Answer ScaleState × State
  answer_state (err e, s) = (refused 500, s)
  answer_state (ok state, s) = (done state, s)

  unfoldable pub handle_project_status :
      Text → Option User → Database → State → Answer ScaleState × State
  unfolding answer_state
  handle_project_status id u db s =
      with_project (authorise_project id u db) s
        (λ p. answer_state (read_project_scale (tenant_login p db) p s))
