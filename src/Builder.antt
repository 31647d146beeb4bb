-- ===== src/Builder.antt =====
-- The build worker (control-plane/builder.go) with `ensureTenant` (control-plane/tenant.go).
--
-- A claimed deployment is built by a Job and then published into the tenant's namespace. Every call
-- to the outside is an effect on a `World`. The names that a run derives from its claim are in Names, the
-- wait for the Job in Polling.
pub mod Effects
pub mod Names
pub mod Polling
pub mod Triples
pub mod Keeping
pub mod Confined
pub mod Private
pub mod Publish
pub mod Runs
pub mod Wait
pub mod Ready
mod Examples
use vercel_clone.Prelude.{
  ◌+◌, Bool, true, false, not, Option, none, some, List, [], ◌∷◌, ◌++◌, ◌==◌, if◌then◌else◌,
}
use vercel_clone.Prelude.Text.{Text, codes, text_key}
use vercel_clone.Prelude.Result.{Result, ok, err}
use vercel_clone.Prelude.Table.{update}
use vercel_clone.Store.{Database, Deployment}
use vercel_clone.Store.Queue.{
  ClaimedDeployment, mark_deploying, mark_ready, mark_failed_if_in_flight, requeue_stale,
  claim_next_queued,
}
use vercel_clone.Tenant.{tenant_namespace_for}
use Effects.{
  Effect, Env, Action, BuildJobInput, JobPhase, pure, raise, lift, ◌>>=◌, ◌>>◌, quietly, wrap, call,
  write,
}
pub use Names.{
  build_namespace, tenant_host_zone, build_timeout, short, build_job_name, deployment_log_url,
  undotted, custom_domain_route_name, git_secret_name, deploy_name, repo_path, push_image,
  pull_image, preview_host, production_host, live_url, is_production, build_job_input, deploy_input,
  alias_route, custom_route, preview_route,
}
pub use Polling.{has_failed, failure_reason, nil_for_long, first_nil, wait_for_job}

abbrev pub set_production : Text → Text → Database → Database
set_production project deployment db = record db {
  projects =
      update (λ p. p.id == project) (λ p. record p { production_deployment_id = some deployment })
        db.projects;
}

abbrev pub on_deployments : (List Deployment → List Deployment) → Database → Database
on_deployments f db = record db { deployments = f db.deployments }

-- The NetworkPolicies of `ensureTenant`, in the order in which they are applied, each behind the
-- word that its error has for it.
abbrev pub tenant_policies : List (Text × Text)
tenant_policies =
    (codes "default-deny", codes "default-deny")
    ∷ (codes "allow-traefik", codes "allow-traefik-ingress")
    ∷ (codes "allow-egress", codes "allow-public-egress")
    ∷ (codes "allow-paas-db", codes "allow-paas-db-egress")
    ∷ []

abbrev pub database_secret_of : Env → Text → Bool → Text
database_secret_of env project false = []
database_secret_of env project true = elim (env.database_secret project) [ none ↦ [] | some s ↦ s ]

module _ (env : Env) where
  -- postStatus: the state, the description and the target; its errors are logged.
  pub post_status : Text → Text → Text → Action Bool
  post_status state description target =
      quietly (call env (Effect.post_status state description target))

  create_job : BuildJobInput → Action (Unit {0})
  create_job j = wrap (codes "create job: ") (call env (Effect.create_job j))

  make_job : BuildJobInput → Option JobPhase → Action (Unit {0})
  make_job j none = create_job j
  make_job j (some p) =
      if has_failed p
      then call env (Effect.delete_job j.namespace j.name) >> create_job j
      else pure tt

  pub ensure_build_job : BuildJobInput → Action (Unit {0})
  ensure_build_job j = do
    call env (Effect.get_job_phase j.namespace j.name)
    existing ← λ w. (ok (env.phase w.trace), w)
    make_job j existing

  apply_policies : Text → List (Text × Text) → Action (Unit {0})
  apply_policies ns [] = pure tt
  apply_policies ns (p ∷ ps) = do
    wrap (codes "apply " ++ p.0 ++ codes ": ")
        (call env (Effect.apply_object (codes "NetworkPolicy") ns p.1))
    apply_policies ns ps

  -- A Secret without a `.dockerconfigjson` counts as not found.
  copy_pull_secret : Text → Option Text → Action (Unit {0})
  copy_pull_secret ns none = raise (codes "source secret paas-system/registry-dockercfg not found")
  copy_pull_secret ns (some body) = call env (Effect.apply_secret ns (codes "registry-dockercfg"))

  mirror_registry_pull_secret : Text → Action (Unit {0})
  mirror_registry_pull_secret ns = do
    call env (Effect.get_secret_data build_namespace (codes "registry-dockercfg"))
    copy_pull_secret ns (env.docker_config (codes "registry-dockercfg"))

  pub ensure_tenant : Text → Action (Unit {0})
  ensure_tenant ns = do
    wrap (codes "apply namespace " ++ ns ++ codes ": ")
        (call env (Effect.apply_object (codes "Namespace") [] ns))
    wrap (codes "apply quota: ")
        (call env (Effect.apply_object (codes "ResourceQuota") ns (codes "tenant")))
    wrap (codes "apply limitrange: ")
        (call env (Effect.apply_object (codes "LimitRange") ns (codes "tenant")))
    apply_policies ns tenant_policies
    wrap (codes "mirror registry pull secret: ") (mirror_registry_pull_secret ns)

  module _ (c : ClaimedDeployment) where
    -- Steps 1 to 4 of `runOne`: the image is built.
    pub build_image : Action (Unit {0})
    build_image = do
      post_status (codes "pending") (codes "building") (deployment_log_url c.deployment_id)
      wrap (codes "mint installation token: ")
          (call env (Effect.installation_token c.installation_id))
      wrap (codes "create git secret: ")
          (call env (Effect.apply_secret build_namespace (git_secret_name c)))
      wrap (codes "ensure job: ") (ensure_build_job (build_job_input c))
      start ← λ w. (ok (env.now w.trace), w)
      lift (
          wait_for_job env.decimal (start + build_timeout) false none
            (env.polls (build_job_name c.deployment_id)))

    pub require_tenant : Text → Action (Unit {0})
    require_tenant [] =
        raise (codes "deployment " ++ c.deployment_id ++ codes " has no tenant login")
    require_tenant (_ ∷ _) = pure tt

    apply_env : Text → Bool → Action (Unit {0})
    apply_env ns false = pure tt
    apply_env ns true =
        wrap (codes "apply env secret: ")
          (call env (Effect.apply_secret ns (codes "paas-env-" ++ c.slug)))

    -- Step 5: the objects of this deployment, in the namespace `ns`.
    pub apply_tenant_objects : Text → Action (Unit {0})
    apply_tenant_objects ns = do
      found ← quietly (call env (Effect.get_project_database c.project_id))
      has_env ← quietly (call env (Effect.map_project_env c.project_id))
      apply_env ns has_env
      wrap (codes "apply deployment: ") (
          call env (
            Effect.apply_deployment
              (deploy_input c ns (database_secret_of env c.project_id found))))
      wrap (codes "apply service: ") (call env (Effect.apply_service ns (deploy_name c)))
      wrap (codes "apply ingressroute: ")
          (call env (Effect.apply_ingress_route (preview_route c ns)))

    pub deploy : Action (Unit {0})
    deploy = do
      wrap (codes "mark deploying: ") (
          write env (Effect.mark_deploying c.deployment_id (pull_image c))
            (λ now. on_deployments (mark_deploying now c.deployment_id (pull_image c))))
      require_tenant c.tenant_login
      wrap (codes "ensure tenant namespace: ") (ensure_tenant (tenant_namespace_for c.tenant_login))
      apply_tenant_objects (tenant_namespace_for c.tenant_login)
      wrap (codes "mark ready: ") (
          write env (Effect.mark_ready c.deployment_id (live_url c))
            (λ now. on_deployments (mark_ready now c.deployment_id (live_url c))))

    -- The pointer to the current deployment moves when the alias did.
    move_pointer : Bool → Action Text
    move_pointer false = pure (live_url c)
    move_pointer true = do
      quietly (
          write env (Effect.set_production_deployment c.project_id c.deployment_id)
            (λ now. set_production c.project_id c.deployment_id))
      pure (codes "https://" ++ production_host c)

    apply_domains : Text → List Text → Action (Unit {0})
    apply_domains ns [] = pure tt
    apply_domains ns (h ∷ hs) =
        quietly (call env (Effect.apply_ingress_route (custom_route c ns h))) >>= λ _.
        apply_domains ns hs

    apply_listed : Text → Bool → Action (Unit {0})
    apply_listed ns false = pure tt
    apply_listed ns true = apply_domains ns (env.domains c.project_id)

    -- deployments and services of the project with another commit.
    old_selector : Text
    old_selector = codes "paas.project=" ++ c.slug ++ codes ",paas.commit!=" ++ short c.commit_sha

    -- Production alias, custom domains and clean-up: no error of theirs fails the deployment.
    pub promote : Text → Action Text
    promote ns = do
      moved ← quietly (call env (Effect.apply_ingress_route (alias_route c ns)))
      url ← move_pointer moved
      listed ← quietly (call env (Effect.list_verified_domains c.project_id))
      apply_listed ns listed
      quietly (call env (Effect.delete_all_by_label ns (codes "deployments") old_selector))
      quietly (call env (Effect.delete_all_by_label ns (codes "services") old_selector))
      pure url

    pub publish : Action (Unit {0})
    publish = do
      url ←
          if is_production c
          then promote (tenant_namespace_for c.tenant_login)
          else pure (live_url c)
      post_status (codes "success") (codes "deployed") url
      pure tt

    pub run_one : Action (Unit {0})
    run_one = do build_image; deploy; publish

    settle : Result (Unit {0}) → Action (Unit {0})
    settle (ok _) = pure tt
    settle (err e) = do
      quietly (
          write env (Effect.mark_failed_if_in_flight c.deployment_id e)
            (λ now. on_deployments (mark_failed_if_in_flight now c.deployment_id e)))
      post_status (codes "failure") e (deployment_log_url c.deployment_id)
      pure tt

    pub run_and_settle : Action (Unit {0})
    run_and_settle w = let (r, w') = run_one w in settle r w'

  work : Result (Option ClaimedDeployment) → Action (Unit {0})
  work (err e) = raise (codes "claim: " ++ e)
  work (ok none) = pure tt
  work (ok (some c)) = run_and_settle c

  -- One tick of the worker. (A failing query leaves the database as it was.)
  pub tick : Action (Unit {0})
  tick w =
      let (n, requeued) = requeue_stale (env.now w.trace) build_timeout w.db.deployments in
      let db = record w.db { deployments = requeued } in
      let (r, claimed) = claim_next_queued env.first (env.now w.trace) db in
      work r (record w { db = claimed })
