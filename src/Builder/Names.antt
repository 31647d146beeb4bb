-- ===== src/Builder/Names.antt =====
-- What `runOne` derives from a claim (control-plane/builder.go): names, hosts, images, the input of
-- its Job and its Deployment, and its routes.
use vercel_clone.Prelude.{
  ℕ, Bool, not, ◌||◌, ◌++◌, ltb, nat_eq, ◌==◌, if◌then◌else◌, length, take, keep,
}
use mathlib.Core.List.{map}
use vercel_clone.Prelude.Text.{Text, codes, text_key}
use vercel_clone.Store.Queue.{ClaimedDeployment}
use vercel_clone.Builder.Effects.{Route, DeployInput, BuildJobInput}

abbrev pub build_namespace : Text
build_namespace = codes "paas-system"

abbrev pub tenant_host_zone : Text
tenant_host_zone = codes "spinup.in"

-- 15 minutes.
abbrev pub build_timeout : ℕ
build_timeout = 900

abbrev pub short : Text → Text
short sha = if ltb (length sha) 8 then sha else take 8 sha

-- The first eight bytes of the id, without dashes. (An id is a UUID, so it is long enough.)
abbrev pub build_job_name : Text → Text
build_job_name id = codes "build-" ++ keep (λ b. not (nat_eq b b'-')) (take 8 id)

abbrev pub deployment_log_url : Text → Text
deployment_log_url id = codes "https://spinup.in/#d=" ++ id

abbrev pub undotted : ℕ → ℕ
undotted b = if nat_eq b b'.' || nat_eq b b'_' then b'-' else b

abbrev pub custom_domain_route_name : Text → Text
custom_domain_route_name host = codes "custom-" ++ map undotted host

-- The names that `runOne` derives from the claim.
abbrev pub git_secret_name : ClaimedDeployment → Text
git_secret_name c = build_job_name c.deployment_id ++ codes "-git"

abbrev pub deploy_name : ClaimedDeployment → Text
deploy_name c = c.slug ++ codes "-" ++ short c.commit_sha

abbrev pub repo_path : ClaimedDeployment → Text
repo_path c = c.slug ++ codes ":" ++ short c.commit_sha

abbrev pub push_image : ClaimedDeployment → Text
push_image c = codes "registry.paas-system.svc.cluster.local:5000/" ++ repo_path c

abbrev pub pull_image : ClaimedDeployment → Text
pull_image c = codes "registry.spinup.in/" ++ repo_path c

abbrev pub preview_host : ClaimedDeployment → Text
preview_host c = deploy_name c ++ codes "." ++ tenant_host_zone

abbrev pub production_host : ClaimedDeployment → Text
production_host c = c.slug ++ codes "." ++ tenant_host_zone

abbrev pub live_url : ClaimedDeployment → Text
live_url c = codes "https://" ++ preview_host c

-- c.Ref == "refs/heads/" + c.ProductionBranch.
abbrev pub is_production : ClaimedDeployment → Bool
is_production c = c.ref == (codes "refs/heads/" ++ c.production_branch)

abbrev pub build_job_input : ClaimedDeployment → BuildJobInput
build_job_input c = record {
  name = build_job_name c.deployment_id;
  namespace = build_namespace;
  destination = push_image c;
  git_secret_name = git_secret_name c;
  deployment_id = c.deployment_id;
  project_slug = c.slug;
}

abbrev pub deploy_input : ClaimedDeployment → Text → Text → DeployInput
deploy_input c namespace db_secret = record {
  name = deploy_name c;
  namespace = namespace;
  slug = c.slug;
  short_sha = short c.commit_sha;
  image = pull_image c;
  deployment_id = c.deployment_id;
  commit_sha = c.commit_sha;
  db_secret_name = db_secret;
  env_secret_name = codes "paas-env-" ++ c.slug;
}

abbrev pub alias_route : ClaimedDeployment → Text → Route
alias_route c ns = record {
  namespace = ns;
  name = codes "prod-" ++ c.slug;
  host = production_host c;
  service = deploy_name c;
}

abbrev pub custom_route : ClaimedDeployment → Text → Text → Route
custom_route c ns host = record {
  namespace = ns;
  name = custom_domain_route_name host;
  host = host;
  service = deploy_name c;
}

abbrev pub preview_route : ClaimedDeployment → Text → Route
preview_route c ns = record {
  namespace = ns;
  name = deploy_name c;
  host = preview_host c;
  service = deploy_name c;
}
