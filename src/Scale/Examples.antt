-- ===== src/Scale/Examples.antt =====
-- A project of two Deployments on a server that keeps replicas alone.
use vercel_clone.Prelude.{ℕ, ◌≡◌, refl, false, Option, none, some, List, [], ◌∷◌}
use vercel_clone.Prelude.Text.{Text, codes, text_key}
use vercel_clone.Prelude.Result.{Result, ok}
use vercel_clone.Prelude.Dict.{Dict, get, put, get-put}
use vercel_clone.Store.Examples.Owners.{project_id, with_uuid, ada}
use vercel_clone.Store.Accounts.{is_uuid, authorise_project, get_project_for_owner}
use vercel_clone.Tenant.{tenant_namespace_for}
use vercel_clone.Http.{done}
use vercel_clone.Kube.{
  Server, Request, create, read, replace, remove, list, write_scale, DeploymentScale,
}
use vercel_clone.Kube.Memory.{path_key}
use vercel_clone.Kube.Queries.{list_deployments, patch_deployment_scale, get_deployment_scale}
use vercel_clone.Kube.Queries.Scaling.{Replicas}
use vercel_clone.Scale.{handle_project_scale, read_project_scale, fanout_scale, sum_scales}
use vercel_clone.Scale.Stopped.{Scales, handle_project_scale-Scales}

abbrev Scaled : Type 0
Scaled = Dict (Text × Text) ℕ

data Body : Type 0 where
  nothing : Body
  names : List Text → Body
  scale : DeploymentScale → Body

abbrev names_in : Scaled → List Text
names_in [] = []
names_in (((p, n), k) ∷ s) = n ∷ names_in s

abbrev scale_found : Option ℕ → Result (ℕ × Body)
scale_found none = ok (404, nothing)
scale_found (some k) = ok (200, scale (record { desired = k; ready = k }))

-- Every pod is ready at once.
abbrev serve : Request → Scaled → Result (ℕ × Body) × Scaled
serve (create path o) s = (ok (404, nothing), s)
serve (read path name) s = (scale_found (get s (path, name)), s)
serve (replace path name o) s = (ok (404, nothing), s)
serve (remove path name) s = (ok (404, nothing), s)
serve (list path selector) s = (ok (200, names (names_in s)), s)
serve (write_scale path name k) s = (ok (200, nothing), put s (path, name) k)

abbrev names_of : Body → Option (List Text)
names_of nothing = none
names_of (names ns) = some ns
names_of (scale d) = none

abbrev scale_of : Body → Option DeploymentScale
scale_of nothing = none
scale_of (names ns) = none
scale_of (scale d) = some d

abbrev scaler : Server
scaler = record {
  State = Scaled;
  Body = Body;
  serve = serve;
  decode_object = λ b. none;
  decode_names = names_of;
  decode_job = λ b. none;
  decode_pods = λ b. none;
  decode_pod = λ b. none;
  decode_scale = scale_of;
  decode_data = λ b. none;
  decode_base64 = λ s. none;
  encode_base64 = λ s. s;
  path_escape = λ s. s;
}

scaler_replicas : Replicas scaler
scaler_replicas = record {
  replicas = λ s p n. get s (p, n);
  read_keeps = λ path name s. refl;
  list_keeps = λ path selector s. refl;
  written = λ path name k s b h p n. get-put s (path, name) (p, n) k;
}

abbrev path : Text
path = codes "/apis/apps/v1/namespaces/paas-tenant-ada/deployments"

abbrev two_running : Scaled
two_running = ((path, codes "blog-1"), 1) ∷ ((path, codes "blog-2"), 1) ∷ []

stopped :
    handle_project_scale scaler project_id (some ada) (some (codes "stop")) with_uuid two_running
    ≡ (
      done (record {
        project_id = project_id;
        slug = codes "ada-site";
        running = false;
        replicas = 0;
        ready = 0;
        deployments = 2;
      }),
      ((path, codes "blog-1"), 0) ∷ ((path, codes "blog-2"), 0) ∷ [],
    )
unfolding handle_project_scale read_project_scale fanout_scale sum_scales list_deployments
    patch_deployment_scale get_deployment_scale authorise_project is_uuid get_project_for_owner
    tenant_namespace_for
stopped = refl

handle_project_scale-Scales_example :
    Scales scaler_replicas project_id (some ada) (codes "stop") with_uuid two_running (
      handle_project_scale scaler project_id (some ada) (some (codes "stop")) with_uuid two_running)
handle_project_scale-Scales_example =
    handle_project_scale-Scales scaler_replicas project_id (some ada) (codes "stop") with_uuid
      two_running
