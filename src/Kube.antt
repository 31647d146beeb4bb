-- ===== src/Kube.antt =====
-- The client of the Kubernetes API (control-plane/k8s.go).
--
-- The API server is a parameter: a state, and an answer to each request. `http` and `json` are part
-- of it: a request is answered with a status and a body, or with the error of the transport, and the
-- decoders say what `json.Unmarshal` makes of a body. A path is kept as that of its collection and
-- the name behind it, and of an error's text only the words before its status.
pub mod Contents
pub mod Memory
pub mod Pods
pub mod Queries
mod Examples
use vercel_clone.Prelude.{
  ℕ, Bool, true, false, not, ◌&&◌, ◌||◌, Option, none, some, List, [], ◌∷◌, ◌++◌, nat_eq, ltb, leb,
  ◌==◌, take, if◌then◌else◌,
}
use vercel_clone.Prelude.Text.{Text, codes, text_key, trim_space, has_prefix}
use vercel_clone.Prelude.Result.{Result, ok, err}
use vercel_clone.Prelude.Dict.{Dict}
use vercel_clone.Prelude.Json.{Json, str, obj, member, set_field, nested_string, Fields}

pub data Request : Type 0 where
  -- POST to a collection.
  create : Text → Json → Request
  -- GET, PUT and DELETE of a name in a collection.
  read : Text → Text → Request
  replace : Text → Text → Json → Request
  remove : Text → Text → Request
  -- GET of a collection by a label selector.
  list : Text → Text → Request
  -- PUT of the replicas to the `/scale` of a name.
  write_scale : Text → Text → ℕ → Request

pub record JobCondition : Type 0 where
  pub type : Text
  pub status : Text
  pub reason : Text
  pub message : Text

pub record JobStatus : Type 0 where
  pub succeeded : ℕ
  pub failed : ℕ
  pub active : ℕ
  pub completion_time : Option ℕ
  pub conditions : List JobCondition

-- What the list of pods says of one.
pub record PodItem : Type 0 where
  pub name : Text
  pub creation_timestamp : ℕ
  pub deletion_timestamp : Option ℕ
  pub phase : Text

pub record ContainerStatus : Type 0 where
  pub name : Text
  pub waiting : Option Text
  pub running : Bool
  pub terminated : Option Text

pub record DeploymentScale : Type 0 where
  pub desired : ℕ
  pub ready : ℕ

pub record Server : Type 1 where
  pub State : Type 0
  pub Body : Type 0
  pub serve : Request → State → Result (ℕ × Body) × State
  pub decode_object : Body → Option Json
  pub decode_names : Body → Option (List Text)
  pub decode_job : Body → Option JobStatus
  pub decode_pods : Body → Option (List PodItem)
  -- The statuses of the init containers, and of the containers.
  pub decode_pod : Body → Option (List ContainerStatus × List ContainerStatus)
  pub decode_scale : Body → Option DeploymentScale
  -- The `data` of a Secret.
  pub decode_data : Body → Option (Dict Text Text)
  pub decode_base64 : Text → Option Text
  pub encode_base64 : Text → Text
  -- url.PathEscape.
  pub path_escape : Text → Text

-- 2xx.
abbrev pub is_success : ℕ → Bool
is_success status = leb 200 status && ltb status 300

-- `md["resourceVersion"] = rv` in the object's metadata, which every object of the program has.
set_in : Text → Json → Option Json
set_in rv (obj md) = some (obj (set_field (codes "resourceVersion") (str rv) md))
set_in rv v = none

with_metadata : Fields → Option Json → Json
with_metadata fs none = obj fs
with_metadata fs (some md) = obj (set_field (codes "metadata") md fs)

metadata_set : Text → Fields → Option Json → Json
unfolding set_in with_metadata
metadata_set rv fs none = obj fs
metadata_set rv fs (some md) = with_metadata fs (set_in rv md)

unfoldable pub set_version : Text → Json → Json
unfolding metadata_set
set_version rv (obj fs) = metadata_set rv fs (member (codes "metadata") (obj fs))
set_version rv v = v

-- `rv, _ := md["resourceVersion"].(string)`.
or_empty : Option Text → Text
or_empty none = []
or_empty (some s) = s

unfoldable pub version_of : Json → Text
unfolding or_empty
version_of v = or_empty (nested_string (codes "metadata" ∷ codes "resourceVersion" ∷ []) v)

abbrev pub snippet : Text → Text
snippet b = trim_space (take 400 b)

module _ (S : Server) where
  open S use {
    State, Body, serve, decode_object, decode_names, decode_job, decode_scale, decode_data,
    decode_base64, path_escape,
  }

  abbrev pub Call : Type 0 → Type 0
  Call A = State → Result A × State

  -- A collection of a namespace.
  abbrev pub collection : Text → Text → Text → Text
  collection api namespace resource =
      api ++ codes "/namespaces/" ++ path_escape namespace ++ codes "/" ++ resource

  replaced : Result (ℕ × Body) × State → Result (Unit {0}) × State
  replaced (err e, s) = (err e, s)
  replaced (ok (status, body), s) =
      if is_success status then (ok tt, s) else (err (codes "update"), s)

  versioned : Text → Text → Json → Option Json → Call (Unit {0})
  unfolding replaced
  versioned path name o none s = (err (codes "decode existing"), s)
  versioned path name o (some existing) s =
      replaced (serve (replace path name (set_version (version_of existing) o)) s)

  current : Text → Text → Json → Result (ℕ × Body) × State → Result (Unit {0}) × State
  unfolding versioned
  current path name o (err e, s) = (err e, s)
  current path name o (ok (status, body), s) =
      if not (nat_eq status 200)
      then (err (codes "get"), s)
      else versioned path name o (decode_object body) s

  created : Text → Text → Json → Result (ℕ × Body) × State → Result (Unit {0}) × State
  unfolding current
  created path name o (err e, s) = (err e, s)
  created path name o (ok (status, body), s) =
      if is_success status
      then (ok tt, s)
      else if not (nat_eq status 409)
      then (err (codes "create"), s)
      else current path name o (serve (read path name) s)

  -- Create, and on a conflict replace the version that is there.
  unfoldable pub apply : Text → Text → Json → Call (Unit {0})
  unfolding created
  apply path name o s = created path name o (serve (create path o) s)

  unfoldable pub apply_deployment : Text → Text → Json → Call (Unit {0})
  apply_deployment ns name o =
      apply (collection (codes "/apis/apps/v1") ns (codes "deployments")) name o

  unfoldable pub apply_service : Text → Text → Json → Call (Unit {0})
  apply_service ns name o = apply (collection (codes "/api/v1") ns (codes "services")) name o

  unfoldable pub apply_ingress_route : Text → Text → Json → Call (Unit {0})
  apply_ingress_route ns name o =
      apply (collection (codes "/apis/traefik.io/v1alpha1") ns (codes "ingressroutes")) name o

  unfoldable pub apply_namespace : Text → Json → Call (Unit {0})
  apply_namespace name o = apply (codes "/api/v1/namespaces") name o

  unfoldable pub apply_resource_quota : Text → Text → Json → Call (Unit {0})
  apply_resource_quota ns name o =
      apply (collection (codes "/api/v1") ns (codes "resourcequotas")) name o

  unfoldable pub apply_limit_range : Text → Text → Json → Call (Unit {0})
  apply_limit_range ns name o = apply (collection (codes "/api/v1") ns (codes "limitranges")) name o

  unfoldable pub apply_network_policy : Text → Text → Json → Call (Unit {0})
  apply_network_policy ns name o =
      apply (collection (codes "/apis/networking.k8s.io/v1") ns (codes "networkpolicies")) name o

  job_created : Result (ℕ × Body) → Result (Unit {0})
  job_created (err e) = err e
  job_created (ok (status, body)) =
      if nat_eq status 409
      then err (codes "job already exists")
      else if not (is_success status)
      then err (codes "create job")
      else ok tt

  unfoldable pub create_job : Text → Json → Call (Unit {0})
  unfolding job_created
  create_job ns job s =
      let (r, s') = serve (create (collection (codes "/apis/batch/v1") ns (codes "jobs")) job) s in
      (job_created r, s')

  job_deleted : Result (ℕ × Body) → Result (Unit {0})
  job_deleted (err e) = err e
  job_deleted (ok (status, body)) =
      if nat_eq status 404
      then ok tt
      else if not (is_success status)
      then err (codes "delete job")
      else ok tt

  unfoldable pub delete_job : Text → Text → Call (Unit {0})
  unfolding job_deleted
  delete_job ns name s =
      let (r, s') = serve (remove (collection (codes "/apis/batch/v1") ns (codes "jobs")) name) s in
      (job_deleted r, s')
