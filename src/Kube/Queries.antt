-- ===== src/Kube/Queries.antt =====
-- What the client of the Kubernetes API reads and deletes (control-plane/k8s.go): Jobs, Secrets,
-- Deployments, and the resources of a label.
pub mod Deletion
pub mod Scaling
use vercel_clone.Prelude.{
  ℕ, Bool, true, false, not, ◌&&◌, Option, none, some, List, [], ◌∷◌, ◌++◌, nat_eq, ◌==◌,
  if◌then◌else◌,
}
use vercel_clone.Prelude.Text.{Text, codes, text_key, trim_space, trim}
use vercel_clone.Prelude.Result.{Result, ok, err}
use vercel_clone.Prelude.Dict.{Dict, put}
use vercel_clone.Prelude.Json.{Json, num, object, text, str, ◌⇒◌}
use vercel_clone.Kube.{
  JobCondition, JobStatus, DeploymentScale, Server, Request, read, remove, list, write_scale,
  is_success, Call, collection,
}

pub record JobPhase : Type 0 where
  pub succeeded : ℕ
  pub failed : ℕ
  pub active : ℕ
  pub failure_msg : Text
  pub completed_at : Option ℕ

-- The message of the last condition that says that the Job failed.
abbrev pub failure_of : Text → List JobCondition → Text
failure_of msg [] = msg
failure_of msg (c ∷ cs) =
    failure_of
      (if c.type == codes "Failed" && c.status == codes "True"
        then trim_space (c.reason ++ codes ": " ++ c.message)
        else msg)
      cs

phase_of : JobStatus → JobPhase
phase_of j = record {
  succeeded = j.succeeded;
  failed = j.failed;
  active = j.active;
  failure_msg = failure_of [] j.conditions;
  completed_at = j.completion_time;
}

decoded_phase : Option JobStatus → Result (Option JobPhase)
unfolding phase_of
decoded_phase none = err (codes "decode job")
decoded_phase (some j) = ok (some (phase_of j))

-- The prefix of a group's paths, given with or without its slashes.
abbrev pub rooted : Text → Text
rooted api = b'/' ∷ trim (λ c. nat_eq c b'/') api

module _ (S : Server) where
  open S use {
    State, Body, serve, decode_names, decode_job, decode_scale, decode_data, decode_base64,
  }

  phase_answer : Result (ℕ × Body) → Result (Option JobPhase)
  unfolding decoded_phase
  phase_answer (err e) = err e
  phase_answer (ok (status, body)) =
      if nat_eq status 404
      then ok none
      else if not (is_success status)
      then err (codes "get job")
      else decoded_phase (decode_job body)

  -- No phase if the Job does not exist.
  unfoldable pub get_job_phase : Text → Text → Call S (Option JobPhase)
  unfolding phase_answer
  get_job_phase ns name s =
      let (r, s') = serve (read (collection S (codes "/apis/batch/v1") ns (codes "jobs")) name) s in
      (phase_answer r, s')

  decoded_key : Text → Option Text → Result (Dict Text Text) → Result (Dict Text Text)
  decoded_key k none rest = err (codes "decode key " ++ k)
  decoded_key k (some v) (err e) = err e
  decoded_key k (some v) (ok m) = ok ((k, v) ∷ m)

  -- Every value of the map is decoded, or none is given.
  decoded_data : Dict Text Text → Result (Dict Text Text)
  unfolding decoded_key
  decoded_data [] = ok []
  decoded_data ((k, v) ∷ m) = decoded_key k (decode_base64 v) (decoded_data m)

  decoded_secret : Option (Dict Text Text) → Result (Dict Text Text)
  unfolding decoded_data
  decoded_secret none = err (codes "decode secret")
  decoded_secret (some m) = decoded_data m

  found_secret : Result (Dict Text Text) → Result (Option (Dict Text Text))
  found_secret (err e) = err e
  found_secret (ok m) = ok (some m)

  data_answer : Result (ℕ × Body) → Result (Option (Dict Text Text))
  unfolding decoded_secret found_secret
  data_answer (err e) = err e
  data_answer (ok (status, body)) =
      if nat_eq status 404
      then ok none
      else if not (is_success status)
      then err (codes "get secret")
      else found_secret (decoded_secret (decode_data body))

  unfoldable pub get_secret_data : Text → Text → Call S (Option (Dict Text Text))
  unfolding data_answer
  get_secret_data ns name s =
      let (r, s') = serve (read (collection S (codes "/api/v1") ns (codes "secrets")) name) s in
      (data_answer r, s')

  decoded_names : Option (List Text) → Result (List Text)
  decoded_names none = err (codes "decode list")
  decoded_names (some names) = ok names

  names_answer : Result (ℕ × Body) → Result (List Text)
  unfolding decoded_names
  names_answer (err e) = err e
  names_answer (ok (status, body)) =
      if not (nat_eq status 200)
      then err (codes "list resources")
      else decoded_names (decode_names body)

  unfoldable pub list_resource_names : Text → Text → Call S (List Text)
  unfolding names_answer
  list_resource_names path selector s =
      let (r, s') = serve (list path selector) s in (names_answer r, s')

  unfoldable pub list_deployments : Text → Text → Call S (List Text)
  unfolding names_answer
  list_deployments ns selector s =
      let (r, s') =
        serve (list (collection S (codes "/apis/apps/v1") ns (codes "deployments")) selector) s in
      (names_answer r, s')

  deletion_answer : Result (ℕ × Body) → Result (Unit {0})
  deletion_answer (err e) = err e
  deletion_answer (ok (status, body)) =
      if nat_eq status 404
      then ok tt
      else if nat_eq status 200
      then ok tt
      else err (codes "delete resource")

  -- A name that is not there is deleted.
  unfoldable pub delete_resource : Text → Text → Call S (Unit {0})
  unfolding deletion_answer
  delete_resource path name s = let (r, s') = serve (remove path name) s in (deletion_answer r, s')

  unfoldable pub delete_secret : Text → Text → Call S (Unit {0})
  unfolding delete_resource
  delete_secret ns name = delete_resource (collection S (codes "/api/v1") ns (codes "secrets")) name

  unfoldable pub delete_ingress_route : Text → Text → Call S (Unit {0})
  unfolding delete_resource
  delete_ingress_route ns name =
      delete_resource (collection S (codes "/apis/traefik.io/v1alpha1") ns (codes "ingressroutes"))
        name

  go_on : Result (Unit {0}) × State → Call S (Unit {0}) → Result (Unit {0}) × State
  go_on (err e, s) rest = (err e, s)
  go_on (ok _, s) rest = rest s

  -- The loop over the names; the first failure ends it.
  unfoldable pub delete_names : Text → List Text → Call S (Unit {0})
  unfolding go_on
  delete_names path [] s = (ok tt, s)
  delete_names path (name ∷ names) s = go_on (delete_resource path name s) (delete_names path names)

  delete_listed : Text → Result (List Text) × State → Result (Unit {0}) × State
  delete_listed path (err e, s) = (err e, s)
  delete_listed path (ok names, s) = delete_names path names s

  unfoldable pub delete_all_by_label : Text → Text → Text → Text → Call S (Unit {0})
  unfolding delete_listed
  delete_all_by_label ns api resource selector s =
      let path = collection S (rooted api) ns resource in
      delete_listed path (list_resource_names path selector s)

  scaled : Result (ℕ × Body) → Result (Unit {0})
  scaled (err e) = err e
  scaled (ok (status, body)) =
      if not (nat_eq status 200) then err (codes "scale deployment") else ok tt

  unfoldable pub patch_deployment_scale : Text → Text → ℕ → Call S (Unit {0})
  unfolding scaled
  patch_deployment_scale ns name replicas s =
      let (r, s') =
        serve
          (write_scale (collection S (codes "/apis/apps/v1") ns (codes "deployments")) name
            replicas)
          s in
      (scaled r, s')

  decoded_scale : Option DeploymentScale → Result (Option DeploymentScale)
  decoded_scale none = err (codes "decode deployment")
  decoded_scale (some d) = ok (some d)

  scale_answer : Result (ℕ × Body) → Result (Option DeploymentScale)
  unfolding decoded_scale
  scale_answer (err e) = err e
  scale_answer (ok (status, body)) =
      if nat_eq status 404
      then ok none
      else if not (nat_eq status 200)
      then err (codes "get deployment")
      else decoded_scale (decode_scale body)

  -- Nothing if the Deployment does not exist.
  unfoldable pub get_deployment_scale : Text → Text → Call S (Option DeploymentScale)
  unfolding scale_answer
  get_deployment_scale ns name s =
      let (r, s') =
        serve (read (collection S (codes "/apis/apps/v1") ns (codes "deployments")) name) s in
      (scale_answer r, s')
