-- ===== src/Builder/Effects.antt =====
-- What the builder does to the world around it, in order, and what the world answers.
--
-- GitHub, the Kubernetes API and the database connection are not under the control plane's control:
-- an `Env` says of each call, with the calls made before it at hand, whether it fails and what it
-- returns.
use vercel_clone.Prelude.{ℕ, Bool, true, false, Option, none, some, List, ◌∷◌, ◌++◌}
use vercel_clone.Prelude.Text.{Text}
use vercel_clone.Prelude.Result.{Result, ok, err}
use vercel_clone.Store.{Database}
use vercel_clone.Store.Queue.{Tie}

-- A Traefik IngressRoute: Host(`host`) goes to a Service of the namespace.
pub record Route : Type 0 where
  pub namespace : Text
  pub name : Text
  pub host : Text
  pub service : Text

pub record BuildJobInput : Type 0 where
  pub name : Text
  pub namespace : Text
  pub destination : Text
  pub git_secret_name : Text
  pub deployment_id : Text
  pub project_slug : Text

-- What `deploymentManifest` fills in.
pub record DeployInput : Type 0 where
  pub name : Text
  pub namespace : Text
  pub slug : Text
  pub short_sha : Text
  pub image : Text
  pub deployment_id : Text
  pub commit_sha : Text
  pub db_secret_name : Text
  pub env_secret_name : Text

pub data Effect : Type 0 where
  post_status : Text → Text → Text → Effect
  installation_token : ℕ → Effect
  apply_secret : Text → Text → Effect
  get_job_phase : Text → Text → Effect
  delete_job : Text → Text → Effect
  create_job : BuildJobInput → Effect
  mark_deploying : Text → Text → Effect
  -- A Namespace, ResourceQuota, LimitRange or NetworkPolicy: kind, namespace and name.
  apply_object : Text → Text → Text → Effect
  get_secret_data : Text → Text → Effect
  get_project_database : Text → Effect
  map_project_env : Text → Effect
  apply_deployment : DeployInput → Effect
  apply_service : Text → Text → Effect
  apply_ingress_route : Route → Effect
  mark_ready : Text → Text → Effect
  set_production_deployment : Text → Text → Effect
  list_verified_domains : Text → Effect
  -- A collection of a namespace, and the label selector.
  delete_all_by_label : Text → Text → Text → Effect
  mark_failed_if_in_flight : Text → Text → Effect

pub record JobPhase : Type 0 where
  pub active : ℕ
  pub succeeded : ℕ
  pub failed : ℕ
  pub failure_msg : Text

-- One round of `waitForJob`: the time, and what the API says of the Job.
pub record Poll : Type 0 where
  pub time : ℕ
  pub phase : Result (Option JobPhase)

-- The calls so far are the argument, the latest first.
pub record Env : Type 0 where
  pub fails : List Effect → Effect → Option Text
  pub now : List Effect → ℕ
  pub phase : List Effect → Option JobPhase
  pub database_secret : Text → Option Text
  -- The `.dockerconfigjson` of a Secret.
  pub docker_config : Text → Option Text
  pub domains : Text → List Text
  -- The polls of a build that are made before its context ends.
  pub polls : Text → List Poll
  -- Which of two rows of one time the claim takes.
  pub first : Tie
  -- fmt's %d.
  pub decimal : ℕ → Text

pub record World : Type 0 where
  pub db : Database
  pub trace : List Effect

abbrev pub Action : Type 0 → Type 0
Action A = World → Result A × World

abbrev pub pure : {A : Type 0} → A → Action A
pure a w = (ok a, w)

abbrev pub raise : {A : Type 0} → Text → Action A
raise e w = (err e, w)

abbrev pub lift : {A : Type 0} → Result A → Action A
lift r w = (r, w)

abbrev pub continue : {A B : Type 0} → Result A → (A → Action B) → Action B
continue (ok a) f w = f a w
continue (err e) f w = (err e, w)

infixl 5 ◌>>=◌ ◌>>◌
unfoldable pub ◌>>=◌ : {A B : Type 0} → Action A → (A → Action B) → Action B
◌>>=◌ m f w = let (r, w') = m w in continue r f w'

abbrev pub ◌>>◌ : {A B : Type 0} → Action A → Action B → Action B
m >> n = m >>= λ _. n

abbrev pub continue_quietly : Result (Unit {0}) × World → Result Bool × World
continue_quietly (ok _, w) = (ok true, w)
continue_quietly (err _, w) = (ok false, w)

-- `if err := m; err != nil { log }`: whether there was no error.
unfoldable pub quietly : Action (Unit {0}) → Action Bool
quietly m w = continue_quietly (m w)

abbrev pub add_context {ℓ} : {A : Type ℓ} → Text → Result A → Result A
add_context s (ok a) = ok a
add_context s (err e) = err (s ++ e)

-- fmt.Errorf("s%w", err).
unfoldable pub wrap : {A : Type 0} → Text → Action A → Action A
wrap s m w = let (r, w') = m w in (add_context s r, w')

module _ (env : Env) where
  abbrev pub answer : Option Text → Result (Unit {0})
  answer none = ok tt
  answer (some e) = err e

  -- A call that returns nothing but an error.
  unfoldable pub call : Effect → Action (Unit {0})
  call e w = (answer (env.fails w.trace e), record w { trace = e ∷ w.trace })

  abbrev pub written : Option Text → Effect → (Database → Database) → Action (Unit {0})
  written none e f w = (ok tt, record w { db = f w.db; trace = e ∷ w.trace })
  written (some m) e f w = (err m, record w { trace = e ∷ w.trace })

  -- A statement on the database, at the time of the call.
  unfoldable pub write : Effect → (ℕ → Database → Database) → Action (Unit {0})
  write e f w = written (env.fails w.trace e) e (f (env.now w.trace)) w
