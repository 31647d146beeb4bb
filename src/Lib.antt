-- ===== src/Lib.antt =====
-- vercel-clone: the control plane of a small deployment platform, in control-plane/.
--
-- GitHub webhooks put deployments into a table; a worker takes the oldest queued one, builds its
-- image in a Job of the cluster, and puts the Deployment, Service and route of the commit into the
-- Kubernetes namespace of the account that owns the repository. Users see their own projects.
--
--   Prelude    Go strings as lists of ASCII bytes, results, SQL tables as lists of rows
--              (Prelude.Table), maps as association lists (Prelude.Dict), JSON (Prelude.Json).
--   Slug       slugify of control-plane/store.go.
--   Tenant     tenantNamespaceFor of control-plane/tenant.go.
--   Store      the statements of control-plane/store.go, each as a function on a Database: Queue has
--              the life of a deployment's row, Enqueue what makes a row, Repos the projects that
--              AddRepos and ReconcileOrphanRepos make, Accounts the installations, owners and
--              authoriseProject.
--   Builder    tick and runOne of control-plane/builder.go with ensureTenant of
--              control-plane/tenant.go. Every call to GitHub, Kubernetes or the database is an Effect;
--              a World is the database and the calls so far, and an Env says how each call ends.
--              Builder.Triples has Hoare triples for these actions.
--   Reconciler tick of control-plane/build_reconciler.go.
--   Webhook    handleGitHubWebhook and dispatch of control-plane/main.go with the handlers of each
--              event, handlePullRequest of control-plane/preview_webhook.go and RecordDelivery. What
--              JSON, HMAC and GitHub give is a record Outside.
--   Http       what the handlers answer, and authoriseProject in front of them.
--   EnvVars    control-plane/env_handlers.go with its statements of control-plane/store.go.
--   Auth       control-plane/auth.go: the allowlist, the signed state and the statements on users and
--              sessions; Auth.SignIn has the handlers. HMAC, randomness and GitHub are arguments.
--   Domains    control-plane/domain_store.go; Domains.Handlers has control-plane/domain_handlers.go on
--              a Site: the database and the routes of the cluster. DNS is an argument.
--   Waitlist   control-plane/waitlist_handlers.go, behind RateLimit and the allowlist of Auth.
--   Hosts      control-plane/hosts.go and control-plane/host_router.go.
--   Telemetry  parseTraefikMetrics of control-plane/telemetry.go, for values of any type.
--   Series     the rings of control-plane/telemetry_series.go and control-plane/project_series.go.
--   Promote    control-plane/promote_handlers.go, on a Site of Domains.Handlers.
--   Projects   control-plane/project_handlers.go, control-plane/redeploy_handlers.go and
--              control-plane/deploy_handlers.go, and in Projects.Deletion control-plane/project_delete.go.
--              The calls to GitHub are arguments.
--   SelfRebuild one tick of control-plane/self_rebuild.go. What GitHub and the Kubernetes API answer is
--              a record; the loops are recursions on the polls made in time.
--   Kube       the client of control-plane/k8s.go. The API server is a parameter; Kube.Contents and
--              Kube.Queries.Deletion say what its answers mean, refusals and lost requests included, and
--              Kube.Memory is one. Kube.Queries has the reads and deletions, Kube.Pods the pods and their logs.
--   Manifests  the objects of control-plane/tenant.go (Tenant) and control-plane/builder.go (App, Build),
--              as the JSON that is sent.
--   Isolation  ensureTenant of control-plane/tenant.go again, as calls of Kube with these objects; in
--              Builder it is one step of a run.
--   Scale      control-plane/scale_handlers.go on Kube.
--   Provision  control-plane/db_provisioner.go, and in Provision.Handlers
--              control-plane/database_handlers.go. Postgres, the password and Kubernetes are a record.
--   RateLimit  the limiter of control-plane/ratelimit.go.
--   Uptime     the tracker of control-plane/uptime_tracker.go.
--
-- A statement of the store runs as a whole and one at a time, as its transaction does. Ids and times
-- that Postgres makes are arguments. waitForJob is a recursion on the polls that are made before its
-- context ends, so it needs no fuel; slugify's loop over double dashes runs as often as the text is
-- long, which is enough since every round but the last shortens it.
--
-- Not modelled: the GitHub client, the set-up of the Kubernetes client and the words of most errors, the
-- shell script of a build, log streams, HTML pages, migrations, and the set-up tools, which are I/O or
-- data; the quantities and fetches of the telemetry, the percentiles of a project's point, the synthetic
-- monitor and the insights; and of the store the lists for the dashboard.
mod Prelude
pub mod Slug
pub mod Tenant
pub mod Store
pub mod Builder
pub mod Reconciler
pub mod Webhook
pub mod Http
pub mod EnvVars
pub mod Auth
pub mod Domains
pub mod Waitlist
pub mod Hosts
pub mod RateLimit
pub mod Uptime
pub mod Telemetry
pub mod Series
pub mod Promote
pub mod SelfRebuild
pub mod Projects
pub mod Kube
pub mod Manifests
pub mod Isolation
pub mod Scale
pub mod Provision
