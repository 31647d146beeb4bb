-- ===== src/Store.antt =====
-- The rows of control-plane/store.go and control-plane/migrations, and the database that holds
-- them. An id is the text of a UUID, which Postgres generates; a time is a number of seconds.
-- A NULL is `none`. A failed query leaves the database as it was, and is not modelled.
pub mod Queue
pub mod Enqueue
pub mod Repos
pub mod Accounts
pub mod Examples
use vercel_clone.Prelude.{ℕ, Bool, true, false, Option, none, some, List, [], ◌==◌, if◌then◌else◌}
use vercel_clone.Prelude.Text.{Text, text_key}

-- deployments.status.
pub data Status : Type 0 where
  queued building deploying ready failed : Status

pub record Deployment : Type 0 where
  pub id : Text
  pub project_id : Text
  pub commit_sha : Text
  pub ref : Text
  pub status : Status
  pub url : Option Text
  pub image : Option Text
  pub triggered_by : Text
  pub delivery_id : Option Text
  pub commit_message : Option Text
  pub is_preview : Bool
  pub pr_number : Option ℕ
  pub created_at : ℕ
  pub build_started_at : Option ℕ
  pub build_ended_at : Option ℕ
  pub ready_at : Option ℕ
  pub error : Option Text

pub record Project : Type 0 where
  pub id : Text
  pub installation_id : ℕ
  pub repo_id : ℕ
  pub full_name : Text
  pub slug : Text
  pub production_branch : Text
  pub owner_user_id : Option Text
  pub production_deployment_id : Option Text
  pub display_name : Option Text

pub record Installation : Type 0 where
  pub id : ℕ
  pub account_login : Text
  pub account_id : ℕ
  pub target_type : Text
  pub suspended_at : Option ℕ
  pub owner_user_id : Option Text

pub record InstallationRepo : Type 0 where
  pub installation_id : ℕ
  pub repo_id : ℕ
  pub full_name : Text
  pub private : Bool
  pub default_branch : Option Text
  pub removed_at : Option ℕ

pub record User : Type 0 where
  pub id : Text
  pub github_user_id : ℕ
  pub github_login : Text
  pub email : Option Text
  pub avatar_url : Option Text
  pub oauth_token : Option Text
  pub oauth_expires_at : Option ℕ
  pub last_login_at : Option ℕ
  pub is_admin : Bool

-- The MAC of the token in the user's cookie stands for the session.
pub record Session : Type 0 where
  pub token_hash : Text
  pub user_id : Text
  pub user_agent : Option Text
  pub ip : Option Text
  pub expires_at : ℕ

pub record EnvVar : Type 0 where
  pub project_id : Text
  pub name : Text
  pub value : Text
  pub updated_at : ℕ

pub record ProjectDomain : Type 0 where
  pub project_id : Text
  pub hostname : Text
  pub verification_token : Text
  pub verified_at : Option ℕ
  pub created_at : ℕ

pub record Signup : Type 0 where
  pub email : Text
  pub use_case : Text
  pub name : Option Text
  pub college : Option Text
  pub created_at : ℕ
  pub updated_at : ℕ

pub record Database : Type 0 where
  pub deployments : List Deployment
  pub projects : List Project
  pub installations : List Installation
  pub installation_repos : List InstallationRepo
  pub users : List User
  pub webhook_deliveries : List Text
  pub sessions : List Session
  pub project_env_vars : List EnvVar
  pub project_domains : List ProjectDomain
  pub waitlist_signups : List Signup

-- NULLIF(x, '').
abbrev pub null_if_empty : Text → Option Text
null_if_empty s = if s == [] then none else some s
