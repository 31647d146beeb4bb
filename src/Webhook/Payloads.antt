-- ===== src/Webhook/Payloads.antt =====
-- What a webhook's request holds, and what the parsers make of it (control-plane/main.go).
use vercel_clone.Prelude.{ℕ, Bool, false, not, ◌||◌, Option, List, [], ◌∷◌, ◌==◌}
use vercel_clone.Prelude.Text.{Text, codes, text_key, has_prefix}
use vercel_clone.Prelude.Result.{Result}
use vercel_clone.Store.{Project, Deployment}
use vercel_clone.Store.Repos.{RepoRow}

pub record Envelope : Type 0 where
  pub action : Text
  pub ref : Text
  pub after : Text
  pub deleted : Bool
  pub repository_id : ℕ
  pub repository_full_name : Text
  pub installation_id : ℕ
  pub target_type : Text
  pub account_login : Text
  pub account_id : ℕ

pub record GithubRepo : Type 0 where
  pub id : ℕ
  pub full_name : Text
  pub private : Bool
  pub default_branch : Text

pub record PullRequest : Type 0 where
  pub number : ℕ
  pub title : Text
  pub head_sha : Text

pub record Outside : Type 0 where
  pub mac : Text → Text → Text
  pub hex_decode : Text → Option Text
  pub is_json : Text → Bool
  -- parseEnvelope: zero values for what does not parse.
  pub envelope : Text → Envelope
  -- The body's `repositories`, none if it does not parse.
  pub repositories : Text → List GithubRepo
  -- The body's `repositories_added` and `repositories_removed`.
  pub repository_changes : Text → Result (List GithubRepo × List GithubRepo)
  pub pull_request : Text → Result PullRequest
  pub push_commit_message : Text → Text
  pub branch_sha : ℕ → Text → Text → Option Text
  pub decimal : ℕ → Text
  pub project_id : List Project → Text
  pub deployment_id : List Deployment → Text

pub record Request : Type 0 where
  pub event : Text
  pub delivery : Text
  pub signature : Text
  pub body : Text

pub data Response : Type 0 where
  bad_request : Response
  invalid_signature : Response
  internal_error : Response
  accepted : Response

-- 5 MB.
abbrev pub max_body_bytes : ℕ
max_body_bytes = 5242880

abbrev pub zero_sha : Text
zero_sha = codes "0000000000000000000000000000000000000000"

abbrev pub to_repo_row : GithubRepo → RepoRow
to_repo_row r = record {
  id = r.id;
  full_name = r.full_name;
  private = r.private;
  default_branch = r.default_branch;
}

-- A push that is no commit on a branch.
abbrev pub is_ignored : Envelope → Bool
is_ignored e =
    e.deleted
    || not (has_prefix e.ref (codes "refs/heads/"))
    || e.after == []
    || e.after == zero_sha

abbrev pub is_one_of : Text → List Text → Bool
is_one_of s [] = false
is_one_of s (t ∷ ts) = s == t || is_one_of s ts
