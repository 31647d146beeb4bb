-- ===== src/EnvVars.antt =====
-- The environment variables of a project (control-plane/env_handlers.go, and the statements of
-- control-plane/store.go on project_env_vars).
--
-- The JSON decoder is an argument: what it makes of the body, within the handler's byte limit.
pub mod Lookup
pub mod Rows
mod Examples
use vercel_clone.Prelude.{
  ℕ, Bool, true, false, not, ◌&&◌, ◌||◌, Option, none, some, List, [], ◌∷◌, ◌++◌, ltb, leb, nat_eq,
  ◌==◌, length, if◌then◌else◌, is_some,
}
use vercel_clone.Prelude.Text.{Text, codes, text_key}
use vercel_clone.Prelude.Dict.{Dict, put}
use vercel_clone.Prelude.Table.{update, find, count, delete}
use vercel_clone.Store.{Project, User, EnvVar, Database}
use vercel_clone.Store.Accounts.{authorise_project}
use vercel_clone.Http.{Answer, done, refused, with_project}

-- The class [A-Z_], and the class [A-Z0-9_].
abbrev pub is_name_start : ℕ → Bool
is_name_start c = (leb b'A' c && leb c b'Z') || nat_eq c b'_'

abbrev pub is_name_byte : ℕ → Bool
is_name_byte c = is_name_start c || (leb b'0' c && leb c b'9')

abbrev pub all_name_bytes : Text → Bool
all_name_bytes [] = true
all_name_bytes (c ∷ s) = is_name_byte c && all_name_bytes s

-- `envNameRE`, and at most 128 bytes.
abbrev pub is_env_name : Text → Bool
is_env_name [] = false
is_env_name (c ∷ s) = is_name_start c && all_name_bytes s && leb (length (c ∷ s)) 128

abbrev pub env_value_max_bytes : ℕ
env_value_max_bytes = 65536

-- `ReservedEnvVarNames`.
abbrev pub is_reserved : Text → Bool
is_reserved name = name == codes "DATABASE_URL"

-- WHERE project_id = $1 AND name = $2.
abbrev pub is_var : Text → Text → EnvVar → Bool
is_var project name v = v.project_id == project && v.name == name

abbrev pub set_value : ℕ → Text → EnvVar → EnvVar
set_value now value v = record v { value = value; updated_at = now }

abbrev pub new_var : Text → Text → Text → ℕ → EnvVar
new_var project name value now = record {
  project_id = project;
  name = name;
  value = value;
  updated_at = now;
}

-- INSERT … ON CONFLICT (project_id, name) DO UPDATE.
abbrev pub upsert_var : Text → Text → Text → ℕ → List EnvVar → List EnvVar
upsert_var project name value now vs =
    if is_some (find (is_var project name) vs)
    then update (is_var project name) (set_value now value) vs
    else vs ++ new_var project name value now ∷ []

-- The handler has checked what the table's constraints ask of the name and the project.
unfoldable pub upsert_project_env : Text → Text → Text → ℕ → Database → Database
upsert_project_env project name value now db = record db {
  project_env_vars = upsert_var project name value now db.project_env_vars;
}

-- Whether a row was deleted.
unfoldable pub delete_project_env : Text → Text → Database → Bool × Database
delete_project_env project name db = (
  ltb 0 (count (is_var project name) db.project_env_vars),
  record db { project_env_vars = delete (is_var project name) db.project_env_vars },
)

-- The loop over the rows of a project.
abbrev pub collect : Text → Dict Text Text → List EnvVar → Dict Text Text
collect project out [] = out
collect project out (v ∷ vs) =
    collect project (if v.project_id == project then put out v.name v.value else out) vs

unfoldable pub map_project_env : Text → Database → Dict Text Text
map_project_env project db = collect project [] db.project_env_vars

-- The part of the handler behind the ownership test.
upsert_value : Text → Option Text → ℕ → Database → Project → Answer EnvVar × Database
upsert_value name none now db p = (refused 400, db)
upsert_value name (some value) now db p =
    if ltb env_value_max_bytes (length value)
    then (refused 413, db)
    else (done (new_var p.id name value now), upsert_project_env p.id name value now db)

upsert_named : Text → Option Text → ℕ → Database → Project → Answer EnvVar × Database
upsert_named name body now db p =
    if not (is_env_name name)
    then (refused 400, db)
    else if is_reserved name
    then (refused 400, db)
    else upsert_value name body now db p

unfoldable pub handle_upsert_project_env :
    Text → Option User → Text → Option Text → ℕ → Database → Answer EnvVar × Database
unfolding upsert_named upsert_value
handle_upsert_project_env id u name body now db =
    with_project (authorise_project id u db) db (upsert_named name body now db)

answer_deleted : Database → Bool × Database → Answer (Unit {0}) × Database
answer_deleted db (false, _) = (refused 404, db)
answer_deleted db (true, db') = (done tt, db')

delete_named : Text → Database → Project → Answer (Unit {0}) × Database
delete_named name db p =
    if not (is_env_name name)
    then (refused 400, db)
    else answer_deleted db (delete_project_env p.id name db)

unfoldable pub handle_delete_project_env :
    Text → Option User → Text → Database → Answer (Unit {0}) × Database
unfolding delete_named answer_deleted
handle_delete_project_env id u name db =
    with_project (authorise_project id u db) db (delete_named name db)
