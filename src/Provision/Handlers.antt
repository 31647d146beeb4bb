-- ===== src/Provision/Handlers.antt =====
-- The endpoints of a project's database (control-plane/database_handlers.go) with its statements of
-- control-plane/store.go.
--
-- Outside says what the environment, randomness, Postgres and the Kubernetes API give. The Secrets
-- that are applied are listed in order, the latest first, each with the tenant's login.
pub mod Created
pub mod Collision
use vercel_clone.Prelude.{
  ℕ, Bool, true, false, not, ◌&&◌, ◌||◌, Option, none, some, List, [], ◌∷◌, ◌++◌, nat_eq, ◌==◌,
  take, if◌then◌else◌,
}
use vercel_clone.Prelude.Text.{Text, codes, text_key, trim_space}
use vercel_clone.Prelude.Result.{Result, ok, err}
use vercel_clone.Prelude.Table.{find}
use vercel_clone.Store.{Project, User, Database}
use vercel_clone.Store.Enqueue.{owned_by}
use vercel_clone.Store.Accounts.{is_uuid, get_project_for_owner}
use vercel_clone.Http.{Answer, done, refused}
use vercel_clone.Domains.Handlers.{tenant_login}
use vercel_clone.Promote.{scope_of}
use vercel_clone.Provision.{Postgres, Run, provision, short_id}

pub record ProjectDatabase : Type 0 where
  pub project_id : Text
  pub db_name : Text
  pub role_name : Text
  pub password : Text
  pub host : Text
  pub port : ℕ
  pub secret_name : Text

pub record Outside : Type 0 where
  pub superuser_uri : Text
  pub gen_password : Option Text
  pub postgres : Postgres
  -- The error of `ensureTenant` and of the Secret for a login, if there is one.
  pub secret_fails : Text → Option Text
  -- Any other error of the INSERT than that of a key.
  pub insert_fails : Bool

pub record Estate : Type 0 where
  pub databases : List ProjectDatabase
  pub executed : List Text
  pub secrets : List (Text × ProjectDatabase)

-- The join with the project, filtered by its owner.
owned_row : Text → Project → ProjectDatabase → Bool
owned_row user p d = d.project_id == p.id && owned_by user p

find_row : Text → List ProjectDatabase → Option Project → Option ProjectDatabase
find_row user ds none = none
find_row user ds (some p) = find (owned_row user p) ds

unfoldable pub get_project_database_for_owner :
    Text → Text → Database → Estate → Option ProjectDatabase
unfolding find_row owned_row
get_project_database_for_owner id user db e =
    find_row user e.databases (find (λ p. p.id == id) db.projects)

-- The worker's lookup, for any owner.
abbrev pub get_project_database : Text → Database → Estate → Option ProjectDatabase
get_project_database id = get_project_database_for_owner id []

-- A key of the table: the project, the database's name or the role's.
abbrev pub clashes : ProjectDatabase → ProjectDatabase → Bool
clashes d e = e.project_id == d.project_id || (e.db_name == d.db_name || e.role_name == d.role_name)

abbrev pub any_clash : ProjectDatabase → List ProjectDatabase → Bool
any_clash d [] = false
any_clash d (e ∷ es) = clashes d e || any_clash d es

-- Nothing if a key is taken.
unfoldable pub create_project_database : ProjectDatabase → Estate → Option Estate
create_project_database d e =
    if any_clash d e.databases then none else some (record e { databases = e.databases ++ d ∷ [] })

secret_applied : Option Text → Text → ProjectDatabase → Estate → Result (Unit {0}) × Estate
secret_applied none login d e = (ok tt, record e { secrets = (login, d) ∷ e.secrets })
secret_applied (some m) login d e = (err m, e)

unfoldable pub apply_db_secret :
    Outside → Text → ProjectDatabase → Estate → Result (Unit {0}) × Estate
unfolding secret_applied
apply_db_secret o login d e = secret_applied (o.secret_fails login) login d e

-- The record of a project that has none yet.
abbrev pub planned_database : Text → Project → Text → ProjectDatabase
planned_database id p password = record {
  project_id = id;
  db_name = codes "app_" ++ short_id id;
  role_name = codes "u_" ++ short_id id;
  password = password;
  host = codes "paas-db-rw.paas-system.svc.cluster.local";
  port = 5432;
  secret_name = codes "paas-db-" ++ take 50 p.slug;
}

-- The database, and whether it is new.
abbrev pub Reply : Type 0
Reply = Answer (ProjectDatabase × Bool) × Estate

persisted : ProjectDatabase → Estate → Option Estate → Reply
persisted d e none = (refused 500, e)
persisted d e (some after) = (done (d, true), after)

with_secret : Outside → ProjectDatabase → Result (Unit {0}) × Estate → Reply
unfolding persisted
with_secret o d (err m, e) = (refused 500, e)
with_secret o d (ok _, e) =
    if o.insert_fails then (refused 500, e) else persisted d e (create_project_database d e)

provisioned : Outside → Text → ProjectDatabase → Estate → Run → Reply
unfolding with_secret
provisioned o login d e (err m, qs) = (refused 500, record e { executed = e.executed ++ qs })
provisioned o login d e (ok _, qs) =
    with_secret o d (apply_db_secret o login d (record e { executed = e.executed ++ qs }))

with_password : Outside → Text → Text → Project → Estate → Option Text → Reply
unfolding provisioned
with_password o login id p e none = (refused 500, e)
with_password o login id p e (some password) =
    let d = planned_database id p password in
    provisioned o login d e (provision o.postgres d.role_name d.db_name d.password)

-- The Secret is applied again, since it may have been deleted.
existing_answer : ProjectDatabase → Result (Unit {0}) × Estate → Reply
existing_answer d (err m, e) = (refused 500, e)
existing_answer d (ok _, e) = (done (d, false), e)

create_or_get : Outside → Text → Text → Project → Estate → Option ProjectDatabase → Reply
unfolding existing_answer with_password
create_or_get o login id p e (some d) = existing_answer d (apply_db_secret o login d e)
create_or_get o login id p e none =
    if trim_space o.superuser_uri == []
    then (refused 503, e)
    else with_password o login id p e o.gen_password

create_found : Outside → Text → Text → Database → Estate → Option Project → Reply
unfolding create_or_get
create_found o id user db e none = (refused 404, e)
create_found o id user db e (some p) =
    if tenant_login p db == []
    then (refused 400, e)
    else create_or_get o (tenant_login p db) id p e (get_project_database_for_owner id user db e)

create_as : Outside → Text → Database → Estate → Option User → Reply
unfolding create_found
create_as o id db e none = (refused 401, e)
create_as o id db e (some u) =
    create_found o id (scope_of u) db e (get_project_for_owner id (scope_of u) db)

unfoldable pub handle_create_project_database :
    Outside → Text → Option User → Database → Estate → Reply
unfolding create_as
handle_create_project_database o id u db e =
    if not (is_uuid id) then (refused 400, e) else create_as o id db e u

get_found : Text → Text → Database → Estate → Option Project → Answer (Option ProjectDatabase)
get_found id user db e none = refused 404
get_found id user db e (some p) = done (get_project_database_for_owner id user db e)

get_as : Text → Database → Estate → Option User → Answer (Option ProjectDatabase)
unfolding get_found
get_as id db e none = refused 401
get_as id db e (some u) = get_found id (scope_of u) db e (get_project_for_owner id (scope_of u) db)

unfoldable pub handle_get_project_database :
    Text → Option User → Database → Estate → Answer (Option ProjectDatabase)
unfolding get_as
handle_get_project_database id u db e = if not (is_uuid id) then refused 400 else get_as id db e u
