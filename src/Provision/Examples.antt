-- ===== src/Provision/Examples.antt =====
-- A password with a quote, the names of an id, and the databases of two projects.
use vercel_clone.Prelude.{◌≡◌, refl, true, false, none, some, [], ◌∷◌, ◌++◌}
use vercel_clone.Prelude.Text.{Text, codes}
use vercel_clone.Prelude.Result.{ok}
use vercel_clone.Store.Examples.{site}
use vercel_clone.Store.Examples.Owners.{project_id}
use vercel_clone.Store.Accounts.{is_uuid}
use vercel_clone.Provision.{Postgres, short_id, is_valid_ident, role_statement}
use vercel_clone.Provision.Quotes.{read_role_statement, read_role_statement-role_statement}
use vercel_clone.Provision.Names.{short_id-is_valid_ident}
use vercel_clone.Provision.Handlers.{Outside, Estate, planned_database}

abbrev sneaky : Text
sneaky = codes "x'; DROP TABLE users; --"

read_role_statement-role_statement_example :
    read_role_statement false (role_statement false (codes "u_1") sneaky)
    ≡ some (codes "u_1", (sneaky, codes " NOSUPERUSER NOCREATEDB NOCREATEROLE INHERIT"))
read_role_statement-role_statement_example =
    read_role_statement-role_statement false (codes "u_1") sneaky

short_id-is_valid_ident_example :
    (is_valid_ident (codes "u_" ++ short_id project_id) ≡ true)
    × (is_valid_ident (codes "app_" ++ short_id project_id) ≡ true)
short_id-is_valid_ident_example = short_id-is_valid_ident project_id (unfold is_uuid in refl)

abbrev postgres : Postgres
postgres = record {
  connected = ok tt;
  role_exists = λ r. ok true;
  database_exists = λ d. ok true;
  fails = λ q. none;
}

abbrev outside : Outside
outside = record {
  superuser_uri = codes "postgres://paas-db/*";
  gen_password = some (codes "new");
  postgres = postgres;
  secret_fails = λ login. none;
  insert_fails = false;
}

abbrev empty : Estate
empty = record { databases = []; executed = []; secrets = [] }

-- It begins like `project_id`.
abbrev other_id : Text
other_id = codes "01234567-0000-0000-0000-000000000000"

abbrev one_database : Estate
one_database = record empty { databases = planned_database other_id site (codes "old") ∷ [] }
