-- ===== src/Provision/Handlers/Created.antt =====
-- What the creation of a database leaves.
use vercel_clone.Prelude.{◌≡◌, true, false, none, some, List, [], ◌∷◌, ◌++◌}
use vercel_clone.Prelude.Text.{Text, text_key}
use vercel_clone.Prelude.Result.{ok}
use vercel_clone.Store.{Project, Database}
use vercel_clone.Store.Accounts.{get_project_for_owner}
use vercel_clone.Http.{done, refused}
use vercel_clone.Domains.Handlers.{tenant_login}
use vercel_clone.Provision.{provision}
use vercel_clone.Provision.Handlers
use vercel_clone.Provision.Handlers.{
  Outside, Estate, Reply, any_clash, planned_database, get_project_database_for_owner,
}

-- What the answer says of the estate before and after.
abbrev pub Creates : Outside → Text → Text → Database → Estate → Reply → Type 0
Creates o id user db e (refused c, after) = after.databases ≡ e.databases
Creates o id user db e (done (d, false), after) =
    (get_project_database_for_owner id user db e ≡ some d)
    × (after.databases ≡ e.databases)
    × (after.executed ≡ e.executed)
    × ((p : Project) × (get_project_for_owner id user db ≡ some p)
        × (after.secrets ≡ (tenant_login p db, d) ∷ e.secrets))
Creates o id user db e (done (d, true), after) =
    (p : Project) × (password : Text) × (qs : List Text) × (get_project_for_owner id user db
      ≡ some p)
    × (get_project_database_for_owner id user db e ≡ none)
    × (d ≡ planned_database id p password)
    × (provision o.postgres d.role_name d.db_name password ≡ (ok tt, qs))
    × (after.executed ≡ e.executed ++ qs)
    × (after.secrets ≡ (tenant_login p db, d) ∷ e.secrets)
    × (any_clash d e.databases ≡ false)
    × (after.databases ≡ e.databases ++ d ∷ [])
