-- ===== src/EnvVars/Examples.antt =====
-- The theorems on variables at a table with one row.
use vercel_clone.Prelude.{◌≡◌, ◌≤◌, Bool, none, some, [], ◌∷◌, arith}
use vercel_clone.Prelude.Text.{codes, text_key}
use vercel_clone.Prelude.Dict.{get}
use vercel_clone.Prelude.Table.{count}
use vercel_clone.Store.{EnvVar, Database}
use vercel_clone.Store.Examples.Owners.{project_id, with_uuid}
use vercel_clone.EnvVars.{new_var, upsert_project_env, delete_project_env, map_project_env}
use vercel_clone.EnvVars.Lookup.{project_env_refines}

abbrev key_row : EnvVar
key_row = new_var project_id (codes "API_KEY") (codes "old") 5

abbrev with_key : Database
with_key = record with_uuid { project_env_vars = key_row ∷ [] }

project_env_refines_example :
    (get
        (map_project_env project_id
          (upsert_project_env project_id (codes "API_KEY") (codes "new") 9 with_key))
        (codes "API_KEY")
      ≡ some (codes "new"))
    × (get
          (map_project_env project_id (delete_project_env project_id (codes "API_KEY") with_key).1)
          (codes "API_KEY")
        ≡ none)
project_env_refines_example =
    project_env_refines project_id (codes "API_KEY") (codes "new") project_id (codes "API_KEY") 9
      with_key

single_le : (test : EnvVar → Bool) (v : EnvVar) → count test (v ∷ []) ≤ 1
single_le test v = ground arith
