-- ===== src/Provision/Handlers/Collision.antt =====
-- Two projects whose ids begin alike, and the one database that they can have.
use vercel_clone.Prelude.{ℕ, ◌≡◌, Bool, ◌++◌, ◌==◌}
use vercel_clone.Prelude.Text.{Text, codes, text_key}
use vercel_clone.Http.{refused}
use vercel_clone.Provision.{short_id}
use vercel_clone.Provision.Handlers.{ProjectDatabase, Estate, Reply}

-- The name of a project's database.
abbrev has_name : Text → ProjectDatabase → Bool
has_name id d = d.db_name == codes "app_" ++ short_id id

-- A reply without a new database.
abbrev pub IsRefused : Estate → Reply → Type 0
IsRefused e (a, after) = ((c : ℕ) × (a ≡ refused c)) × (after.databases ≡ e.databases)
