-- ===== src/Promote/Examples.antt =====
-- The theorem on promotions at a ready deployment.
use vercel_clone.Prelude.{true, [], ◌∷◌}
use vercel_clone.Prelude.Text.{codes}
use vercel_clone.Store.{ready, Database}
use vercel_clone.Store.Examples.{first}
use vercel_clone.Store.Examples.Owners.{project_id, with_uuid}
use vercel_clone.Domains.{new_domain, set_verified}
use vercel_clone.Domains.Handlers.{Site}
use vercel_clone.Promote.{Outcomes}

abbrev db : Database
db = record with_uuid {
  deployments = record first { id = project_id; project_id = project_id; status = ready } ∷ [];
  project_domains =
      set_verified 5 (new_domain project_id (codes "blog.acme.com") (codes "token") 4) ∷ [];
}

abbrev start : Site
start = record { db = db; routes = [] }

abbrev outcomes : Outcomes
outcomes = record { accepts = λ _. true; records = true; lists = true }
