-- ===== src/Domains/Examples.antt =====
-- The theorems on domains at a project with one domain and one deployment.
use vercel_clone.Prelude.{◌≡◌, ◌≤◌, refl, Bool, true, false, none, some, [], ◌∷◌, ◌==◌, arith, All}
use vercel_clone.Prelude.Text.{codes, text_key}
use vercel_clone.Prelude.Result.{ok}
use vercel_clone.Prelude.Table.{count}
use vercel_clone.Store.{ready, Project, ProjectDomain, Database}
use vercel_clone.Store.Accounts.{authorise_project, get_project_for_owner, allowed}
use vercel_clone.Store.Examples.{first, site}
use vercel_clone.Store.Examples.Owners.{project_id, with_uuid, ada}
use vercel_clone.Domains.{
  new_domain, normalise_hostname, get_project_domain, has_hostname, is_hostname, is_platform_host,
}
use vercel_clone.Domains.Handlers.{
  Site, Resolver, handle_add_project_domain, handle_verify_project_domain,
  handle_delete_project_domain, check_verification_txt,
}
use vercel_clone.Domains.Handlers.Registry.{HasRegistry, domain_handlers_keep}
use vercel_clone.Domains.Handlers.Verified.{
  IsOldOrProven, handle_verify_project_domain-IsOldOrProven,
}

abbrev mine : Project
mine = record site { id = project_id }

abbrev blog : ProjectDomain
blog = new_domain project_id (codes "blog.acme.com") (codes "token") 40

abbrev db : Database
db = record with_uuid {
  deployments = record first { project_id = project_id; status = ready } ∷ [];
  project_domains = blog ∷ [];
}

abbrev start : Site
start = record { db = db; routes = [] }

-- DNS that has the token with a space behind it.
abbrev lookup : Resolver
lookup _ = ok (codes "other" ∷ codes "token " ∷ [])

let_in : authorise_project project_id (some ada) db ≡ allowed mine
unfolding authorise_project get_project_for_owner
let_in = refl

blog_found : get_project_domain project_id (codes " Blog.acme.com") db ≡ some blog
unfolding get_project_domain normalise_hostname
blog_found = refl

shop_missing : get_project_domain project_id (codes "shop.acme.com") db ≡ none
unfolding get_project_domain normalise_hostname
shop_missing = refl

shop_filled : (normalise_hostname (codes "shop.acme.com") == []) ≡ false
unfolding normalise_hostname
shop_filled = refl

proven :
    check_verification_txt lookup (normalise_hostname (codes " Blog.acme.com")) (codes "token")
    ≡ true
unfolding check_verification_txt
proven = refl

single_le : (test : ProjectDomain → Bool) (d : ProjectDomain) → count test (d ∷ []) ≤ 1
single_le test d = ground arith

registered : HasRegistry start
unfolding is_hostname is_platform_host
registered = (((refl, refl, refl), tt), λ host. single_le (has_hostname host) blog)

domain_handlers_keep_example :
    HasRegistry
      (handle_add_project_domain project_id
        (some ada)
        (some (codes "shop.acme.com"))
        (codes "t2")
        50
        start).1
    × HasRegistry
        (handle_verify_project_domain lookup true project_id
          (some ada)
          (codes "blog.acme.com")
          50
          start).1
    × HasRegistry
        (handle_delete_project_domain true project_id (some ada) (codes "blog.acme.com") start).1
domain_handlers_keep_example =
    domain_handlers_keep lookup true project_id (codes "blog.acme.com") (codes "t2") (some ada)
      (some (codes "shop.acme.com")) 50 start registered

handle_verify_project_domain-IsOldOrProven_example :
    All
      (IsOldOrProven lookup 50 (blog ∷ []))
      (handle_verify_project_domain lookup true project_id
        (some ada)
        (codes "blog.acme.com")
        50
        start).1.db.project_domains
handle_verify_project_domain-IsOldOrProven_example =
    handle_verify_project_domain-IsOldOrProven lookup true project_id (codes "blog.acme.com")
      (some ada) 50 start registered.1
