-- ===== src/Domains/Handlers/Routes.antt =====
-- The routes that a verification publishes and a delete tears down.
use mathlib.Core.List.{map}
use vercel_clone.Prelude.{
  ℕ, ◌≡◌, refl, sym, ap, ◌∙◌, arith, inl, inr, Bool, true, false, Option, none, some, List, ◌==◌,
  [], ◌∷◌, ◌++◌, Bool-cases, eq_refl, is_some,
}
use vercel_clone.Prelude.Text.{Text, codes, text_key}
use vercel_clone.Prelude.Table.{update, find, count, delete, find-append_new, count-absent}
use vercel_clone.Store.{Project, User, ProjectDomain, Database}
use vercel_clone.Store.Accounts.{authorise_project, allowed}
use vercel_clone.Tenant.{tenant_namespace_for}
use vercel_clone.Builder.Effects.{Route}
use vercel_clone.Builder.{custom_domain_route_name, undotted}
use vercel_clone.Http.{done, refused}
use vercel_clone.Domains.Handlers.Registry.{normalise_hostname_idem}
use vercel_clone.Domains
use vercel_clone.Domains.Handlers

count-deleted : {A : Type 0} (test : A → Bool) (xs : List A) → count test (delete test xs) ≡ 0
count-deleted test [] = refl
count-deleted test (x ∷ xs) = elim (Bool-cases (test x)) [
  | inl e ↦ rw e (count-deleted test xs)
  | inr e ↦ rw (e, e) (count-deleted test xs)
]

find-deleted_none : {A : Type 0} (test : A → Bool) (xs : List A) → find test (delete test xs) ≡ none
find-deleted_none test [] = refl
find-deleted_none test (x ∷ xs) = elim (Bool-cases (test x)) [
  | inl e ↦ rw e (find-deleted_none test xs)
  | inr e ↦ rw (e, e) (find-deleted_none test xs)
]

-- What is applied is found under its key.
pub find-apply_route :
    (r : Route) (rs : List Route)
    → find (Handlers.is_route r.namespace r.name) (Handlers.apply_route r rs) ≡ some r
find-apply_route r rs =
    find-append_new (Handlers.is_route r.namespace r.name)
      (delete (Handlers.is_route r.namespace r.name) rs) r
      (count-deleted (Handlers.is_route r.namespace r.name) rs)
      (rw (eq_refl r.namespace, eq_refl r.name) refl)

-- A dot and a dash give one name.
route_name_collides :
    (a b : Text)
    → custom_domain_route_name (a ++ b'-' ∷ b) ≡ custom_domain_route_name (a ++ b'.' ∷ b)
route_name_collides a b = ap (λ s. codes "custom-" ++ s) (dashed a)
  where
    dashed : (c : Text) → map undotted (c ++ b'-' ∷ b) ≡ map undotted (c ++ b'.' ∷ b)
    dashed [] = refl
    dashed (x ∷ c) = ap (λ s. undotted x ∷ s) (dashed c)

-- The tenant has a namespace and the project a deployment to route to.
abbrev pub IsRoutable : Project → Handlers.Site → Type 0
IsRoutable p s =
    ((Handlers.tenant_login p s.db == []) ≡ false)
    × ((Handlers.target_sha (Handlers.latest_five p.id s.db) == []) ≡ false)

abbrev pub route_of : Project → Text → Handlers.Site → Route
route_of p host s =
    Handlers.domain_route p (Handlers.tenant_login p s.db) host
      (Handlers.target_sha (Handlers.latest_five p.id s.db))

abbrev pub route_at : Project → Text → Handlers.Site → Option Route
route_at p host s =
    find
      (Handlers.is_route (tenant_namespace_for (Handlers.tenant_login p s.db))
        (custom_domain_route_name host))
      s.routes

published :
    (p : Project) (host : Text) (s : Handlers.Site)
    → IsRoutable p s
    → Handlers.publish_domain_route true p host s
      ≡ record s { routes = Handlers.apply_route (route_of p host s) s.routes }
unfolding Handlers.publish_domain_route
published p host s (login, target) = rw (login, target) refl

-- Where the tenant has a namespace, the project a deployment to route to and the API answers: once
-- `a.b` and then `a-b` are published for a project, the route that stands under the name for `a.b`
-- is the one of `a-b`.
pub publish_domain_route_overwrites :
    (p : Project) (a b : Text) (s : Handlers.Site)
    → IsRoutable p s
    → route_at p (a ++ b'.' ∷ b) (
        Handlers.publish_domain_route true p
          (a ++ b'-' ∷ b)
          (Handlers.publish_domain_route true p (a ++ b'.' ∷ b) s))
      ≡ some (route_of p (a ++ b'-' ∷ b) s)
publish_domain_route_overwrites p a b s h =
    let first = Handlers.apply_route (route_of p (a ++ b'.' ∷ b) s) s.routes in
    rw
      (published p (a ++ b'.' ∷ b) s h, published p (a ++ b'-' ∷ b) (record s { routes = first }) h)
      (ap
          (λ n.
            find (Handlers.is_route (tenant_namespace_for (Handlers.tenant_login p s.db)) n)
              (Handlers.apply_route (route_of p (a ++ b'-' ∷ b) s) first))
          (sym (route_name_collides a b))
        ∙ find-apply_route (route_of p (a ++ b'-' ∷ b) s) first)

-- Where the caller is let in, the hostname is not empty and not a domain of the project, the tenant
-- has a namespace and the API answers: the delete is answered with 404, and no route is left under
-- the name for the hostname in the tenant's namespace, whichever project it served.
pub handle_delete_project_domain_foreign :
    (id hostname : Text) (u : Option User) (s : Handlers.Site) (p : Project)
    → authorise_project id u s.db ≡ allowed p
    → (Domains.normalise_hostname hostname == []) ≡ false
    → Domains.get_project_domain p.id hostname s.db ≡ none
    → (Handlers.tenant_login p s.db == []) ≡ false
    → ((Handlers.handle_delete_project_domain true id u hostname s).0 ≡ refused 404)
      × (route_at p
            (Domains.normalise_hostname hostname)
            (Handlers.handle_delete_project_domain true id u hostname s).1
          ≡ none)
unfolding Handlers.handle_delete_project_domain Handlers.delete_host Handlers.delete_domain_route
    Handlers.answer_deleted Domains.delete_project_domain Domains.get_project_domain
handle_delete_project_domain_foreign id hostname u s p let_in filled missing login =
    let nh = Domains.normalise_hostname hostname in
    let absent : count (Domains.is_domain p.id (Domains.normalise_hostname nh)) s.db.project_domains
        ≡ 0 =
      rw (normalise_hostname_idem hostname)
        (count-absent (Domains.is_domain p.id nh) s.db.project_domains (ap is_some missing)) in
    rw (let_in, filled, login, absent)
      (
        refl,
        find-deleted_none
            (Handlers.is_route (tenant_namespace_for (Handlers.tenant_login p s.db))
              (custom_domain_route_name nh))
            s.routes,
      )

find-set_verified :
    (project host : Text) (now : ℕ) (ds : List ProjectDomain) (d : ProjectDomain)
    → find (Domains.is_domain project host) ds ≡ some d
    → is_some d.verified_at ≡ false
    → find
        (Domains.is_domain project host)
        (update (Domains.is_unverified project host) (Domains.set_verified now) ds)
      ≡ some (Domains.set_verified now d)
find-set_verified project host now [] d h new = absurd (ground (arith, h))
find-set_verified project host now (x ∷ ds) d h new =
    elim (Bool-cases (Domains.is_domain project host x)) [
      | inl e ↦
          let same : x ≡ d = ground (arith, rw e at h) in
          let e' : Domains.is_domain project host d ≡ true = rw (sym same) e in
          rw (same, e', new, e') refl
      | inr e ↦ rw (e, e) (find-set_verified project host now ds d (rw e at h) new)
    ]

get_normalised :
    (project hostname : Text) (db : Database)
    → Domains.get_project_domain project (Domains.normalise_hostname hostname) db
      ≡ Domains.get_project_domain project hostname db
unfolding Domains.get_project_domain
get_normalised project hostname db =
    ap (λ h. find (Domains.is_domain project h) db.project_domains)
      (normalise_hostname_idem hostname)

get-mark_domain_verified :
    (project hostname : Text) (now : ℕ) (db : Database) (d : ProjectDomain)
    → Domains.get_project_domain project hostname db ≡ some d
    → is_some d.verified_at ≡ false
    → Domains.get_project_domain project hostname
        (Domains.mark_domain_verified project (Domains.normalise_hostname hostname) now db).1
      ≡ some (Domains.set_verified now d)
unfolding Domains.get_project_domain Domains.mark_domain_verified
get-mark_domain_verified project hostname now db d found new =
    rw (normalise_hostname_idem hostname) (
      find-set_verified project (Domains.normalise_hostname hostname) now db.project_domains d found
        new)

published_marked :
    (p : Project) (host name : Text) (now : ℕ) (s : Handlers.Site)
    → IsRoutable p s
    → Handlers.publish_domain_route true p host
        (record s { db = (Domains.mark_domain_verified p.id name now s.db).1 })
      ≡ record s {
        db = (Domains.mark_domain_verified p.id name now s.db).1;
        routes = Handlers.apply_route (route_of p host s) s.routes;
      }
unfolding Domains.mark_domain_verified
published_marked p host name now s h =
    published p host (record s { db = (Domains.mark_domain_verified p.id name now s.db).1 }) h

route_at_marked :
    (p : Project) (hostname : Text) (now : ℕ) (s : Handlers.Site)
    → let nh = Domains.normalise_hostname hostname in
      route_at p nh (record s {
        db = (Domains.mark_domain_verified p.id nh now s.db).1;
        routes = Handlers.apply_route (route_of p nh s) s.routes;
      })
      ≡ some (route_of p nh s)
unfolding Domains.mark_domain_verified
route_at_marked p hostname now s =
    find-apply_route (route_of p (Domains.normalise_hostname hostname) s) s.routes

-- Where the caller is let in, the hostname is an unverified domain of the project whose token DNS
-- has, the tenant has a namespace, the project a deployment to route to and the API answers: the
-- verification is answered with the row, now verified, and the route for the hostname leads to that
-- deployment.
pub handle_verify_project_domain_routes :
    (lookup : Handlers.Resolver) (id hostname : Text) (u : Option User) (now : ℕ)
    (s : Handlers.Site) (p : Project) (d : ProjectDomain)
    → authorise_project id u s.db ≡ allowed p
    → Domains.get_project_domain p.id hostname s.db ≡ some d
    → is_some d.verified_at ≡ false
    → Handlers.check_verification_txt lookup
        (Domains.normalise_hostname hostname)
        d.verification_token
      ≡ true
    → IsRoutable p s
    → let after = Handlers.handle_verify_project_domain lookup true id u hostname now s in
      (after.0 ≡ done (some (Handlers.dto_for_domain (Domains.set_verified now d))))
      × (Domains.get_project_domain p.id hostname after.1.db ≡ some (Domains.set_verified now d))
      × (route_at p (Domains.normalise_hostname hostname) after.1
          ≡ some (route_of p (Domains.normalise_hostname hostname) s))
unfolding Handlers.handle_verify_project_domain Handlers.verify_row Handlers.answer_verified
handle_verify_project_domain_routes lookup id hostname u now s p d let_in found new proven
      routable =
    let nh = Domains.normalise_hostname hostname in
    let marked : Handlers.Site = record s {
      db = (Domains.mark_domain_verified p.id nh now s.db).1;
    } in
    let row = get-mark_domain_verified p.id hostname now s.db d found new in
    rw
      (
        let_in,
        get_normalised p.id hostname s.db,
        found,
        new,
        proven,
        published_marked p nh nh now s routable,
        get_normalised p.id hostname marked.db,
        row,
      )
      (refl, row, route_at_marked p hostname now s)
