-- ===== src/Domains/Handlers/Registry.antt =====
-- What the handlers keep true of the registered hostnames.
use mathlib.Core.Path.{subst}
use vercel_clone.Prelude.{
  ℕ, ◌≡◌, refl, sym, ap, ◌∙◌, arith, inl, inr, Bool, true, false, Option, none, some, ◌==◌, [], ◌∷◌,
  Bool-cases, if◌then◌else◌, is_some,
}
use vercel_clone.Prelude.Text.{Text, text_key, lower, to_lower, is_space, trim_space}
use vercel_clone.Prelude.Trim.{StartsNot, EndsNot, trim-starts, trim-ends, trim_fixed}
use vercel_clone.Prelude.Table.{find}
use vercel_clone.Store.{Project, User, ProjectDomain, Database}
use vercel_clone.Store.Accounts.{authorise_project}
use vercel_clone.Http.{with_project-keeps}
use vercel_clone.Domains.Hostnames.{
  IsRegistry, added-IsRegistry, verified-IsRegistry, deleted-IsRegistry,
}
use vercel_clone.Domains
use vercel_clone.Domains.Handlers

lower-lower : (c : ℕ) → lower (lower c) ≡ lower c
lower-lower c = ground arith

is_space-lower : (c : ℕ) → is_space (lower c) ≡ is_space c
is_space-lower c = ground arith

to_lower-to_lower : (s : Text) → to_lower (to_lower s) ≡ to_lower s
to_lower-to_lower [] = refl
to_lower-to_lower (c ∷ s) = rw (lower-lower c, to_lower-to_lower s) refl

to_lower-StartsNot : (s : Text) → StartsNot is_space s → StartsNot is_space (to_lower s)
to_lower-StartsNot [] h = tt
to_lower-StartsNot (c ∷ s) h = is_space-lower c ∙ h

to_lower-EndsNot : (s : Text) → EndsNot is_space s → EndsNot is_space (to_lower s)
to_lower-EndsNot [] h = tt
to_lower-EndsNot (c ∷ []) h = is_space-lower c ∙ h
to_lower-EndsNot (c ∷ d ∷ s) h = to_lower-EndsNot (d ∷ s) h

pub normalise_hostname_idem :
    (h : Text)
    → Domains.normalise_hostname (Domains.normalise_hostname h) ≡ Domains.normalise_hostname h
unfolding Domains.normalise_hostname
normalise_hostname_idem h =
    rw
      (trim_fixed is_space (to_lower (trim_space h))
        (to_lower-StartsNot (trim_space h) (trim-starts is_space h))
        (to_lower-EndsNot (trim_space h) (trim-ends is_space h)))
      (to_lower-to_lower (trim_space h))

abbrev pub HasRegistry : Handlers.Site → Type 0
HasRegistry s = IsRegistry s.db.project_domains

-- `add_project_domain` of a public name, normalised a second time.
add_row-HasRegistry :
    (project host token : Text) (now : ℕ) (s : Handlers.Site)
    → Domains.is_hostname host ≡ true
    → Domains.is_platform_host host ≡ false
    → HasRegistry s
    → HasRegistry (Handlers.answer_added s (Domains.add_row project host token now s.db)).1
unfolding Handlers.answer_added Domains.add_row
add_row-HasRegistry project host token now s public ours h =
    elim (Bool-cases (Domains.fits_column host)) [
      | inr e ↦ rw e h
      | inl e ↦
          elim (Bool-cases (is_some (find (Domains.has_hostname host) s.db.project_domains))) [
            | inl taken ↦ rw (e, taken) h
            | inr free ↦
                rw (e, free)
                  (added-IsRegistry project host token now s.db.project_domains (public, ours, e)
                    free h)
          ]
    ]

add_host-HasRegistry :
    (host token : Text) (now : ℕ) (s : Handlers.Site) (p : Project)
    → Domains.normalise_hostname host ≡ host
    → HasRegistry s
    → HasRegistry (Handlers.add_host host token now s p).1
unfolding Handlers.add_host Domains.add_project_domain
add_host-HasRegistry host token now s p normal h = elim (Bool-cases (Domains.is_hostname host)) [
  | inr e ↦ rw e h
  | inl e ↦ elim (Bool-cases (Domains.is_platform_host host)) [
    | inl ours ↦ rw (e, ours) h
    | inr other ↦ rw (e, other, normal) (add_row-HasRegistry p.id host token now s e other h)
  ]
]

pub publish_same_db :
    (reachable : Bool) (p : Project) (host : Text) (s : Handlers.Site)
    → (Handlers.publish_domain_route reachable p host s).db ≡ s.db
unfolding Handlers.publish_domain_route
publish_same_db reachable p host s = elim (Bool-cases (Handlers.tenant_login p s.db == [])) [
  | inl e ↦ rw e refl
  | inr e ↦ elim (Bool-cases (Handlers.target_sha (Handlers.latest_five p.id s.db) == [])) [
    | inl z ↦ rw (e, z) refl
    | inr z ↦ elim (Bool-cases reachable) [ inl r ↦ rw (e, z, r) refl | inr r ↦ rw (e, z, r) refl ]
  ]
]

pub unroute_same_db :
    (reachable : Bool) (p : Project) (host : Text) (s : Handlers.Site)
    → (Handlers.delete_domain_route reachable p host s).db ≡ s.db
unfolding Handlers.delete_domain_route
unroute_same_db reachable p host s = elim (Bool-cases (Handlers.tenant_login p s.db == [])) [
  | inl e ↦ rw e refl
  | inr e ↦ elim (Bool-cases reachable) [ inl r ↦ rw (e, r) refl | inr r ↦ rw (e, r) refl ]
]

add_decoded-HasRegistry :
    (body : Option Text) (token : Text) (now : ℕ) (s : Handlers.Site) (p : Project)
    → HasRegistry s
    → HasRegistry (Handlers.add_decoded body token now s p).1
unfolding Handlers.add_decoded
add_decoded-HasRegistry none token now s p h = h
add_decoded-HasRegistry (some hostname) token now s p h =
    add_host-HasRegistry (Domains.normalise_hostname hostname) token now s p
      (normalise_hostname_idem hostname) h

answer_same_db :
    (s : Handlers.Site) (o : Option ProjectDomain) → (Handlers.answer_verified s o).1 ≡ s
unfolding Handlers.answer_verified
answer_same_db s none = refl
answer_same_db s (some d) = refl

-- The database after a verification of a row.
pub verify_row_db :
    (lookup : Handlers.Resolver) (reachable : Bool) (host : Text) (now : ℕ) (s : Handlers.Site)
    (p : Project) (d : ProjectDomain)
    → (Handlers.verify_row lookup reachable host now s p (some d)).1.db ≡ (
        if is_some d.verified_at
        then s.db
        else if Handlers.check_verification_txt lookup host d.verification_token
        then (Domains.mark_domain_verified p.id host now s.db).1
        else s.db)
unfolding Handlers.verify_row
verify_row_db lookup reachable host now s p d = elim (Bool-cases (is_some d.verified_at)) [
  | inl e ↦ rw e (publish_same_db reachable p host s)
  | inr e ↦ elim (Bool-cases (Handlers.check_verification_txt lookup host d.verification_token)) [
    | inr z ↦ rw (e, z) refl
    | inl z ↦
        let marked : Handlers.Site = record s {
          db = (Domains.mark_domain_verified p.id host now s.db).1;
        } in
        rw (e, z) (ap (λ t. t.db) (answer_same_db _ _) ∙ publish_same_db reachable p host marked)
  ]
]

verify_row-HasRegistry :
    (lookup : Handlers.Resolver) (reachable : Bool) (host : Text) (now : ℕ) (s : Handlers.Site)
    (p : Project) (o : Option ProjectDomain)
    → HasRegistry s
    → HasRegistry (Handlers.verify_row lookup reachable host now s p o).1
unfolding Handlers.verify_row Domains.mark_domain_verified
verify_row-HasRegistry lookup reachable host now s p none h = h
verify_row-HasRegistry lookup reachable host now s p (some d) h =
    subst (λ db. IsRegistry db.project_domains)
      (sym (verify_row_db lookup reachable host now s p d))
      (elim (Bool-cases (is_some d.verified_at)) [
        | inl e ↦ rw e h
        | inr e ↦
            elim (Bool-cases (Handlers.check_verification_txt lookup host d.verification_token)) [
              | inr z ↦ rw (e, z) h
              | inl z ↦
                  rw (e, z)
                    (verified-IsRegistry p.id (Domains.normalise_hostname host) now
                      s.db.project_domains h)
            ]
      ])

answer_deleted_db :
    (s : Handlers.Site) (r : Bool × Database) → (Handlers.answer_deleted s r).1.db ≡ r.1
unfolding Handlers.answer_deleted
answer_deleted_db s (false, db) = refl
answer_deleted_db s (true, db) = refl

delete_host-HasRegistry :
    (reachable : Bool) (host : Text) (s : Handlers.Site) (p : Project)
    → HasRegistry s
    → HasRegistry (Handlers.delete_host reachable host s p).1
unfolding Handlers.delete_host Domains.delete_project_domain
delete_host-HasRegistry reachable host s p h = elim (Bool-cases (host == [])) [
  | inl e ↦ rw e h
  | inr e ↦
      let unrouted = Handlers.delete_domain_route reachable p host s in
      rw e (
        subst (λ db. IsRegistry db.project_domains)
          (sym (answer_deleted_db unrouted (Domains.delete_project_domain p.id host unrouted.db)))
          (deleted-IsRegistry p.id (Domains.normalise_hostname host) unrouted.db.project_domains (
            subst (λ db. IsRegistry db.project_domains) (sym (unroute_same_db reachable p host s))
              h)))
]

-- Where every registered hostname is a name of two labels at least that is not the platform's, and
-- none is registered twice, that is so after an add, a verification and a delete, whoever asks for
-- it and whatever DNS and the cluster answer.
pub domain_handlers_keep :
    (lookup : Handlers.Resolver) (reachable : Bool) (id hostname token : Text) (u : Option User)
    (body : Option Text) (now : ℕ) (s : Handlers.Site)
    → HasRegistry s
    → HasRegistry (Handlers.handle_add_project_domain id u body token now s).1
      × HasRegistry (Handlers.handle_verify_project_domain lookup reachable id u hostname now s).1
      × HasRegistry (Handlers.handle_delete_project_domain reachable id u hostname s).1
unfolding Handlers.handle_add_project_domain Handlers.handle_verify_project_domain
    Handlers.handle_delete_project_domain
domain_handlers_keep lookup reachable id hostname token u body now s h = (
  with_project-keeps HasRegistry (authorise_project id u s.db) s
      (Handlers.add_decoded body token now s) h (λ p. add_decoded-HasRegistry body token now s p h),
  with_project-keeps HasRegistry (authorise_project id u s.db) s
      (λ p.
        Handlers.verify_row lookup reachable (Domains.normalise_hostname hostname) now s p
          (Domains.get_project_domain p.id (Domains.normalise_hostname hostname) s.db))
      h
      (λ p.
        verify_row-HasRegistry lookup reachable (Domains.normalise_hostname hostname) now s p
          (Domains.get_project_domain p.id (Domains.normalise_hostname hostname) s.db) h),
  with_project-keeps HasRegistry (authorise_project id u s.db) s
      (Handlers.delete_host reachable (Domains.normalise_hostname hostname) s) h
      (λ p. delete_host-HasRegistry reachable (Domains.normalise_hostname hostname) s p h),
)
