-- ===== src/Domains/Hostnames.antt =====
-- The hostnames that are registered: public ones, each of them once.
use vercel_clone.Prelude.{
  ℕ, ◌≤◌, ◌≡◌, refl, sym, ap, ◌∙◌, inl, inr, true, false, List, [], ◌∷◌, ◌++◌, ◌==◌, arith,
  Bool-cases, eq_of_==, is_some, All, All-append,
}
use vercel_clone.Prelude.Text.{Text, text_key}
use vercel_clone.Prelude.Table.{
  update, find, count, delete, All-update, All-delete, count-update, count-append_one, count-absent,
  count-delete_le,
}
use vercel_clone.Store.{ProjectDomain}
use vercel_clone.Domains

-- A name of two labels at least that is not the platform's.
abbrev pub IsPublic : ProjectDomain → Type 0
IsPublic d =
    (Domains.is_hostname d.hostname ≡ true)
    × (Domains.is_platform_host d.hostname ≡ false)
    × (Domains.fits_column d.hostname ≡ true)

abbrev pub IsRegistry : List ProjectDomain → Type 0
IsRegistry ds = All IsPublic ds × ((host : Text) → count (Domains.has_hostname host) ds ≤ 1)

-- A row with a name that no row has.
pub added-IsRegistry :
    (project host token : Text) (now : ℕ) (ds : List ProjectDomain)
    → IsPublic (Domains.new_domain project host token now)
    → is_some (find (Domains.has_hostname host) ds) ≡ false
    → IsRegistry ds
    → IsRegistry (ds ++ Domains.new_domain project host token now ∷ [])
added-IsRegistry project host token now ds h absent (public, once) = (
  All-append IsPublic ds (Domains.new_domain project host token now ∷ []) public (h, tt),
  λ other.
      count-append_one (Domains.has_hostname other) ds (Domains.new_domain project host token now)
        (once other)
        (elim (Bool-cases (host == other)) [
          | inr e ↦ inl e
          | inl e ↦ inr (
              ap (λ x. count (Domains.has_hostname x) ds) (sym (eq_of_== e))
              ∙ count-absent (Domains.has_hostname host) ds absent)
        ]),
)

pub verified-IsRegistry :
    (project host : Text) (now : ℕ) (ds : List ProjectDomain)
    → IsRegistry ds
    → IsRegistry (update (Domains.is_unverified project host) (Domains.set_verified now) ds)
verified-IsRegistry project host now ds (public, once) = (
  All-update IsPublic (Domains.is_unverified project host) (Domains.set_verified now) (λ d _ h. h)
      ds public,
  λ other.
      rw
        (count-update (Domains.has_hostname other) (Domains.is_unverified project host)
          (Domains.set_verified now) (λ d. refl) ds)
        (once other),
)

pub deleted-IsRegistry :
    (project host : Text) (ds : List ProjectDomain)
    → IsRegistry ds
    → IsRegistry (delete (Domains.is_domain project host) ds)
deleted-IsRegistry project host ds (public, once) = (
  All-delete IsPublic (Domains.is_domain project host) ds public,
  λ other. omega (
    arith,
    once other,
    count-delete_le (Domains.has_hostname other) (Domains.is_domain project host) ds,
  ),
)
