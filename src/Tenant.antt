-- ===== src/Tenant.antt =====
-- `tenantNamespaceFor` (control-plane/tenant.go): the Kubernetes namespace of a GitHub login.
-- Text is ASCII, as in Slug.
pub mod Label
mod Examples
use vercel_clone.Prelude.{
  ℕ, ◌≡◌, refl, Bool, true, false, List, [], ◌∷◌, ◌++◌, ltb, length, take, keep, if◌then◌else◌,
}
use vercel_clone.Prelude.Text.{Text, codes, to_lower, trim, trim_space}
use vercel_clone.Slug.{is_dash, is_slug_byte}

abbrev pub tenant_namespace_prefix : Text
tenant_namespace_prefix = codes "paas-tenant-"

or_unknown : Text → Text
or_unknown [] = codes "unknown"
or_unknown (c ∷ s) = c ∷ s

-- The login without what `tenantSlugSanitizer` matches, and without dashes at its ends.
sanitise : Text → Text
unfolding or_unknown
sanitise login = or_unknown (trim is_dash (keep is_slug_byte (to_lower (trim_space login))))

-- 63 - len("paas-tenant-") bytes of room.
cut_to_fit : Text → Text
cut_to_fit s = if ltb 51 (length s) then take 51 s else s

unfoldable pub tenant_namespace_for : Text → Text
unfolding sanitise cut_to_fit
tenant_namespace_for login = tenant_namespace_prefix ++ cut_to_fit (sanitise login)

tenant_namespace_sample :
    tenant_namespace_for (codes " Jamil_Shaikh07- ") ≡ codes "paas-tenant-jamilshaikh07"
unfolding tenant_namespace_for
tenant_namespace_sample = refl
