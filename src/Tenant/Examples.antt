-- ===== src/Tenant/Examples.antt =====
-- The theorems on tenant namespaces at concrete logins.
use vercel_clone.Prelude.{◌≡◌, Bool, true, ◌&&◌, ◌∷◌, [], arith}
use vercel_clone.Prelude.Text.{Text, codes}
use vercel_clone.Slug.{is_slug_byte, IsSlugText}
use vercel_clone.Tenant.{tenant_namespace_for}
use vercel_clone.Tenant.Label.{IsTenantNamespace, tenant_namespace_for-IsTenantNamespace}

tenant_namespace_for-IsTenantNamespace_example :
    IsTenantNamespace (tenant_namespace_for (codes " --_ "))
tenant_namespace_for-IsTenantNamespace_example =
    tenant_namespace_for-IsTenantNamespace (codes " --_ ") (ground arith)

abbrev is_safe : Text → Bool
is_safe [] = true
is_safe (c ∷ s) = is_slug_byte c && is_safe s

text-safe : (s : Text) → is_safe s ≡ true → IsSlugText s
text-safe [] h = tt
text-safe (c ∷ s) h = (ground arith, text-safe s (ground arith))

abbrev fifty : Text
fifty = codes "aaaaaaaaaabbbbbbbbbbccccccccccddddddddddeeeeeeeeee"
