-- ===== src/Isolation/Examples.antt =====
-- A tenant on the server in memory.
use vercel_clone.Prelude.{◌≡◌, refl, []}
use vercel_clone.Prelude.Text.{Text, codes}
use vercel_clone.Prelude.Result.{ok}
use vercel_clone.Kube.{apply}
use vercel_clone.Kube.Memory.{memory}
use vercel_clone.Isolation.{tenant_objects, apply_each}

-- The server in memory refuses none of the objects.
none_refused :
    (apply_each memory (tenant_objects memory (codes "paas-tenant-ada") (codes "ada")) []).0 ≡ ok tt
unfolding apply_each apply
none_refused = refl
