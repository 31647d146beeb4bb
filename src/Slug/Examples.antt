-- ===== src/Slug/Examples.antt =====
-- The theorems on slugs at one repository.
use vercel_clone.Prelude.{◌≡◌, false, arith}
use vercel_clone.Prelude.Text.{codes, contains}
use vercel_clone.Slug.{double_dash, collapse}
use vercel_clone.Slug.Shape.{collapse_ends}

collapse_ends_example :
    (contains (collapse 9 (codes "a----b")) double_dash ≡ false)
    × (collapse 9 (codes "a----b") ≡ collapse 6 (codes "a----b"))
collapse_ends_example = collapse_ends (codes "a----b") 9 (ground arith)
