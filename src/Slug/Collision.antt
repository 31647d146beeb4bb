-- ===== src/Slug/Collision.antt =====
-- Repositories whose slugs are equal. The column `projects.slug` is unique, so the second one of
-- such a pair cannot become a project.
use mathlib.Core.List.{append_assoc}
use vercel_clone.Prelude.{
  ◌≡◌, refl, ap, ◌∙◌, sym, true, false, [], ◌∷◌, ◌++◌, arith, length, All-append,
}
use vercel_clone.Prelude.Text.{Text, lower, to_lower, trim}
use vercel_clone.Slug.{IsSlugText, dash, is_dash, replace_unsafe, collapse, slugify}
use vercel_clone.Slug.Shape.{to_lower_fixed, replace_unsafe_fixed}

replace_unsafe-append :
    (s t : Text) → IsSlugText s → replace_unsafe false (s ++ t) ≡ s ++ replace_unsafe false t
unfolding replace_unsafe
replace_unsafe-append [] t h = refl
replace_unsafe-append (c ∷ s) t (hc, hs) = rw hc (ap (λ r. c ∷ r) (replace_unsafe-append s t hs))

replace_slash :
    (s t : Text)
    → IsSlugText s
    → IsSlugText t
    → replace_unsafe false (s ++ b'/' ∷ t) ≡ s ++ dash ∷ t
replace_slash s t hs ht =
    replace_unsafe-append s (b'/' ∷ t) hs
    ∙ ap (λ r. s ++ r)
        (unfold replace_unsafe in ap (λ r. dash ∷ r) (replace_unsafe_fixed true t ht))

to_lower_slash :
    (s t : Text) → IsSlugText s → IsSlugText t → to_lower (s ++ b'/' ∷ t) ≡ s ++ b'/' ∷ t
to_lower_slash [] t hs ht = ap (λ r. b'/' ∷ r) (to_lower_fixed t ht)
to_lower_slash (c ∷ s) t (hc, hs) ht =
    let e : lower c ≡ c = ground arith in cc (e, to_lower_slash s t hs ht)

raw_slash :
    (s t : Text)
    → IsSlugText s
    → IsSlugText t
    → replace_unsafe false (to_lower (s ++ b'/' ∷ t)) ≡ s ++ dash ∷ t
raw_slash s t hs ht = ap (replace_unsafe false) (to_lower_slash s t hs ht) ∙ replace_slash s t hs ht

-- The slash between owner and repository becomes a dash: moving it to another dash of the full
-- name gives another repository with the same slug.
pub slugify_collision :
    (a b c : Text)
    → IsSlugText a
    → IsSlugText b
    → IsSlugText c
    → slugify (a ++ b'/' ∷ (b ++ dash ∷ c)) ≡ slugify ((a ++ dash ∷ b) ++ b'/' ∷ c)
unfolding slugify
slugify_collision a b c ha hb hc =
    ap (λ r. collapse (length (trim is_dash r)) (trim is_dash r))
      (raw_slash a (b ++ dash ∷ c) ha (All-append _ b (dash ∷ c) hb (refl, hc))
        ∙ sym (append_assoc a (dash ∷ b) (dash ∷ c))
        ∙ sym (raw_slash (a ++ dash ∷ b) c (All-append _ a (dash ∷ b) ha (refl, hb)) hc))
