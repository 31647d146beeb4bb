-- ===== src/Slug.antt =====
-- `slugify` (control-plane/store.go): the URL-safe name of a project, which names its hosts, its
-- Deployments and its routes. Text is ASCII: `strings.ToLower` on other letters is not modelled.
pub mod Shape
pub mod Collision
mod Examples
use vercel_clone.Prelude.{
  ℕ, zero, suc, ◌≡◌, refl, Bool, true, false, not, ◌&&◌, ◌||◌, List, [], ◌∷◌, leb, nat_eq, length,
  if◌then◌else◌, All,
}
use vercel_clone.Prelude.Text.{Text, codes, to_lower, trim, contains}

abbrev pub dash : ℕ
dash = b'-'

abbrev pub is_dash : ℕ → Bool
is_dash c = nat_eq c b'-'

-- The class [a-z0-9-]; the regular expression `slugUnsafe` matches runs of what is outside.
abbrev pub is_slug_byte : ℕ → Bool
is_slug_byte c = (leb b'a' c && leb c b'z') || (leb b'0' c && leb c b'9') || nat_eq c b'-'

abbrev pub IsSlugText : Text → Type 0
IsSlugText = All (λ c. is_slug_byte c ≡ true)

-- slugUnsafe.ReplaceAllString(s, "-"); the first argument says that a run is open.
pub replace_unsafe : Bool → Text → Text
replace_unsafe open_run [] = []
replace_unsafe open_run (c ∷ s) =
    let rest = replace_unsafe (not (is_slug_byte c)) s in
    if is_slug_byte c then c ∷ rest else if open_run then rest else dash ∷ rest

-- strings.ReplaceAll(s, "--", "-").
pub halve_dashes : Text → Text
halve_dashes [] = []
halve_dashes (c ∷ []) = c ∷ []
halve_dashes (c ∷ d ∷ s) = elim (is_dash c && is_dash d) [
  | true ↦ dash ∷ halve_dashes s
  | false ↦ c ∷ halve_dashes (d ∷ s)
]

abbrev pub double_dash : Text
double_dash = codes "--"

-- `for strings.Contains(s, "--") { … }` with fuel.
pub collapse : ℕ → Text → Text
unfolding halve_dashes
collapse zero s = s
collapse (suc fuel) s =
    let rest = collapse fuel (halve_dashes s) in if contains s double_dash then rest else s

unfoldable pub slugify : Text → Text
unfolding replace_unsafe halve_dashes collapse
slugify s =
    let trimmed = trim is_dash (replace_unsafe false (to_lower s)) in
    collapse (length trimmed) trimmed

slugify_sample :
    slugify (codes "jamilshaikh07/Paas__Sample--hello!") ≡ codes "jamilshaikh07-paas-sample-hello"
unfolding slugify
slugify_sample = refl
