-- ===== src/Tenant/Label.antt =====
-- What `tenantNamespaceFor` returns.
use vercel_clone.Prelude.{
  ℕ, zero, suc, lt→ltb, ltb→lt, ◌≤◌, ◌<◌, ◌≡◌, refl, ap, ◌∙◌, ◌⊎◌, inl, inr, true, false, [], ◌∷◌,
  ◌++◌, arith, Bool, ◌||◌, ◌&&◌, leb, Bool-cases, ltb, length, length-append, length-take-le, take,
  keep, All, All-append, All-take, if◌then◌else◌,
}
use vercel_clone.Prelude.Text.{Text, codes, lower, to_lower, trim, trim_space, is_space}
use vercel_clone.Prelude.Trim.{StartsNot, EndsNot, trim-starts, trim-ends, trim_fixed, All-trim}
use vercel_clone.Slug.{is_dash, is_slug_byte, dash, IsSlugText}
use vercel_clone.Slug.Shape.{to_lower_fixed}
use vercel_clone.Tenant.{
  tenant_namespace_prefix, or_unknown, sanitise, cut_to_fit, tenant_namespace_for,
}

keep-all : (s : Text) → IsSlugText (keep is_slug_byte s)
keep-all [] = tt
keep-all (c ∷ s) = elim (Bool-cases (is_slug_byte c)) [
  | inl e ↦ rw e (e, keep-all s)
  | inr e ↦ rw e (keep-all s)
]

or_unknown-bytes : (s : Text) → IsSlugText s → IsSlugText (or_unknown s)
unfolding or_unknown
or_unknown-bytes [] h = (refl, (refl, (refl, (refl, (refl, (refl, (refl, tt)))))))
or_unknown-bytes (c ∷ s) h = h

or_unknown-starts : (s : Text) → StartsNot is_dash s → StartsNot is_dash (or_unknown s)
unfolding or_unknown
or_unknown-starts [] h = refl
or_unknown-starts (c ∷ s) h = h

or_unknown-pos : (s : Text) → 0 < length (or_unknown s)
unfolding or_unknown
or_unknown-pos [] = omega arith
or_unknown-pos (c ∷ s) = omega arith

sanitise-bytes : (login : Text) → IsSlugText (sanitise login)
unfolding sanitise
sanitise-bytes login =
    or_unknown-bytes _ (All-trim _ is_dash _ (keep-all (to_lower (trim_space login))))

sanitise-starts : (login : Text) → StartsNot is_dash (sanitise login)
unfolding sanitise
sanitise-starts login =
    let kept = keep is_slug_byte (to_lower (trim_space login)) in
    or_unknown-starts (trim is_dash kept) (trim-starts is_dash kept)

sanitise-pos : (login : Text) → 0 < length (sanitise login)
unfolding sanitise
sanitise-pos login = or_unknown-pos _

cut-bytes : (s : Text) → IsSlugText s → IsSlugText (cut_to_fit s)
unfolding cut_to_fit
cut-bytes s h = elim (Bool-cases (ltb 51 (length s))) [
  | inl e ↦ rw e (All-take _ 51 s h)
  | inr e ↦ rw e h
]

cut-starts :
    (s : Text)
    → StartsNot is_dash s
    → 0 < length s
    → StartsNot is_dash (cut_to_fit s) × (0 < length (cut_to_fit s))
unfolding cut_to_fit
cut-starts [] h pos = absurd (omega arith)
cut-starts (c ∷ s) h pos = elim (Bool-cases (ltb 51 (length (c ∷ s)))) [
  | inl e ↦ rw e (h, omega arith)
  | inr e ↦ rw e (h, omega arith)
]

cut-length : (s : Text) → length (cut_to_fit s) ≤ 51
unfolding cut_to_fit
cut-length s = ground (arith, length-take-le 51 s)

or_unknown-ends : (s : Text) → EndsNot is_dash s → EndsNot is_dash (or_unknown s)
unfolding or_unknown
or_unknown-ends [] h = refl
or_unknown-ends (c ∷ s) h = h

sanitise-ends : (login : Text) → EndsNot is_dash (sanitise login)
unfolding sanitise
sanitise-ends login =
    let kept = keep is_slug_byte (to_lower (trim_space login)) in
    or_unknown-ends (trim is_dash kept) (trim-ends is_dash kept)

length-take_long : (n : ℕ) (s : Text) → n < length s → length (take n s) ≡ n
length-take_long zero s h = refl
length-take_long (suc n) [] h = absurd (omega (arith, h))
length-take_long (suc n) (c ∷ s) h = omega (arith, length-take_long n s (omega (arith, h)))

cut-ends :
    (s : Text) → EndsNot is_dash s → EndsNot is_dash (cut_to_fit s) ⊎ (length (cut_to_fit s) ≡ 51)
unfolding cut_to_fit
cut-ends s h = elim (Bool-cases (ltb 51 (length s))) [
  | inl e ↦ rw e (inr (length-take_long 51 s (ltb→lt 51 (length s) e)))
  | inr e ↦ rw e (inl h)
]

full_length : (login : Text) → length login ≡ 51 → length (tenant_namespace_prefix ++ login) ≡ 63
full_length login h = omega (arith, h, length-append tenant_namespace_prefix login)

-- "paas-tenant-" and a text of letters, digits and dashes that is not empty and does not start with a
-- dash, 63 bytes at most together; a dash at the end only where they are 63 bytes.
pub record IsTenantNamespace (ns : Text) : Type 0 where
  pub login : Text
  pub prefixed : ns ≡ codes "paas-tenant-" ++ login
  pub bytes : IsSlugText login
  pub starts : StartsNot is_dash login
  pub ends : EndsNot is_dash login ⊎ (length ns ≡ 63)
  pub nonempty : 0 < length login
  pub fits : length ns ≤ 63

abbrev pub IsAscii : Text → Type 0
IsAscii = All (λ c. c < 128)

-- The namespace of a login of ASCII bytes is "paas-tenant-" and a text of [a-z0-9-] that is not empty and
-- does not start with a dash, 63 bytes at most together; and it does not end with a dash where it has
-- fewer than 63 bytes, so that it is then a DNS-1123 label.
pub tenant_namespace_for-IsTenantNamespace :
    (login : Text) → IsAscii login → IsTenantNamespace (tenant_namespace_for login)
unfolding tenant_namespace_for
tenant_namespace_for-IsTenantNamespace login ascii =
    let s = sanitise login in
    let (starts, pos) = cut-starts s (sanitise-starts login) (sanitise-pos login) in
    record {
      login = cut_to_fit s;
      prefixed = refl;
      bytes = cut-bytes s (sanitise-bytes login);
      starts = starts;
      ends = elim (cut-ends s (sanitise-ends login)) [
        | inl h ↦ inl h
        | inr h ↦ inr (full_length (cut_to_fit s) h)
      ];
      nonempty = pos;
      fits = omega (arith, length-append tenant_namespace_prefix (cut_to_fit s), cut-length s);
    }

-- What GitHub accepts as a login: letters, digits and dashes, no dash at an end, 39 bytes at most.
abbrev pub is_login_byte : ℕ → Bool
is_login_byte c = (leb b'A' c && leb c b'Z') || is_slug_byte c

pub record IsGithubLogin (s : Text) : Type 0 where
  pub bytes : All (λ c. is_login_byte c ≡ true) s
  pub starts : StartsNot is_dash s
  pub ends : EndsNot is_dash s
  pub nonempty : 0 < length s
  pub short : length s ≤ 39

no_space-starts : (s : Text) → All (λ c. is_login_byte c ≡ true) s → StartsNot is_space s
no_space-starts [] h = tt
no_space-starts (c ∷ s) (hc, hs) = ground arith

no_space-ends : (s : Text) → All (λ c. is_login_byte c ≡ true) s → EndsNot is_space s
no_space-ends [] h = tt
no_space-ends (c ∷ []) (hc, hs) = ground arith
no_space-ends (c ∷ d ∷ s) (hc, hs) = no_space-ends (d ∷ s) hs

to_lower-IsSlugText : (s : Text) → All (λ c. is_login_byte c ≡ true) s → IsSlugText (to_lower s)
to_lower-IsSlugText [] h = tt
to_lower-IsSlugText (c ∷ s) (hc, hs) = (ground arith, to_lower-IsSlugText s hs)

lower_dash : (c : ℕ) → is_dash c ≡ false → is_dash (lower c) ≡ false
lower_dash c h = ground arith

to_lower-starts : (s : Text) → StartsNot is_dash s → StartsNot is_dash (to_lower s)
to_lower-starts [] h = h
to_lower-starts (c ∷ s) h = lower_dash c h

to_lower-ends : (s : Text) → EndsNot is_dash s → EndsNot is_dash (to_lower s)
to_lower-ends [] h = h
to_lower-ends (c ∷ []) h = lower_dash c h
to_lower-ends (c ∷ d ∷ s) h = to_lower-ends (d ∷ s) h

keep_fixed : (s : Text) → IsSlugText s → keep is_slug_byte s ≡ s
keep_fixed [] h = refl
keep_fixed (c ∷ s) (hc, hs) = rw hc (ap (λ r. c ∷ r) (keep_fixed s hs))

length-to_lower : (s : Text) → length (to_lower s) ≡ length s
length-to_lower [] = refl
length-to_lower (c ∷ s) = ap suc (length-to_lower s)

sanitise_login : (s : Text) → IsGithubLogin s → sanitise s ≡ or_unknown (to_lower s)
unfolding sanitise
sanitise_login s h = rw (
  trim_fixed is_space s (no_space-starts s h.bytes) (no_space-ends s h.bytes),
  keep_fixed (to_lower s) (to_lower-IsSlugText s h.bytes),
  trim_fixed is_dash (to_lower s) (to_lower-starts s h.starts) (to_lower-ends s h.ends),
)

or_unknown_fixed : (s : Text) → 0 < length s → or_unknown s ≡ s
unfolding or_unknown
or_unknown_fixed [] h = absurd (omega arith)
or_unknown_fixed (c ∷ s) h = refl

cut_fixed : (s : Text) → length s ≤ 51 → cut_to_fit s ≡ s
unfolding cut_to_fit
cut_fixed s h = ground arith

-- The namespace of a login that GitHub can issue is the prefix and the login in lower case: nothing
-- is dropped or cut.
pub tenant_namespace_for_login :
    (s : Text) → IsGithubLogin s → tenant_namespace_for s ≡ tenant_namespace_prefix ++ to_lower s
unfolding tenant_namespace_for
tenant_namespace_for_login s h =
    let n = length-to_lower s in
    let fits : length (to_lower s) ≤ 51 = omega (arith, h.short, n) in
    let pos : 0 < length (to_lower s) = omega (arith, h.nonempty, n) in
    ap (λ r. tenant_namespace_prefix ++ cut_to_fit r)
      (sanitise_login s h ∙ or_unknown_fixed (to_lower s) pos)
    ∙ ap (λ r. tenant_namespace_prefix ++ r) (cut_fixed (to_lower s) fits)

slug_login-bytes : (s : Text) → IsSlugText s → All (λ c. is_login_byte c ≡ true) s
slug_login-bytes [] h = tt
slug_login-bytes (c ∷ s) (hc, hs) = (ground arith, slug_login-bytes s hs)

sanitise_slug :
    (s : Text)
    → IsSlugText s
    → StartsNot is_dash s
    → EndsNot is_dash s
    → 0 < length s
    → sanitise s ≡ s
unfolding sanitise
sanitise_slug s h starts ends pos =
    let hl = slug_login-bytes s h in
    rw
      (
        trim_fixed is_space s (no_space-starts s hl) (no_space-ends s hl),
        to_lower_fixed s h,
        keep_fixed s h,
        trim_fixed is_dash s starts ends,
      )
      (or_unknown_fixed s pos)

take-snoc : (s : Text) (n d : ℕ) (t : Text) → length s ≡ n → take (suc n) (s ++ d ∷ t) ≡ s ++ d ∷ []
take-snoc [] zero d t h = refl
take-snoc [] (suc n) d t h = absurd (omega arith)
take-snoc (c ∷ s) zero d t h = absurd (omega arith)
take-snoc (c ∷ s) (suc n) d t h = ap (λ r. c ∷ r) (take-snoc s n d t (omega arith))

ends-cons2 : (s : Text) (d c : ℕ) → is_dash c ≡ false → EndsNot is_dash (s ++ d ∷ c ∷ [])
ends-cons2 [] d c h = h
ends-cons2 (a ∷ []) d c h = h
ends-cons2 (a ∷ b ∷ s) d c h = ends-cons2 (b ∷ s) d c h

starts-append : (s t : Text) → StartsNot is_dash s → 0 < length s → StartsNot is_dash (s ++ t)
starts-append [] t h pos = absurd (omega arith)
starts-append (a ∷ s) t h pos = h

-- The cut to 51 bytes comes after the dashes are trimmed: a text of 52 bytes whose 51st is a dash
-- gets a namespace that ends with a dash, which is no DNS-1123 label.
pub tenant_namespace_for_cut :
    (s : Text) (c : ℕ)
    → length s ≡ 50
    → IsSlugText s
    → StartsNot is_dash s
    → is_slug_byte c ≡ true
    → is_dash c ≡ false
    → tenant_namespace_for (s ++ dash ∷ c ∷ []) ≡ tenant_namespace_prefix ++ (s ++ dash ∷ [])
unfolding tenant_namespace_for cut_to_fit
tenant_namespace_for_cut s c n h starts hc hd =
    let t = s ++ dash ∷ c ∷ [] in
    let ht : IsSlugText t = All-append _ s (dash ∷ c ∷ []) h (refl, (hc, tt)) in
    let same : sanitise t ≡ t =
      sanitise_slug t ht (starts-append s (dash ∷ c ∷ []) starts (omega arith))
        (ends-cons2 s dash c hd) (omega (arith, length-append s (dash ∷ c ∷ []))) in
    let long : ltb 51 (length t) ≡ true =
      lt→ltb 51 (length t) (omega (arith, length-append s (dash ∷ c ∷ []))) in
    ap (λ r. tenant_namespace_prefix ++ r)
      (ap cut_to_fit same
        ∙ ap (λ b. if b then take 51 t else t) long
        ∙ take-snoc s 50 dash (c ∷ []) n)
