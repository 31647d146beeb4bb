-- ===== src/Slug/Shape.antt =====
-- What `slugify` returns.
use vercel_clone.Prelude.{
  ℕ, zero, suc, ◌≤◌, ◌<◌, ◌≡◌, refl, ap, inl, inr, Bool, true, false, ◌&&◌, [], ◌∷◌, arith,
  Bool-cases, length, if◌then◌else◌,
}
use vercel_clone.Prelude.Text.{Text, lower, to_lower, trim, contains}
use vercel_clone.Prelude.Trim.{StartsNot, EndsNot, trim-starts, trim-ends, trim_fixed, All-trim}
use vercel_clone.Slug.{
  dash, is_dash, is_slug_byte, IsSlugText, replace_unsafe, halve_dashes, double_dash, collapse,
  slugify,
}

-- A slug holds only [a-z0-9-], has no dash at an end and no two dashes in a row.
pub record IsSlug (s : Text) : Type 0 where
  pub bytes : IsSlugText s
  pub starts : StartsNot is_dash s
  pub ends : EndsNot is_dash s
  pub single : contains s double_dash ≡ false

replace_unsafe-safe : (b : Bool) (s : Text) → IsSlugText (replace_unsafe b s)
unfolding replace_unsafe
replace_unsafe-safe b [] = tt
replace_unsafe-safe b (c ∷ s) = elim (Bool-cases (is_slug_byte c)) [
  | inl e ↦ rw e (e, replace_unsafe-safe false s)
  | inr e ↦ rw e (go b (replace_unsafe true s) (replace_unsafe-safe true s))
]
  where
    go : (b : Bool) (t : Text) → IsSlugText t → IsSlugText (if b then t else dash ∷ t)
    go true t h = h
    go false t h = (refl, h)

halve_pair :
    (c d : ℕ) (s : Text)
    → (is_dash c && is_dash d) ≡ true
    → halve_dashes (c ∷ d ∷ s) ≡ dash ∷ halve_dashes s
unfolding halve_dashes
halve_pair c d s e = ground arith

halve_step :
    (c d : ℕ) (s : Text)
    → (is_dash c && is_dash d) ≡ false
    → halve_dashes (c ∷ d ∷ s) ≡ c ∷ halve_dashes (d ∷ s)
unfolding halve_dashes
halve_step c d s e = ground arith

-- What holds of the bytes, of the first one and of the last one is kept by one pass.
halve-bytes : (s : Text) → IsSlugText s → IsSlugText (halve_dashes s)
halve-bytes [] h = unfold halve_dashes in h
halve-bytes (c ∷ []) h = unfold halve_dashes in h
halve-bytes (c ∷ d ∷ s) (hc, (hd, hs)) = elim (Bool-cases (is_dash c && is_dash d)) [
  | inl e ↦ rw (halve_pair c d s e) (refl, halve-bytes s hs)
  | inr e ↦ rw (halve_step c d s e) (hc, halve-bytes (d ∷ s) (hd, hs))
]

halve-starts : (s : Text) → StartsNot is_dash s → StartsNot is_dash (halve_dashes s)
halve-starts [] h = unfold halve_dashes in h
halve-starts (c ∷ []) h = unfold halve_dashes in h
halve-starts (c ∷ d ∷ s) h = rw (halve_step c d s (ground arith)) h

halve-nonempty : (d : ℕ) (s : Text) → (c : ℕ) × (t : Text) × (halve_dashes (d ∷ s) ≡ c ∷ t)
halve-nonempty d [] = (d, [], unfold halve_dashes in refl)
halve-nonempty d (e ∷ s) = elim (Bool-cases (is_dash d && is_dash e)) [
  | inl p ↦ (dash, halve_dashes s, halve_pair d e s p)
  | inr p ↦ (d, halve_dashes (e ∷ s), halve_step d e s p)
]

EndsNot-cons :
    (c d : ℕ) (s : Text)
    → EndsNot is_dash (halve_dashes (d ∷ s))
    → EndsNot is_dash (c ∷ halve_dashes (d ∷ s))
EndsNot-cons c d s h = let (a, t, e) = halve-nonempty d s in rw e (rw e at h)

halve-ends : (s : Text) → EndsNot is_dash s → EndsNot is_dash (halve_dashes s)
halve-ends [] h = unfold halve_dashes in h
halve-ends (c ∷ []) h = unfold halve_dashes in h
halve-ends (c ∷ d ∷ []) h = rw (halve_step c d [] (ground arith)) (unfold halve_dashes in h)
halve-ends (c ∷ d ∷ b ∷ s) h = elim (Bool-cases (is_dash c && is_dash d)) [
  | inl e ↦ rw (halve_pair c d (b ∷ s) e) (EndsNot-cons dash b s (halve-ends (b ∷ s) h))
  | inr e ↦ rw (halve_step c d (b ∷ s) e) (EndsNot-cons c d (b ∷ s) (halve-ends (d ∷ b ∷ s) h))
]

halve-length : (s : Text) → length (halve_dashes s) ≤ length s
halve-length [] = unfold halve_dashes in omega arith
halve-length (c ∷ []) = unfold halve_dashes in omega arith
halve-length (c ∷ d ∷ s) = elim (Bool-cases (is_dash c && is_dash d)) [
  | inl e ↦ rw (halve_pair c d s e) (omega (arith, halve-length s))
  | inr e ↦ rw (halve_step c d s e) (omega (arith, halve-length (d ∷ s)))
]

-- A pass over a text with two dashes in a row shortens it, so the loop ends.
halve-shorter : (s : Text) → contains s double_dash ≡ true → length (halve_dashes s) < length s
halve-shorter [] h = absurd (ground arith)
halve-shorter (c ∷ []) h = absurd (ground arith)
halve-shorter (c ∷ d ∷ s) h = elim (Bool-cases (is_dash c && is_dash d)) [
  | inl e ↦ rw (halve_pair c d s e) (omega (arith, halve-length s))
  | inr e ↦ rw (halve_step c d s e) (
      let h' : contains (d ∷ s) double_dash ≡ true = ground arith in
      omega (arith, halve-shorter (d ∷ s) h'))
]

collapse-single :
    (fuel : ℕ) (s : Text) → length s ≤ fuel → contains (collapse fuel s) double_dash ≡ false
unfolding collapse
collapse-single zero [] h = refl
collapse-single zero (c ∷ s) h = absurd (omega arith)
collapse-single (suc fuel) s h = elim (Bool-cases (contains s double_dash)) [
  | inl e ↦ rw e (collapse-single fuel (halve_dashes s) (omega (arith, halve-shorter s e)))
  | inr e ↦ rw e e
]

collapse_same :
    (fuel more : ℕ) (s : Text)
    → length s ≤ fuel
    → length s ≤ more
    → collapse fuel s ≡ collapse more s
unfolding collapse
collapse_same zero zero s h k = refl
collapse_same zero (suc more) [] h k = refl
collapse_same zero (suc more) (c ∷ s) h k = absurd (omega arith)
collapse_same (suc fuel) zero [] h k = refl
collapse_same (suc fuel) zero (c ∷ s) h k = absurd (omega arith)
collapse_same (suc fuel) (suc more) s h k = elim (Bool-cases (contains s double_dash)) [
  | inl e ↦ rw e (
      collapse_same fuel more (halve_dashes s) (omega (arith, h, halve-shorter s e))
        (omega (arith, k, halve-shorter s e)))
  | inr e ↦ rw e refl
]

-- The loop that replaces two dashes by one ends: as many rounds as the text has bytes are enough to
-- reach a text without two dashes in a row, and more rounds do not change it.
pub collapse_ends :
    (s : Text) (fuel : ℕ)
    → length s ≤ fuel
    → (contains (collapse fuel s) double_dash ≡ false) × (collapse fuel s ≡ collapse (length s) s)
collapse_ends s fuel h = (collapse-single fuel s h, collapse_same fuel (length s) s h (omega arith))

module _ {κ} (P : Text → Type κ) (keeps : (s : Text) → P s → P (halve_dashes s)) where
  collapse-keeps : (fuel : ℕ) (s : Text) → P s → P (collapse fuel s)
  unfolding collapse
  collapse-keeps zero s h = h
  collapse-keeps (suc fuel) s h = elim (Bool-cases (contains s double_dash)) [
    | inl e ↦ rw e (collapse-keeps fuel (halve_dashes s) (keeps s h))
    | inr e ↦ rw e h
  ]

-- For every text the slug holds only lower-case letters, digits and dashes, neither starts nor
-- ends with a dash, and has no two dashes in a row.
pub slugify-IsSlug : (s : Text) → IsSlug (slugify s)
unfolding slugify
slugify-IsSlug s =
    let raw = replace_unsafe false (to_lower s) in
    let t = trim is_dash raw in
    let n = length t in
    record {
      bytes =
          collapse-keeps IsSlugText halve-bytes n t
            (All-trim _ is_dash raw (replace_unsafe-safe false (to_lower s)));
      starts = collapse-keeps (StartsNot is_dash) halve-starts n t (trim-starts is_dash raw);
      ends = collapse-keeps (EndsNot is_dash) halve-ends n t (trim-ends is_dash raw);
      single = collapse-single n t (omega arith);
    }

pub to_lower_fixed : (s : Text) → IsSlugText s → to_lower s ≡ s
to_lower_fixed [] h = refl
to_lower_fixed (c ∷ s) (hc, hs) = let e : lower c ≡ c = ground arith in cc (e, to_lower_fixed s hs)

pub replace_unsafe_fixed : (b : Bool) (s : Text) → IsSlugText s → replace_unsafe b s ≡ s
unfolding replace_unsafe
replace_unsafe_fixed b [] h = refl
replace_unsafe_fixed b (c ∷ s) (hc, hs) = rw hc (ap (λ t. c ∷ t) (replace_unsafe_fixed false s hs))

collapse_fixed : (fuel : ℕ) (s : Text) → contains s double_dash ≡ false → collapse fuel s ≡ s
unfolding collapse
collapse_fixed zero s h = refl
collapse_fixed (suc fuel) s h = rw h

-- A text that is a slug already is its own slug.
pub slugify_fixed : {s : Text} → IsSlug s → slugify s ≡ s
unfolding slugify
slugify_fixed {s} h =
    rw
      (
        to_lower_fixed s h.bytes,
        replace_unsafe_fixed false s h.bytes,
        trim_fixed is_dash s h.starts h.ends,
      )
      (collapse_fixed (length s) s h.single)

-- The slug of a slug is that slug: `slugify` is idempotent on every text.
pub slugify_idem : (s : Text) → slugify (slugify s) ≡ slugify s
slugify_idem s = slugify_fixed (slugify-IsSlug s)
