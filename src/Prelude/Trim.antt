-- ===== src/Prelude/Trim.antt =====
-- What `trim` leaves at the two ends of a text.
use mathlib.Core.List.{reverse, reverse-cons, reverse-append, reverse-reverse}
use vercel_clone.Prelude.{
  ℕ, ◌≡◌, refl, inl, inr, Bool, false, [], ◌∷◌, ◌++◌, Bool-cases, All, All-append,
}
use vercel_clone.Prelude.Text.{Text, trim_left, trim}

-- The first byte, and the last one, if there is one, fail the test.
abbrev pub StartsNot : (ℕ → Bool) → Text → Type 0
StartsNot p [] = Unit
StartsNot p (c ∷ _) = p c ≡ false

abbrev pub EndsNot : (ℕ → Bool) → Text → Type 0
EndsNot p [] = Unit
EndsNot p (c ∷ []) = p c ≡ false
EndsNot p (_ ∷ d ∷ s) = EndsNot p (d ∷ s)

module _ (p : ℕ → Bool) where
  ends-snoc : (s : Text) (c : ℕ) → p c ≡ false → EndsNot p (s ++ c ∷ [])
  ends-snoc [] c h = h
  ends-snoc (_ ∷ []) c h = h
  ends-snoc (_ ∷ d ∷ s) c h = ends-snoc (d ∷ s) c h

  ends-reverse : (s : Text) → StartsNot p s → EndsNot p (reverse s)
  ends-reverse [] h = tt
  ends-reverse (c ∷ s) h = rw (reverse-cons c s) (ends-snoc (reverse s) c h)

  starts-snoc :
      (s : Text) (d c : ℕ) → StartsNot p (s ++ d ∷ []) → StartsNot p ((s ++ d ∷ []) ++ c ∷ [])
  starts-snoc [] d c h = h
  starts-snoc (_ ∷ _) d c h = h

  starts-reverse : (s : Text) → EndsNot p s → StartsNot p (reverse s)
  starts-reverse [] h = tt
  starts-reverse (c ∷ []) h = h
  starts-reverse (c ∷ d ∷ s) h =
      rw (reverse-cons c (d ∷ s), reverse-cons d s)
        (starts-snoc (reverse s) d c (rw (reverse-cons d s) at (starts-reverse (d ∷ s) h)))

  pub trim_left-starts : (s : Text) → StartsNot p (trim_left p s)
  trim_left-starts [] = tt
  trim_left-starts (c ∷ s) = elim (Bool-cases (p c)) [
    | inl e ↦ rw e (trim_left-starts s)
    | inr e ↦ rw e e
  ]

  trim_left-snoc :
      (s : Text) (c : ℕ) → p c ≡ false → trim_left p (s ++ c ∷ []) ≡ trim_left p s ++ c ∷ []
  trim_left-snoc [] c h = rw h
  trim_left-snoc (d ∷ s) c h = elim (Bool-cases (p d)) [
    | inl e ↦ rw e (trim_left-snoc s c h)
    | inr e ↦ rw e
  ]

  starts-trim : (s : Text) → StartsNot p s → StartsNot p (reverse (trim_left p (reverse s)))
  starts-trim [] h = tt
  starts-trim (c ∷ s) h =
      rw
        (
          reverse-cons c s,
          trim_left-snoc (reverse s) c h,
          reverse-append (trim_left p (reverse s)) (c ∷ []),
        )
        h

  pub trim-starts : (s : Text) → StartsNot p (trim p s)
  trim-starts s = starts-trim (trim_left p s) (trim_left-starts s)

  pub trim-ends : (s : Text) → EndsNot p (trim p s)
  trim-ends s = ends-reverse _ (trim_left-starts (reverse (trim_left p s)))

  pub trim_left_fixed : (s : Text) → StartsNot p s → trim_left p s ≡ s
  trim_left_fixed [] h = refl
  trim_left_fixed (c ∷ s) h = rw h

  pub trim_fixed : (s : Text) → StartsNot p s → EndsNot p s → trim p s ≡ s
  trim_fixed s h k =
      rw (trim_left_fixed s h, trim_left_fixed (reverse s) (starts-reverse s k)) (reverse-reverse s)

module _ {κ} (P : ℕ → Type κ) where
  pub All-reverse : (s : Text) → All P s → All P (reverse s)
  All-reverse [] h = h
  All-reverse (c ∷ s) h =
      rw (reverse-cons c s) (All-append P (reverse s) (c ∷ []) (All-reverse s h.1) (h.0, tt))

  All-trim_left : (p : ℕ → Bool) (s : Text) → All P s → All P (trim_left p s)
  All-trim_left p [] h = h
  All-trim_left p (c ∷ s) h = elim (Bool-cases (p c)) [
    | inl e ↦ rw e (All-trim_left p s h.1)
    | inr e ↦ rw e h
  ]

  pub All-trim : (p : ℕ → Bool) (s : Text) → All P s → All P (trim p s)
  All-trim p s h = All-reverse _ (All-trim_left p _ (All-reverse _ (All-trim_left p s h)))
