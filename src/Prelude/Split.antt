-- ===== src/Prelude/Split.antt =====
-- Splitting what was joined with a separator.
use vercel_clone.Prelude.{ℕ, ◌≡◌, refl, true, false, [], ◌∷◌, ◌++◌, nat_eq, All}
use vercel_clone.Prelude.Text.{Text, split_byte}

-- No byte of the text is the separator.
abbrev pub Lacks : ℕ → Text → Type 0
Lacks b = All (λ c. nat_eq c b ≡ false)

pub split_byte-append :
    (b : ℕ) (s t : Text)
    → nat_eq b b ≡ true
    → Lacks b s
    → split_byte b (s ++ b ∷ t) ≡ s ∷ split_byte b t
split_byte-append b [] t same h = rw same
split_byte-append b (c ∷ s) t same (hc, hs) = rw (hc, split_byte-append b s t same hs)

pub split_byte_whole : (b : ℕ) (s : Text) → Lacks b s → split_byte b s ≡ s ∷ []
split_byte_whole b [] h = refl
split_byte_whole b (c ∷ s) (hc, hs) = rw (hc, split_byte_whole b s hs)
