-- ===== src/Prelude/Result.antt =====
-- Go's pair of a value and an `error`.
use mathlib.Core.Path.{◌≡◌, refl}
use mathlib.Core.Logic.{◌⊎◌, inl, inr}
use vercel_clone.Prelude.Text.{Text}

pub data Result {ℓ} (A : Type ℓ) : Type ℓ where
  ok : A → Result A
  err : Text → Result A

-- `if err != nil { return err }`, and on with the value.
abbrev pub ◌>>=◌ {ℓ κ} : {A : Type ℓ} {B : Type κ} → Result A → (A → Result B) → Result B
m >>= next = elim m [ err e ↦ err e | ok a ↦ next a ]

infixl 4 ◌>>=◌
pub Result-cases {ℓ} :
    {A : Type ℓ} (r : Result A) → ((e : Text) × (r ≡ err e)) ⊎ ((a : A) × (r ≡ ok a))
Result-cases (ok a) = inr (a, refl)
Result-cases (err e) = inl (e, refl)

-- A step that is followed by others did not fail, if all of them did not.
pub bind_inv {ℓ κ} :
    {A : Type ℓ} {B : Type κ} (next : A → Result B) (m : Result A) (b : B)
    → (m >>= next) ≡ ok b
    → (a : A) × (m ≡ ok a) × (next a ≡ ok b)
bind_inv next (err e) b h = cc
bind_inv next (ok a) b h = (a, refl, h)
