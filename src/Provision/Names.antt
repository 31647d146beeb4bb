-- ===== src/Provision/Names.antt =====
-- The names of a project's role and database.
use vercel_clone.Prelude.{
  ℕ, zero, suc, ◌≤◌, ◌≡◌, refl, ap, inl, inr, Bool, true, false, not, ◌&&◌, [], ◌∷◌, ◌++◌, nat_eq,
  length, keep, take, Bool-cases, length-take-le, arith,
}
use vercel_clone.Prelude.Text.{Text, codes, to_lower, lower}
use vercel_clone.Store.Accounts.{is_uuid, is_uuid_byte, all_uuid_bytes}
use vercel_clone.Provision.{is_ident_byte, all_ident_bytes, is_valid_ident, short_id}

is_no_dash : ℕ → Bool
is_no_dash c = not (nat_eq c b'-')

lower-is_ident_byte :
    (c : ℕ) → is_uuid_byte c ≡ true → is_no_dash c ≡ true → is_ident_byte (lower c) ≡ true
unfolding is_no_dash
lower-is_ident_byte c h k = ground arith

and_parts : (a b : Bool) → (a && b) ≡ true → (a ≡ true) × (b ≡ true)
and_parts true b h = (refl, h)
and_parts false b h = absurd (ground (arith, h))

short-all_ident_bytes :
    (n : ℕ) (s : Text)
    → all_uuid_bytes s ≡ true
    → all_ident_bytes (to_lower (take n (keep (λ c. not (nat_eq c b'-')) s))) ≡ true
short-all_ident_bytes zero s h = refl
short-all_ident_bytes (suc n) [] h = refl
short-all_ident_bytes (suc n) (c ∷ s) h =
    let (hex, rest) = and_parts (is_uuid_byte c) (all_uuid_bytes s) h in
    elim (Bool-cases (nat_eq c b'-')) [
      | inl e ↦ rw e (short-all_ident_bytes (suc n) s rest)
      | inr e ↦ rw e (
          rw (lower-is_ident_byte c hex (unfold is_no_dash in rw e refl))
            (short-all_ident_bytes n s rest))
    ]

length-to_lower : (s : Text) → length (to_lower s) ≡ length s
length-to_lower [] = refl
length-to_lower (c ∷ s) = ap suc (length-to_lower s)

short_id-length : (id : Text) → length (short_id id) ≤ 8
short_id-length id =
    let s = take 8 (keep (λ c. not (nat_eq c b'-')) id) in
    omega (arith, length-to_lower s, length-take-le 8 (keep (λ c. not (nat_eq c b'-')) id))

-- Every id that the API takes gives names of a role and a database that the provisioner does not refuse.
pub short_id-is_valid_ident :
    (id : Text)
    → is_uuid id ≡ true
    → (is_valid_ident (codes "u_" ++ short_id id) ≡ true)
      × (is_valid_ident (codes "app_" ++ short_id id) ≡ true)
unfolding is_uuid is_valid_ident
short_id-is_valid_ident id h =
    let (_, bytes) = and_parts (nat_eq (length id) 36) (all_uuid_bytes id) h in
    let ident = short-all_ident_bytes 8 id bytes in
    let short = short_id-length id in
    (rw ident (ground (arith, short)), rw ident (ground (arith, short)))
