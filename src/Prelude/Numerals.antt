-- ===== src/Prelude/Numerals.antt =====
-- Numbers and bytes in text: `%d` of fmt, and encoding/hex.
use vercel_clone.Prelude.{
  ℕ, zero, suc, ◌+◌, ◌-◌, ◌*◌, ◌/◌, ◌%◌, ◌<◌, ◌≡◌, refl, ap, ◌∙◌, inl, inr, Bool, false, ◌&&◌,
  Option, none, some, [], ◌∷◌, arith, ltb, leb, nat_eq, ltb→lt, ltb→le, Bool-cases, if◌then◌else◌,
  All,
}
use vercel_clone.Prelude.Text.{Text}
use vercel_clone.Prelude.Split.{Lacks}

-- The digits of a number before those that are written; the fuel is more than the number.
abbrev pub digits : ℕ → ℕ → Text → Text
digits zero n acc = acc
digits (suc fuel) n acc =
    let more = digits fuel (n / 10) ((48 + n % 10) ∷ acc) in
    if ltb n 10 then (48 + n) ∷ acc else more

abbrev pub decimal : ℕ → Text
decimal n = digits (suc n) n []

abbrev pub is_digit : ℕ → Bool
is_digit c = leb 48 c && leb c 57

-- The number that digits write, after those that are read.
abbrev pub read_from : ℕ → Text → Option ℕ
read_from v [] = some v
read_from v (c ∷ s) =
    let rest = read_from (v * 10 + (c - 48)) s in if is_digit c then rest else none

abbrev pub read_decimal : Text → Option ℕ
read_decimal [] = none
read_decimal (c ∷ s) = read_from 0 (c ∷ s)

read_digit : (v d : ℕ) (s : Text) → d < 10 → read_from v ((48 + d) ∷ s) ≡ read_from (v * 10 + d) s
read_digit v d s h = ground (arith, h)

read_from-digits :
    (fuel n : ℕ) (acc : Text) → n < fuel → read_from 0 (digits fuel n acc) ≡ read_from n acc
read_from-digits zero n acc h = absurd (omega (arith, h))
read_from-digits (suc fuel) n acc h = elim (Bool-cases (ltb n 10)) [
  | inl small ↦
      rw small (read_digit 0 n acc (ltb→lt n 10 small) ∙ ap (λ m. read_from m acc) (omega arith))
  | inr large ↦
      rw
        (
          large,
          read_from-digits fuel (n / 10) ((48 + n % 10) ∷ acc)
              (omega (arith, h, ltb→le n 10 large)),
        )
        (read_digit (n / 10) (n % 10) acc (omega arith) ∙ ap (λ m. read_from m acc) (omega arith))
]

read_decimal-digits :
    (fuel n c : ℕ) (s : Text)
    → read_decimal (digits fuel n (c ∷ s)) ≡ read_from 0 (digits fuel n (c ∷ s))
read_decimal-digits zero n c s = refl
read_decimal-digits (suc fuel) n c s = elim (Bool-cases (ltb n 10)) [
  | inl small ↦ rw small refl
  | inr large ↦ rw large (read_decimal-digits fuel (n / 10) (48 + n % 10) (c ∷ s))
]

-- What `%d` prints is read back.
pub read_decimal-decimal : (n : ℕ) → read_decimal (decimal n) ≡ some n
read_decimal-decimal n = nonempty n ∙ read_from-digits (suc n) n [] (omega arith)
  where
    nonempty : (m : ℕ) → read_decimal (digits (suc m) m []) ≡ read_from 0 (digits (suc m) m [])
    nonempty m = elim (Bool-cases (ltb m 10)) [
      | inl small ↦ rw small refl
      | inr large ↦ rw large (read_decimal-digits m (m / 10) (48 + m % 10) [])
    ]

other_digit : (b d : ℕ) → is_digit b ≡ false → d < 10 → nat_eq (48 + d) b ≡ false
other_digit b d hb h = ground (arith, hb, h)

digits-Lacks :
    (b fuel n : ℕ) (acc : Text) → is_digit b ≡ false → Lacks b acc → Lacks b (digits fuel n acc)
digits-Lacks b zero n acc hb h = h
digits-Lacks b (suc fuel) n acc hb h = elim (Bool-cases (ltb n 10)) [
  | inl small ↦ rw small (other_digit b n hb (ltb→lt n 10 small), h)
  | inr large ↦ rw large (
      digits-Lacks b fuel (n / 10) ((48 + n % 10) ∷ acc) hb
        (other_digit b (n % 10) hb (omega arith), h))
]

-- A number has no other bytes than digits.
pub decimal-Lacks : (b n : ℕ) → is_digit b ≡ false → Lacks b (decimal n)
decimal-Lacks b n hb = digits-Lacks b (suc n) n [] hb tt

-- The digit of a half of a byte, and its value.
abbrev pub hex_digit : ℕ → ℕ
hex_digit d = if ltb d 10 then 48 + d else 87 + d

abbrev pub from_hex : ℕ → Option ℕ
from_hex c =
    if leb 48 c && leb c 57
    then some (c - 48)
    else if leb 97 c && leb c 102
    then some (c - 87)
    else if leb 65 c && leb c 70
    then some (c - 55)
    else none

-- hex.EncodeToString, and hex.DecodeString.
abbrev pub hex_encode : Text → Text
hex_encode [] = []
hex_encode (c ∷ s) = hex_digit (c / 16) ∷ hex_digit (c % 16) ∷ hex_encode s

abbrev pub join_byte : Option ℕ → Option ℕ → Option Text → Option Text
join_byte (some a) (some b) (some s) = some ((a * 16 + b) ∷ s)
join_byte (some a) (some b) none = none
join_byte (some a) none s = none
join_byte none b s = none

abbrev pub hex_decode : Text → Option Text
hex_decode [] = some []
hex_decode (_ ∷ []) = none
hex_decode (a ∷ b ∷ s) = join_byte (from_hex a) (from_hex b) (hex_decode s)

from_hex-hex_digit : (d : ℕ) → d < 16 → from_hex (hex_digit d) ≡ some d
from_hex-hex_digit d h = ground (arith, h)

-- Bytes are written and read back.
pub hex_decode-hex_encode : (s : Text) → All (λ c. c < 256) s → hex_decode (hex_encode s) ≡ some s
hex_decode-hex_encode [] h = refl
hex_decode-hex_encode (c ∷ s) (hc, hs) =
    rw
      (
        from_hex-hex_digit (c / 16) (omega (arith, hc)),
        from_hex-hex_digit (c % 16) (omega arith),
        hex_decode-hex_encode s hs,
      )
      (ap (λ d. some (d ∷ s)) (omega arith))

hex_digit-not : (d b : ℕ) → b < 48 → nat_eq (hex_digit d) b ≡ false
hex_digit-not d b h = ground (arith, h)

pub hex_encode-Lacks : (b : ℕ) (s : Text) → b < 48 → Lacks b (hex_encode s)
hex_encode-Lacks b [] h = tt
hex_encode-Lacks b (c ∷ s) h =
    (hex_digit-not (c / 16) b h, (hex_digit-not (c % 16) b h, hex_encode-Lacks b s h))
