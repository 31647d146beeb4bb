-- ===== src/Prelude/Text.antt =====
-- Go strings as lists of bytes, with the functions of `strings` that the program calls.
use Prim.Native.Nat.{ℕ, ◌+◌}
use Prim.Native.Char.{code}
use Prim.Native.String.{String}
use mathlib.Core.Path.{◌≡◌, refl}
use mathlib.Core.Logic.{◌↔◌}
use mathlib.Core.Bool.{Bool, true, false, ◌&&◌, ◌||◌}
use mathlib.Core.Option.{Option, none, some}
use mathlib.Core.List.{List, [], ◌∷◌, ◌++◌, map, reverse}
use native.Mathlib.Omega.{arith}
use vercel_clone.Prelude.Tests.{Key, leb, nat_eq, if◌then◌else◌}

abbrev pub Text : Type 0
Text = List ℕ

-- The bytes of an ASCII literal.
abbrev pub codes : String → Text
codes String.[] = []
codes (String.◌∷◌ c s) = code c ∷ codes s

abbrev pub text_eq : Text → Text → Bool
text_eq [] [] = true
text_eq [] (_ ∷ _) = false
text_eq (_ ∷ _) [] = false
text_eq (a ∷ s) (b ∷ t) = nat_eq a b && text_eq s t

pub text_eq_sound : (s t : Text) → text_eq s t ≡ true → s ≡ t
text_eq_sound [] [] h = refl
text_eq_sound [] (_ ∷ _) h = ground arith
text_eq_sound (_ ∷ _) [] h = ground arith
text_eq_sound (a ∷ s) (b ∷ t) h = ground (arith, text_eq_sound s t)

pub text_eq_refl : (s : Text) → text_eq s s ≡ true
text_eq_refl [] = refl
text_eq_refl (a ∷ s) = ground (arith, text_eq_refl s)

pub text_eq_iff : (s t : Text) → (text_eq s t ≡ true) ↔ (s ≡ t)
text_eq_iff s t = (text_eq_sound s t, λ e. rw e (text_eq_refl t))

instance abbrev pub text_key : Key Text
text_key = record { same = text_eq; same_iff = text_eq_iff }

-- strings.HasPrefix, strings.TrimPrefix's test.
abbrev pub has_prefix : Text → Text → Bool
has_prefix s [] = true
has_prefix [] (_ ∷ _) = false
has_prefix (a ∷ s) (b ∷ p) = nat_eq a b && has_prefix s p

-- strings.Contains.
abbrev pub contains : Text → Text → Bool
contains [] p = has_prefix [] p
contains (a ∷ s) p = has_prefix (a ∷ s) p || contains s p

-- strings.HasSuffix.
abbrev pub has_suffix : Text → Text → Bool
has_suffix s p = has_prefix (reverse s) (reverse p)

-- strings.IndexByte, with the text split around the byte that is found.
abbrev pub cut_byte : Text → ℕ → Option (Text × Text)
cut_byte [] b = none
cut_byte (a ∷ s) b =
    if nat_eq a b
    then some ([], s)
    else (elim (cut_byte s b) [ none ↦ none | some (l, r) ↦ some (a ∷ l, r) ])

-- strings.Split by a byte: the runs between the bytes, the empty ones included.
abbrev pub cons_head : ℕ → List Text → List Text
cons_head c [] = (c ∷ []) ∷ []
cons_head c (s ∷ ss) = (c ∷ s) ∷ ss

abbrev pub split_byte : ℕ → Text → List Text
split_byte b [] = [] ∷ []
split_byte b (c ∷ s) =
    let rest = split_byte b s in if nat_eq c b then [] ∷ rest else cons_head c rest

-- unicode.ToLower and unicode.IsSpace on ASCII.
abbrev pub lower : ℕ → ℕ
lower c = if leb b'A' c && leb c b'Z' then c + 32 else c

abbrev pub is_space : ℕ → Bool
is_space c = nat_eq c b' ' || (leb 9 c && leb c 13)

abbrev pub to_lower : Text → Text
to_lower = map lower

-- strings.TrimLeft by a set of bytes, and strings.Trim.
abbrev pub trim_left : (ℕ → Bool) → Text → Text
trim_left p [] = []
trim_left p (c ∷ s) = let rest = trim_left p s in if p c then rest else c ∷ s

abbrev pub trim : (ℕ → Bool) → Text → Text
trim p s = reverse (trim_left p (reverse (trim_left p s)))

abbrev pub trim_space : Text → Text
trim_space = trim is_space

-- strings.FieldsFunc: the runs of bytes between separators, none of them empty.
abbrev pub fields_from : (ℕ → Bool) → Text → Text → List Text
fields_from sep [] [] = []
fields_from sep (b ∷ cur) [] = (b ∷ cur) ∷ []
fields_from sep [] (c ∷ s) = fields_from sep (if sep c then [] else c ∷ []) s
fields_from sep (b ∷ cur) (c ∷ s) =
    let split = (b ∷ cur) ∷ fields_from sep [] s in
    let grow = fields_from sep (b ∷ cur ++ c ∷ []) s in if sep c then split else grow

abbrev pub fields_func : (ℕ → Bool) → Text → List Text
fields_func sep s = fields_from sep [] s
