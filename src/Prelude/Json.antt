-- ===== src/Prelude/Json.antt =====
-- JSON values: what Go writes as `map[string]any`, `[]any` and the values in them.
use Prim.Native.Nat.{ℕ}
use Prim.Native.String.{String}
use mathlib.Core.Path.{◌≡◌, refl}
use mathlib.Core.Bool.{Bool, false}
use mathlib.Core.Option.{Option, none, some}
use mathlib.Core.List.{List, [], ◌∷◌}
use vercel_clone.Prelude.Tests.{◌==◌, Bool-cases, eq_of_==, eq_refl, if◌then◌else◌}
use mathlib.Core.Logic.{inl, inr}
use vercel_clone.Prelude.Text.{Text, codes, text_key}

mutual
  pub data Json : Type 0 where
    str : Text → Json
    num : ℕ → Json
    bool : Bool → Json
    arr : Items → Json
    obj : Fields → Json

  pub data Items : Type 0 where
    nil : Items
    cons : Json → Items → Items

  pub data Fields : Type 0 where
    end : Fields
    field : Text → Json → Fields → Fields

abbrev pub fields_of : List (Text × Json) → Fields
fields_of [] = end
fields_of ((k, v) ∷ fs) = field k v (fields_of fs)

abbrev pub items_of : List Json → Items
items_of [] = nil
items_of (x ∷ xs) = cons x (items_of xs)

abbrev pub object : List (Text × Json) → Json
object fs = obj (fields_of fs)

abbrev pub array : List Json → Json
array xs = arr (items_of xs)

abbrev pub text : String → Json
text s = str (codes s)

infix 68 ◌⇒◌
abbrev pub ◌⇒◌ : String → Json → Text × Json
k ⇒ v = (codes k, v)

-- m[k], with `none` for a missing key.
abbrev pub get_field : Text → Fields → Option Json
get_field k end = none
get_field k (field j v fs) = if j == k then some v else get_field k fs

-- m[k] = v.
abbrev pub set_field : Text → Json → Fields → Fields
set_field k v end = field k v end
set_field k v (field j w fs) =
    let rest = set_field k v fs in if j == k then field k v fs else field j w rest

-- v.(map[string]any), and its field.
abbrev pub member : Text → Json → Option Json
member k (obj fs) = get_field k fs
member k (str s) = none
member k (num n) = none
member k (bool b) = none
member k (arr xs) = none

-- v.(string).
abbrev pub as_string : Json → Option Text
as_string (str s) = some s
as_string (num n) = none
as_string (bool b) = none
as_string (arr xs) = none
as_string (obj fs) = none

abbrev pub and_then {ℓ κ} : {A : Type ℓ} {B : Type κ} → Option A → (A → Option B) → Option B
and_then none f = none
and_then (some a) f = f a

-- The value under a path of keys.
abbrev pub nested : List Text → Json → Option Json
nested [] v = some v
nested (k ∷ ks) v = and_then (member k v) (nested ks)

-- `nestedString` (control-plane/k8s.go).
abbrev pub nested_string : List Text → Json → Option Text
nested_string ks v = and_then (nested ks v) as_string

-- A write to one key leaves the others alone.
pub get_field-set_field_other :
    (k j : Text) (v : Json) (fs : Fields)
    → (j == k) ≡ false
    → get_field k (set_field j v fs) ≡ get_field k fs
get_field-set_field_other k j v end h = rw h refl
get_field-set_field_other k j v (field i w fs) h = elim (Bool-cases (i == j)) [
  | inl e ↦ let same : i ≡ j = eq_of_== e in rw e (rw same (rw h refl))
  | inr e ↦ rw e (λ n. if i == k then some w else get_field-set_field_other k j v fs h n)
]

pub get_field-set_field_self :
    (k : Text) (v : Json) (fs : Fields) → get_field k (set_field k v fs) ≡ some v
get_field-set_field_self k v end = rw (eq_refl k) refl
get_field-set_field_self k v (field i w fs) = elim (Bool-cases (i == k)) [
  | inl e ↦ rw e (rw (eq_refl k) refl)
  | inr e ↦ rw e (rw e (get_field-set_field_self k v fs))
]
