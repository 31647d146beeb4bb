-- ===== src/Kube/Memory.antt =====
-- An API server in memory, on which the witnesses run.
pub mod Deletions
pub mod Laws
use vercel_clone.Prelude.{
  ℕ, suc, ◌≡◌, ◌↔◌, Bool, true, false, ◌&&◌, Option, none, some, List, [], ◌∷◌, ◌==◌, Key, arith,
  if◌then◌else◌,
}
use vercel_clone.Prelude.Text.{Text, codes, text_key, text_eq_iff, cut_byte}
use vercel_clone.Prelude.Result.{Result, ok}
use vercel_clone.Prelude.Dict.{Dict, get, put, remove}
use vercel_clone.Prelude.Json.{Json, nested_string}
use vercel_clone.Kube
use vercel_clone.Kube.{
  Request, create, read, replace, list, write_scale, Server, set_version, version_of,
}

abbrev pub same_path : Text × Text → Text × Text → Bool
same_path (a, b) (c, d) = c == a && d == b

pub same_path_iff : (x y : Text × Text) → (same_path x y ≡ true) ↔ (x ≡ y)
same_path_iff (a, b) (c, d) = ground (arith, text_eq_iff c a, text_eq_iff d b)

instance abbrev pub path_key : Key (Text × Text)
path_key = record { same = same_path; same_iff = same_path_iff }

-- Each object with how often it was replaced.
abbrev pub State : Type 0
State = Dict (Text × Text) (ℕ × Json)

pub data Body : Type 0 where
  nothing : Body
  an_object : Json → Body
  some_names : List Text → Body

-- The count in unary.
abbrev pub version_text : ℕ → Text
version_text ℕ.zero = []
version_text (suc n) = b'1' ∷ version_text n

abbrev pub stored : ℕ × Json → Json
stored (n, o) = set_version (version_text n) o

abbrev pub or_nothing : Option Text → Text
or_nothing none = []
or_nothing (some s) = s

abbrev pub name_of : Json → Text
name_of o = or_nothing (nested_string (codes "metadata" ∷ codes "name" ∷ []) o)

abbrev pub has_label : Option (Text × Text) → Json → Bool
has_label none o = false
has_label (some (k, v)) o =
    or_nothing (nested_string (codes "metadata" ∷ codes "labels" ∷ k ∷ []) o) == v

abbrev pub selected : Text → Text → State → List Text
selected path selector [] = []
selected path selector (((p, n), (count, o)) ∷ s) =
    let rest = selected path selector s in
    if p == path && has_label (cut_byte selector b'=') o then n ∷ rest else rest

abbrev pub create_at : Text × Text → Json → State → Option (ℕ × Json) → Result (ℕ × Body) × State
create_at k o s none = (ok (201, nothing), put s k (0, o))
create_at k o s (some v) = (ok (409, nothing), s)

abbrev pub read_at : State → Option (ℕ × Json) → Result (ℕ × Body) × State
read_at s none = (ok (404, nothing), s)
read_at s (some v) = (ok (200, an_object (stored v)), s)

abbrev pub replace_at : Text × Text → Json → State → Option (ℕ × Json) → Result (ℕ × Body) × State
replace_at k o s none = (ok (404, nothing), s)
replace_at k o s (some (n, old)) =
    if version_of o == version_of (stored (n, old))
    then (ok (200, nothing), put s k (suc n, o))
    else (ok (409, nothing), s)

abbrev pub remove_at : Text × Text → State → Option (ℕ × Json) → Result (ℕ × Body) × State
remove_at k s none = (ok (404, nothing), s)
remove_at k s (some v) = (ok (200, nothing), remove s k)

abbrev pub serve : Request → State → Result (ℕ × Body) × State
serve (create path o) s = create_at (path, name_of o) o s (get s (path, name_of o))
serve (read path name) s = read_at s (get s (path, name))
serve (replace path name o) s = replace_at (path, name) o s (get s (path, name))
serve (Request.remove path name) s = remove_at (path, name) s (get s (path, name))
serve (list path selector) s = (ok (200, some_names (selected path selector s)), s)
serve (write_scale path name n) s = (ok (404, nothing), s)

abbrev pub object_in : Body → Option Json
object_in nothing = none
object_in (an_object o) = some o
object_in (some_names ns) = none

abbrev pub names_in : Body → Option (List Text)
names_in nothing = none
names_in (an_object o) = none
names_in (some_names ns) = some ns

abbrev pub memory : Server
memory = record {
  State = State;
  Body = Body;
  serve = serve;
  decode_object = object_in;
  decode_names = names_in;
  decode_job = λ b. none;
  decode_pods = λ b. none;
  decode_pod = λ b. none;
  decode_scale = λ b. none;
  decode_data = λ b. none;
  decode_base64 = λ s. none;
  encode_base64 = λ s. s;
  path_escape = λ s. s;
}
