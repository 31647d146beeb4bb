-- ===== src/Manifests.antt =====
-- The Kubernetes objects that the control plane applies, as the JSON that it sends: those of a
-- tenant's namespace in Tenant, those of a deployment in App, the Job of a build in Build.
pub mod Tenant
pub mod App
pub mod Build
pub mod Labels
pub mod Security
mod Examples
use vercel_clone.Prelude.{
  ℕ, Bool, true, false, ◌&&◌, Option, none, some, List, [], ◌∷◌, ◌==◌, if◌then◌else◌,
}
use vercel_clone.Prelude.Text.{Text, codes, text_key}
use vercel_clone.Prelude.Json.{
  Json, Fields, Items, end, field, nil, cons, str, num, bool, arr, obj, get_field, nested, and_then,
  as_string,
}

-- Whether a value is this text.
abbrev pub is_text : Text → Option Json → Bool
is_text s none = false
is_text s (some (str t)) = t == s
is_text s (some (num n)) = false
is_text s (some (bool b)) = false
is_text s (some (arr xs)) = false
is_text s (some (obj fs)) = false

-- A `matchLabels` of Kubernetes: every label of the selector stands among the labels.
abbrev pub selects : Fields → Fields → Bool
selects end labels = true
selects (field k (str v) fs) labels = is_text v (get_field k labels) && selects fs labels
selects (field k (num v) fs) labels = false
selects (field k (bool v) fs) labels = false
selects (field k (arr v) fs) labels = false
selects (field k (obj v) fs) labels = false

-- The fields under a path, none if there are none.
abbrev pub fields_in : Option Json → Fields
fields_in none = end
fields_in (some (str s)) = end
fields_in (some (num n)) = end
fields_in (some (bool b)) = end
fields_in (some (arr xs)) = end
fields_in (some (obj fs)) = fs

abbrev pub fields_at : List Text → Json → Fields
fields_at path o = fields_in (nested path o)

abbrev pub labels_of : Json → Fields
labels_of = fields_at (codes "metadata" ∷ codes "labels" ∷ [])

-- The labels of the pods of a Deployment or a Job.
abbrev pub pod_labels : Json → Fields
pod_labels = fields_at (codes "spec" ∷ codes "template" ∷ codes "metadata" ∷ codes "labels" ∷ [])

-- The items under a path, and the first of them.
abbrev pub first_in : Option Json → Option Json
first_in none = none
first_in (some (str s)) = none
first_in (some (num n)) = none
first_in (some (bool b)) = none
first_in (some (arr nil)) = none
first_in (some (arr (cons x xs))) = some x
first_in (some (obj fs)) = none

abbrev pub first_at : List Text → Json → Option Json
first_at path o = first_in (nested path o)
