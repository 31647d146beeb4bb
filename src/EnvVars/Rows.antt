-- ===== src/EnvVars/Rows.antt =====
-- The rows that the handlers leave in the table of variables.
use vercel_clone.Prelude.{
  ℕ, ◌≤◌, ◌≡◌, refl, sym, inl, inr, true, false, ◌&&◌, Option, none, some, List, [], ◌∷◌, ◌++◌, ltb,
  ◌==◌, arith, Bool-cases, ltb→le, is_some, length, All, All-append,
}
use vercel_clone.Prelude.Text.{Text, text_key}
use vercel_clone.Prelude.Table.{
  update, find, count, delete, All-update, All-delete, count-append, count-delete_le, count-absent,
}
use vercel_clone.Store.{Project, User, EnvVar, Database}
use vercel_clone.Store.Accounts.{authorise_project}
use vercel_clone.Http.{Leaves, with_project-Leaves}
use vercel_clone.EnvVars

-- A name that the builder may set in a tenant's container, with a value within the limit.
abbrev pub IsSound : EnvVar → Type 0
IsSound v =
    (EnvVars.is_env_name v.name ≡ true)
    × (EnvVars.is_reserved v.name ≡ false)
    × (length v.value ≤ EnvVars.env_value_max_bytes)

-- Sound rows, and one at most for a project and a name.
abbrev pub IsTable : List EnvVar → Type 0
IsTable vs = All IsSound vs × ((p n : Text) → count (EnvVars.is_var p n) vs ≤ 1)

count-upsert :
    (project name value : Text) (now : ℕ) (p n : Text) (vs : List EnvVar)
    → count
        (EnvVars.is_var p n)
        (update (EnvVars.is_var project name) (EnvVars.set_value now value) vs)
      ≡ count (EnvVars.is_var p n) vs
count-upsert project name value now p n [] = refl
count-upsert project name value now p n (v ∷ vs) =
    elim (Bool-cases (EnvVars.is_var project name v)) [
      | inl e ↦ rw (e, count-upsert project name value now p n vs) refl
      | inr e ↦ rw (e, count-upsert project name value now p n vs) refl
    ]

same_pair :
    (project name p n : Text) → (project == p && name == n) ≡ true → (project ≡ p) × (name ≡ n)
same_pair project name p n h = (
  ground (arith, text_key.same_iff project p, text_key.same_iff name n),
  ground (arith, text_key.same_iff project p, text_key.same_iff name n),
)

-- A new row where there was none for its pair.
count-new_var :
    (project name value : Text) (now : ℕ) (p n : Text) (vs : List EnvVar)
    → is_some (find (EnvVars.is_var project name) vs) ≡ false
    → count (EnvVars.is_var p n) vs ≤ 1
    → count (EnvVars.is_var p n) (vs ++ EnvVars.new_var project name value now ∷ []) ≤ 1
count-new_var project name value now p n vs absent once =
    let added =
      count-append (EnvVars.is_var p n) vs (EnvVars.new_var project name value now ∷ []) in
    elim (Bool-cases (project == p && name == n)) [
      | inl e ↦
          let both = same_pair project name p n e in
          let old : count (EnvVars.is_var p n) vs ≡ 0 =
            rw (sym both.0, sym both.1) (count-absent (EnvVars.is_var project name) vs absent) in
          rw (added, old, e) (omega arith)
      | inr e ↦ rw (added, e) (omega (arith, once))
    ]

upsert_var-IsTable :
    (project name value : Text) (now : ℕ) (vs : List EnvVar)
    → IsSound (EnvVars.new_var project name value now)
    → IsTable vs
    → IsTable (EnvVars.upsert_var project name value now vs)
upsert_var-IsTable project name value now vs h (sound, once) =
    elim (Bool-cases (is_some (find (EnvVars.is_var project name) vs))) [
      | inl e ↦ rw e (
        All-update IsSound (EnvVars.is_var project name) (EnvVars.set_value now value)
            (λ v _ s. (s.0, s.1, h.2)) vs sound,
        λ p n. rw (count-upsert project name value now p n vs) (once p n),
      )
      | inr e ↦ rw e (
        All-append IsSound vs (EnvVars.new_var project name value now ∷ []) sound (h, tt),
        λ p n. count-new_var project name value now p n vs e (once p n),
      )
    ]

delete-IsTable :
    (project name : Text) (vs : List EnvVar)
    → IsTable vs
    → IsTable (delete (EnvVars.is_var project name) vs)
delete-IsTable project name vs (sound, once) = (
  All-delete IsSound (EnvVars.is_var project name) vs sound,
  λ p n.
      omega
        (arith, once p n, count-delete_le (EnvVars.is_var p n) (EnvVars.is_var project name) vs),
)

abbrev pub HasTable : Database → Type 0
HasTable db = IsTable db.project_env_vars

upsert_value-Leaves :
    (name : Text) (body : Option Text) (now : ℕ) (db : Database) (p : Project)
    → EnvVars.is_env_name name ≡ true
    → EnvVars.is_reserved name ≡ false
    → IsTable db.project_env_vars
    → Leaves HasTable db (EnvVars.upsert_value name body now db p)
unfolding EnvVars.upsert_value EnvVars.upsert_project_env
upsert_value-Leaves name none now db p valid free h = refl
upsert_value-Leaves name (some value) now db p valid free h =
    elim (Bool-cases (ltb EnvVars.env_value_max_bytes (length value))) [
      | inl long ↦ rw long refl
      | inr short ↦ rw short (
          upsert_var-IsTable p.id name value now db.project_env_vars
            (valid, free, ltb→le EnvVars.env_value_max_bytes (length value) short) h)
    ]

upsert_named-Leaves :
    (name : Text) (body : Option Text) (now : ℕ) (db : Database) (p : Project)
    → IsTable db.project_env_vars
    → Leaves HasTable db (EnvVars.upsert_named name body now db p)
unfolding EnvVars.upsert_named
upsert_named-Leaves name body now db p h = elim (Bool-cases (EnvVars.is_env_name name)) [
  | inl valid ↦ elim (Bool-cases (EnvVars.is_reserved name)) [
    | inl taken ↦ rw (valid, taken) refl
    | inr free ↦ rw (valid, free) (upsert_value-Leaves name body now db p valid free h)
  ]
  | inr invalid ↦ rw invalid refl
]

delete_named-Leaves :
    (name : Text) (db : Database) (p : Project)
    → IsTable db.project_env_vars
    → Leaves HasTable db (EnvVars.delete_named name db p)
unfolding EnvVars.delete_named EnvVars.answer_deleted EnvVars.delete_project_env
delete_named-Leaves name db p h = elim (Bool-cases (EnvVars.is_env_name name)) [
  | inl valid ↦ elim (Bool-cases (ltb 0 (count (EnvVars.is_var p.id name) db.project_env_vars))) [
    | inl found ↦ rw (valid, found) (delete-IsTable p.id name db.project_env_vars h)
    | inr missing ↦ rw (valid, missing) refl
  ]
  | inr invalid ↦ rw invalid refl
]

-- Where every row has a valid name that is not reserved and a value of at most 64 KiB, and no
-- project has two rows of one name, the PUT and DELETE handlers leave a table that is such again
-- when they succeed, and the database as it was when they answer with an error.
pub env_handlers-Leave :
    (id name : Text) (u : Option User) (body : Option Text) (now : ℕ) (db : Database)
    → IsTable db.project_env_vars
    → Leaves HasTable db (EnvVars.handle_upsert_project_env id u name body now db)
      × Leaves HasTable db (EnvVars.handle_delete_project_env id u name db)
unfolding EnvVars.handle_upsert_project_env EnvVars.handle_delete_project_env
env_handlers-Leave id name u body now db h = (
  with_project-Leaves HasTable (authorise_project id u db) db
      (EnvVars.upsert_named name body now db) (λ p. upsert_named-Leaves name body now db p h),
  with_project-Leaves HasTable (authorise_project id u db) db (EnvVars.delete_named name db)
      (λ p. delete_named-Leaves name db p h),
)
