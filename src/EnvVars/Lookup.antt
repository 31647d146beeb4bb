-- ===== src/EnvVars/Lookup.antt =====
-- The table of variables as a map from project and name to value.
use vercel_clone.Prelude.{
  ℕ, ◌≡◌, refl, sym, ◌∙◌, inl, inr, Bool, true, false, ◌&&◌, Option, none, some, List, [], ◌∷◌,
  ◌++◌, ◌==◌, arith, Bool-cases, if◌then◌else◌, is_some,
}
use vercel_clone.Prelude.Text.{Text, text_key}
use vercel_clone.Prelude.Dict.{Dict, get, put, get-put}
use vercel_clone.Prelude.Table.{update, find, delete}
use vercel_clone.Store.{EnvVar, Database}
use vercel_clone.EnvVars.{
  is_var, set_value, new_var, upsert_var, upsert_project_env, delete_project_env, collect,
  map_project_env,
}

abbrev pub or_else : Option Text → Option Text → Option Text
or_else none d = d
or_else (some v) d = some v

-- The value of the last row with a project and a name.
abbrev pub last_value : Text → Text → List EnvVar → Option Text
last_value project name [] = none
last_value project name (v ∷ vs) =
    or_else (last_value project name vs) (if is_var project name v then some v.value else none)

or_else_right : (a : Option Text) → or_else a none ≡ a
or_else_right none = refl
or_else_right (some v) = refl

or_else_if :
    (a d : Option Text) (b : Bool) (v : Text)
    → or_else a (if b then some v else d) ≡ or_else (or_else a (if b then some v else none)) d
or_else_if none d true v = refl
or_else_if none d false v = refl
or_else_if (some a) d b v = refl

get-collect :
    (project name : Text) (out : Dict Text Text) (vs : List EnvVar)
    → get (collect project out vs) name ≡ or_else (last_value project name vs) (get out name)
get-collect project name out [] = refl
get-collect project name out (v ∷ vs) =
    get-collect project name (if v.project_id == project then put out v.name v.value else out) vs
    ∙ elim (Bool-cases (v.project_id == project)) [
      | inl mine ↦
          rw (mine, get-put out v.name name v.value)
            (or_else_if (last_value project name vs) (get out name) (v.name == name) v.value)
      | inr other ↦ rw (other, or_else_right (last_value project name vs)) refl
    ]

pub get-map_project_env :
    (project name : Text) (db : Database)
    → get (map_project_env project db) name ≡ last_value project name db.project_env_vars
unfolding map_project_env
get-map_project_env project name db =
    get-collect project name [] db.project_env_vars
    ∙ or_else_right (last_value project name db.project_env_vars)

or_else_assoc : (a b c : Option Text) → or_else (or_else a b) c ≡ or_else a (or_else b c)
or_else_assoc none b c = refl
or_else_assoc (some v) b c = refl

last_value-append :
    (p n : Text) (vs ws : List EnvVar)
    → last_value p n (vs ++ ws) ≡ or_else (last_value p n ws) (last_value p n vs)
last_value-append p n [] ws = sym (or_else_right (last_value p n ws))
last_value-append p n (v ∷ vs) ws = rw (last_value-append p n vs ws) (
    or_else_assoc (last_value p n ws) (last_value p n vs)
      (if is_var p n v then some v.value else none))

or_else_same :
    (b c : Bool) (v : Text)
    → c ≡ true
    → or_else (if b then some v else none) (if c then some v else none) ≡ some v
or_else_same true c v h = refl
or_else_same false c v h = rw h

or_else_skip :
    (a : Option Text) (c : Bool) (v : Text) → c ≡ false → or_else a (if c then some v else none) ≡ a
or_else_skip a c v h = rw h (or_else_right a)

module _ (project name : Text) where
  -- The statement touches the rows of one pair only.
  other_row :
      (p n : Text) (v : EnvVar)
      → (project == p && name == n) ≡ false
      → is_var project name v ≡ true
      → is_var p n v ≡ false
  other_row p n v h e = ground (
    arith,
    text_key.same_iff project p,
    text_key.same_iff name n,
    text_key.same_iff v.project_id project,
    text_key.same_iff v.name name,
    text_key.same_iff v.project_id p,
    text_key.same_iff v.name n,
  )

  last_value-update :
      (p n value : Text) (now : ℕ) (vs : List EnvVar)
      → (project == p && name == n) ≡ false
      → last_value p n (update (is_var project name) (set_value now value) vs) ≡ last_value p n vs
  last_value-update p n value now [] h = refl
  last_value-update p n value now (v ∷ vs) h = elim (Bool-cases (is_var project name v)) [
    | inl e ↦ rw (last_value-update p n value now vs h, e, other_row p n v h e)
    | inr e ↦ rw (last_value-update p n value now vs h, e)
  ]

  last_value_updated :
      (value : Text) (now : ℕ) (vs : List EnvVar)
      → last_value project name (update (is_var project name) (set_value now value) vs)
        ≡ (if is_some (find (is_var project name) vs) then some value else none)
  last_value_updated value now [] = refl
  last_value_updated value now (v ∷ vs) = elim (Bool-cases (is_var project name v)) [
    | inl e ↦
        rw (last_value_updated value now vs, e)
          (or_else_same (is_some (find (is_var project name) vs)) _ value e)
    | inr e ↦ rw (last_value_updated value now vs, e) (or_else_skip _ _ v.value e)
  ]

  last_value_absent :
      (vs : List EnvVar)
      → is_some (find (is_var project name) vs) ≡ false
      → last_value project name vs ≡ none
  last_value_absent [] h = refl
  last_value_absent (v ∷ vs) h = elim (Bool-cases (is_var project name v)) [
    | inl e ↦ ground arith
    | inr e ↦ rw (e, last_value_absent vs (rw e at h)) refl
  ]

  own_row :
      (p n : Text) (v : EnvVar)
      → (project == p && name == n) ≡ true
      → is_var p n v ≡ is_var project name v
  own_row p n v h = ground (
    arith,
    text_key.same_iff project p,
    text_key.same_iff name n,
    text_key.same_iff v.project_id project,
    text_key.same_iff v.name name,
    text_key.same_iff v.project_id p,
    text_key.same_iff v.name n,
  )

  last_value-delete_own :
      (p n : Text) (vs : List EnvVar)
      → (project == p && name == n) ≡ true
      → last_value p n (delete (is_var project name) vs) ≡ none
  last_value-delete_own p n [] h = refl
  last_value-delete_own p n (v ∷ vs) h = elim (Bool-cases (is_var project name v)) [
    | inl e ↦ rw e (last_value-delete_own p n vs h)
    | inr e ↦ rw (e, own_row p n v h, e, last_value-delete_own p n vs h) refl
  ]

  last_value-delete_other :
      (p n : Text) (vs : List EnvVar)
      → (project == p && name == n) ≡ false
      → last_value p n (delete (is_var project name) vs) ≡ last_value p n vs
  last_value-delete_other p n [] h = refl
  last_value-delete_other p n (v ∷ vs) h = elim (Bool-cases (is_var project name v)) [
    | inl e ↦
        rw (e, other_row p n v h e)
          (last_value-delete_other p n vs h ∙ sym (or_else_right (last_value p n vs)))
    | inr e ↦ rw (e, last_value-delete_other p n vs h)
  ]

  last_value_own :
      (p n : Text) (vs : List EnvVar)
      → (project == p && name == n) ≡ true
      → last_value p n vs ≡ last_value project name vs
  last_value_own p n [] h = refl
  last_value_own p n (v ∷ vs) h = rw (last_value_own p n vs h, own_row p n v h)

  last_value-new_var :
      (p n value : Text) (now : ℕ)
      → last_value p n (new_var project name value now ∷ [])
        ≡ (if project == p && name == n then some value else none)
  last_value-new_var p n value now = refl

  last_value-upsert_own :
      (p n value : Text) (now : ℕ) (vs : List EnvVar)
      → (project == p && name == n) ≡ true
      → last_value p n (upsert_var project name value now vs) ≡ some value
  last_value-upsert_own p n value now vs h =
      elim (Bool-cases (is_some (find (is_var project name) vs))) [
        | inl e ↦
            rw
              (
                e,
                last_value_own p n (update (is_var project name) (set_value now value) vs) h,
                last_value_updated value now vs,
                e,
              )
              refl
        | inr e ↦ rw (e, last_value-append p n vs (new_var project name value now ∷ []), h) refl
      ]

  last_value-upsert_other :
      (p n value : Text) (now : ℕ) (vs : List EnvVar)
      → (project == p && name == n) ≡ false
      → last_value p n (upsert_var project name value now vs) ≡ last_value p n vs
  last_value-upsert_other p n value now vs h =
      elim (Bool-cases (is_some (find (is_var project name) vs))) [
        | inl e ↦ rw (e, last_value-update p n value now vs h) refl
        | inr e ↦ rw (e, last_value-append p n vs (new_var project name value now ∷ []), h) refl
      ]

read-upsert :
    (project name value p n : Text) (now : ℕ) (db : Database)
    → get (map_project_env p (upsert_project_env project name value now db)) n
      ≡ (if project == p && name == n then some value else get (map_project_env p db) n)
unfolding upsert_project_env
read-upsert project name value p n now db =
    rw
      (
        get-map_project_env p n db,
        get-map_project_env p n (upsert_project_env project name value now db),
      )
      (elim (Bool-cases (project == p && name == n)) [
        | inl e ↦ rw e (last_value-upsert_own project name p n value now db.project_env_vars e)
        | inr e ↦ rw e (last_value-upsert_other project name p n value now db.project_env_vars e)
      ])

read-delete :
    (project name p n : Text) (db : Database)
    → get (map_project_env p (delete_project_env project name db).1) n
      ≡ (if project == p && name == n then none else get (map_project_env p db) n)
unfolding delete_project_env
read-delete project name p n db =
    rw (get-map_project_env p n db, get-map_project_env p n (delete_project_env project name db).1)
      (elim (Bool-cases (project == p && name == n)) [
        | inl e ↦ rw e (last_value-delete_own project name p n db.project_env_vars e)
        | inr e ↦ rw e (last_value-delete_other project name p n db.project_env_vars e)
      ])

-- The table implements a map from a project and a name to a value: what `MapProjectEnv` reads for
-- any project under any name is, after an upsert, the new value at the pair of the upsert and the
-- old one elsewhere, and, after a delete, nothing at the deleted pair and the old one elsewhere.
pub project_env_refines :
    (project name value p n : Text) (now : ℕ) (db : Database)
    → (get (map_project_env p (upsert_project_env project name value now db)) n
        ≡ (if project == p && name == n then some value else get (map_project_env p db) n))
      × (get (map_project_env p (delete_project_env project name db).1) n
          ≡ (if project == p && name == n then none else get (map_project_env p db) n))
project_env_refines project name value p n now db =
    (read-upsert project name value p n now db, read-delete project name p n db)
