-- ===== src/Store/Repos/Orphans/Covered.antt =====
-- What `ReconcileOrphanRepos` leaves: a project for every repository, and nothing for a second run.
use mathlib.Core.Path.{subst}
use vercel_clone.Prelude.{
  ℕ, ◌≡◌, refl, sym, ap, ◌∙◌, inl, inr, Bool, true, false, not, ◌&&◌, ◌||◌, Option, none, some,
  List, [], ◌∷◌, ◌++◌, map, keep, ◌==◌, is_some, Bool-cases, Option-cases, All, arith, nat_eq,
}
use vercel_clone.Prelude.Text.{Text, text_key}
use vercel_clone.Prelude.Result.{ok, err, Result-cases}
use vercel_clone.Prelude.Table.{find, count-absent, find-append_new}
use vercel_clone.Store.{Project, Installation, InstallationRepo, Database}
use vercel_clone.Store.Queue.{installation_of}
use vercel_clone.Store.Enqueue.{find_project}
use vercel_clone.Store.Repos.{insert_project, insert_owned, insert_checked, unique_violation}
use vercel_clone.Store.Repos.Orphans
use vercel_clone.Store.Repos.Orphans.{
  OrphanRepo, is_orphan, orphan_of, orphan_project, counted, insert_orphans, reconcile_orphan_repos,
}

-- The projects that a run adds stand behind those before it.
abbrev pub Extends : List Project → List Project → Type 0
Extends ps ps' = (new : List Project) × (ps' ≡ ps ++ new)

-- A repository of an installation that is known has a project.
abbrev pub is_covered : List Installation → List Project → ℕ → ℕ → Bool
is_covered is ps installation repo =
    not (is_some (installation_of is installation)) || is_some (find_project installation repo ps)

append_nil : (ps : List Project) → ps ≡ ps ++ []
append_nil [] = refl
append_nil (p ∷ ps) = ap (λ qs. p ∷ qs) (append_nil ps)

append_assoc : (ps qs rs : List Project) → (ps ++ qs) ++ rs ≡ ps ++ (qs ++ rs)
append_assoc [] qs rs = refl
append_assoc (p ∷ ps) qs rs = ap (λ xs. p ∷ xs) (append_assoc ps qs rs)

Extends-trans : (ps qs rs : List Project) → Extends ps qs → Extends qs rs → Extends ps rs
Extends-trans ps qs rs (a, h) (b, k) = (a ++ b, k ∙ ap (λ xs. xs ++ b) h ∙ append_assoc ps a b)

find_more :
    (test : Project → Bool) (ps qs : List Project)
    → is_some (find test ps) ≡ true
    → is_some (find test (ps ++ qs)) ≡ true
find_more test [] qs h = absurd (ground arith)
find_more test (p ∷ ps) qs h = elim (Bool-cases (test p)) [
  | inl e ↦ rw e refl
  | inr e ↦ rw e (find_more test ps qs (rw e at h))
]

covered_more :
    (is : List Installation) (ps ps' : List Project) (installation repo : ℕ)
    → Extends ps ps'
    → is_covered is ps installation repo ≡ true
    → is_covered is ps' installation repo ≡ true
covered_more is ps ps' installation repo (new, h) c =
    subst (λ qs. is_covered is qs installation repo ≡ true) (sym h)
      (elim (Bool-cases (is_some (installation_of is installation))) [
        | inl e ↦ rw e (find_more _ ps new (rw e at c))
        | inr e ↦ rw e refl
      ])

ok_same : (ps ps' : List Project) → ok ps ≡ ok ps' → ps ≡ ps'
ok_same ps ps' h = ground (arith, h)

checked_covers :
    (ps : List Project) (o : Option Project) (p : Project) (ps' : List Project)
    → find_project p.installation_id p.repo_id ps ≡ o
    → insert_checked ps o p ≡ ok ps'
    → Extends ps ps' × (is_some (find_project p.installation_id p.repo_id ps') ≡ true)
unfolding insert_checked
checked_covers ps (some q) p ps' found h =
    subst (λ qs. Extends ps qs × (is_some (find_project p.installation_id p.repo_id qs) ≡ true))
      (ok_same ps ps' h) (([], append_nil ps), ap is_some found)
checked_covers ps none p ps' found h =
    elim (Bool-cases (is_some (find (λ q. q.slug == p.slug) ps))) [
      | inl e ↦ absurd (let h' : err unique_violation ≡ ok ps' = rw e at h in cc)
      | inr e ↦
          let done : ok (ps ++ p ∷ []) ≡ ok ps' = rw e at h in
          subst
            (λ qs. Extends ps qs × (is_some (find_project p.installation_id p.repo_id qs) ≡ true))
            (ok_same _ ps' done)
            (
              (p ∷ [], refl),
              ap is_some (
                  find-append_new
                    (λ q. nat_eq q.installation_id p.installation_id && nat_eq q.repo_id p.repo_id)
                    ps p (count-absent _ ps (ap is_some found)) (ground arith)),
            )
    ]

owned_covers :
    (is : List Installation) (ps : List Project) (p : Project) (o : Option Installation)
    (ps' : List Project)
    → installation_of is p.installation_id ≡ o
    → insert_owned ps p o ≡ ok ps'
    → Extends ps ps' × (is_covered is ps' p.installation_id p.repo_id ≡ true)
unfolding insert_owned
owned_covers is ps p none ps' known h =
    subst (λ qs. Extends ps qs × (is_covered is qs p.installation_id p.repo_id ≡ true))
      (ok_same ps ps' h) (([], append_nil ps), rw known refl)
owned_covers is ps p (some i) ps' known h =
    let (more, found) =
      checked_covers ps _ (record p { owner_user_id = i.owner_user_id }) ps' refl h in
    (more, rw (known, found) refl)

insert_covers :
    (is : List Installation) (ps : List Project) (p : Project) (ps' : List Project)
    → insert_project is p ps ≡ ok ps'
    → Extends ps ps' × (is_covered is ps' p.installation_id p.repo_id ≡ true)
unfolding insert_project
insert_covers is ps p ps' h = owned_covers is ps p _ ps' refl h

-- A repository that is not removed from an installation that is known has a project.
abbrev pub HasProject : List Installation → List Project → InstallationRepo → Type 0
HasProject is ps r = (is_some r.removed_at || is_covered is ps r.installation_id r.repo_id) ≡ true

-- The insert of a row that is covered does nothing.
owned_covered :
    (is : List Installation) (ps : List Project) (p : Project) (o : Option Installation)
    → installation_of is p.installation_id ≡ o
    → is_covered is ps p.installation_id p.repo_id ≡ true
    → insert_owned ps p o ≡ ok ps
unfolding insert_owned
owned_covered is ps p none known c = refl
owned_covered is ps p (some i) known c =
    elim (Option-cases (find_project p.installation_id p.repo_id ps)) [
      | inl absent ↦ absurd (let c' : false ≡ true = rw (known, absent) at c in cc)
      | inr (q, found) ↦ rw (found, insert_checked) refl
    ]

insert_covered :
    (is : List Installation) (ps : List Project) (p : Project)
    → is_covered is ps p.installation_id p.repo_id ≡ true
    → insert_project is p ps ≡ ok ps
unfolding insert_project
insert_covered is ps p c = owned_covered is ps p _ refl c

not_counted : (ps : List Project) (o : OrphanRepo) → counted ps ps o [] ≡ []
not_counted ps o = ground arith

either_true : (a b : Bool) → b ≡ true → (a || b) ≡ true
either_true a b h = ground arith

had_project :
    (is : List Installation) (ps ps' : List Project) (r : InstallationRepo)
    → Extends ps ps'
    → is_orphan ps r ≡ false
    → HasProject is ps' r
had_project is ps ps' r more e = elim (Bool-cases (is_some r.removed_at)) [
  | inl gone ↦ rw gone refl
  | inr here ↦ either_true _ _ (
      covered_more is ps ps' r.installation_id r.repo_id more (
        either_true _ _ (elim (Bool-cases (is_some (find_project r.installation_id r.repo_id ps))) [
          | inl found ↦ found
          | inr absent ↦ absurd (let e' : true ≡ false = rw (here, absent) at e in cc)
        ])))
]

still_there :
    (is : List Installation) (ps : List Project) (r : InstallationRepo)
    → is_orphan ps r ≡ true
    → HasProject is ps r
    → is_covered is ps r.installation_id r.repo_id ≡ true
still_there is ps r e c = elim (Bool-cases (is_some r.removed_at)) [
  | inl gone ↦ absurd (let e' : false ≡ true = rw gone at e in cc)
  | inr here ↦ rw here at c
]

abbrev Covers : List Installation → List Project → OrphanRepo → Type 0
Covers is ps o = is_covered is ps o.installation_id o.repo_id ≡ true

module _ (new_id : List Project → Text) (is : List Installation) where
  rows-Extends :
      (created os : List OrphanRepo) (ps : List Project)
      → Extends ps (insert_orphans new_id is created os ps).1
  unfolding insert_orphans
  rows-Extends created [] ps = ([], append_nil ps)
  rows-Extends created (o ∷ os) ps =
      elim (Result-cases (insert_project is (orphan_project (new_id ps) o) ps)) [
        | inl (e, h) ↦ rw (h, Orphans.insert_then) ([], append_nil ps)
        | inr (ps', h) ↦ rw h (
            Extends-trans ps ps' _ (insert_covers is ps (orphan_project (new_id ps) o) ps' h).0
              (rows-Extends (counted ps ps' o created) os ps'))
      ]

  rows_step :
      (created os : List OrphanRepo) (o : OrphanRepo) (ps ps' : List Project)
      → insert_project is (orphan_project (new_id ps) o) ps ≡ ok ps'
      → insert_orphans new_id is created (o ∷ os) ps
        ≡ insert_orphans new_id is (counted ps ps' o created) os ps'
  unfolding insert_orphans
  rows_step created os o ps ps' h = rw (h, Orphans.insert_then) refl

  rows_cover :
      (created os all : List OrphanRepo) (ps : List Project)
      → (insert_orphans new_id is created os ps).0 ≡ ok all
      → All (Covers is (insert_orphans new_id is created os ps).1) os
  unfolding insert_orphans
  rows_cover created [] all ps h = tt
  rows_cover created (o ∷ os) all ps h =
      elim (Result-cases (insert_project is (orphan_project (new_id ps) o) ps)) [
        | inl (e, failed) ↦
            absurd (let h' : err e ≡ ok all = rw (failed, Orphans.insert_then) at h in cc)
        | inr (ps', done) ↦
            let step = rows_step created os o ps ps' done in
            let next = counted ps ps' o created in
            let rest : (insert_orphans new_id is next os ps').0 ≡ ok all =
              sym (ap (λ r. r.0) step) ∙ h in
            subst (λ out. All (Covers is out.1) (o ∷ os)) (sym step)
              (
                covered_more is ps' (insert_orphans new_id is next os ps').1 o.installation_id
                    o.repo_id (rows-Extends next os ps')
                    (insert_covers is ps (orphan_project (new_id ps) o) ps' done).1,
                rows_cover next os all ps' rest,
              )
      ]

  -- What is covered is not inserted again.
  rows_again :
      (os : List OrphanRepo) (ps : List Project)
      → All (Covers is ps) os
      → insert_orphans new_id is [] os ps ≡ (ok [], ps)
  unfolding insert_orphans
  rows_again [] ps h = refl
  rows_again (o ∷ os) ps (c, cs) =
      rows_step [] os o ps ps (insert_covered is ps (orphan_project (new_id ps) o) c)
      ∙ ap (λ created. insert_orphans new_id is created os ps) (not_counted ps o)
      ∙ rows_again os ps cs

have_projects :
    (is : List Installation) (ps ps' : List Project) (rs : List InstallationRepo)
    → Extends ps ps'
    → All (Covers is ps') (map orphan_of (keep (is_orphan ps) rs))
    → All (HasProject is ps') rs
have_projects is ps ps' [] more h = tt
have_projects is ps ps' (r ∷ rs) more h = elim (Bool-cases (is_orphan ps r)) [
  | inl e ↦
      let (c, cs) : All (Covers is ps') (map orphan_of (r ∷ keep (is_orphan ps) rs)) = rw e at h in
      (either_true _ _ c, have_projects is ps ps' rs more cs)
  | inr e ↦
      let cs : All (Covers is ps') (map orphan_of (keep (is_orphan ps) rs)) = rw e at h in
      (had_project is ps ps' r more e, have_projects is ps ps' rs more cs)
]

orphans_have :
    (is : List Installation) (ps : List Project) (rs : List InstallationRepo)
    → All (HasProject is ps) rs
    → All (Covers is ps) (map orphan_of (keep (is_orphan ps) rs))
orphans_have is ps [] h = tt
orphans_have is ps (r ∷ rs) (c, cs) = elim (Bool-cases (is_orphan ps r)) [
  | inl e ↦ rw e (still_there is ps r e c, orphans_have is ps rs cs)
  | inr e ↦ rw e (orphans_have is ps rs cs)
]

-- A run that ends without an error only adds projects, whatever the cap is. Then every repository that
-- is not removed from an installation that is known has a project, and another run finds nothing to do.
pub reconcile_orphan_repos-HasProject :
    (new_id : List Project → Text) (db : Database) (all : List OrphanRepo)
    → (reconcile_orphan_repos new_id db).0 ≡ ok all
    → Extends db.projects (reconcile_orphan_repos new_id db).1.projects
      × All
          (HasProject db.installations (reconcile_orphan_repos new_id db).1.projects)
          db.installation_repos
      × (reconcile_orphan_repos new_id (reconcile_orphan_repos new_id db).1
          ≡ (ok [], (reconcile_orphan_repos new_id db).1))
unfolding reconcile_orphan_repos
reconcile_orphan_repos-HasProject new_id db all h =
    let is = db.installations in
    let os = map orphan_of (keep (is_orphan db.projects) db.installation_repos) in
    let ps = (insert_orphans new_id is [] os db.projects).1 in
    let more = rows-Extends new_id is [] os db.projects in
    let have =
      have_projects is db.projects ps db.installation_repos more
        (rows_cover new_id is [] os all db.projects h) in
    let again =
      rows_again new_id is (map orphan_of (keep (is_orphan ps) db.installation_repos)) ps
        (orphans_have is ps db.installation_repos have) in
    (more, have, ap (λ out. (out.0, record db { projects = out.1 })) again)
