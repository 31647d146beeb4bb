-- ===== src/Store/Repos/Cap.antt =====
-- The cap on the projects of one owner.
use Prim.Native.Nat.{max}
use mathlib.Core.Path.{subst}
use vercel_clone.Prelude.{
  leb→lt, ◌⊎◌, ℕ, suc, ◌≤◌, ◌<◌, ◌≡◌, refl, ◌≢◌, ap, ◌∙◌, inl, inr, Bool, Option, none, some, List,
  [], ◌∷◌, ◌++◌, arith, is_some, Bool-cases, ◌==◌, leb, lt→ltb,
}
use vercel_clone.Prelude.Text.{Text, text_key}
use vercel_clone.Prelude.Result.{Result, ok, err, bind_inv}
use vercel_clone.Prelude.Table.{find, count}
use vercel_clone.Store.{Project, Installation, InstallationRepo, Database}
use vercel_clone.Store.Queue.{installation_of}
use vercel_clone.Store.Repos.{
  RepoRow, count_projects, count_projects_for_user, upsert_repo, insert_checked, insert_owned,
  insert_project, capped_owner, add_loop, commit_repos, existing_of, add_repos, with_installation,
}

count-snoc :
    (test : Project → Bool) (ps : List Project) (p : Project)
    → count test (ps ++ p ∷ []) ≤ suc (count test ps)
count-snoc test [] p = ground arith
count-snoc test (q ∷ ps) p = ground (arith, count-snoc test ps p)

-- An insert leaves the projects as they are, or adds one.
Inserted : List Project → List Project → Type 0
Inserted ps ps' = (ps' ≡ ps) ⊎ ((q : Project) × (ps' ≡ ps ++ q ∷ []))

checked_inv :
    (ps : List Project) (o : Option Project) (p : Project) (ps' : List Project)
    → insert_checked ps o p ≡ ok ps'
    → Inserted ps ps'
unfolding insert_checked Inserted
checked_inv ps (some _) p ps' h = inl (ground arith)
checked_inv ps none p ps' h = elim (Bool-cases (is_some (find (λ q. q.slug == p.slug) ps))) [
  | inl e ↦ absurd (ground arith)
  | inr e ↦ inr (p, ground arith)
]

owned_inv :
    (ps : List Project) (p : Project) (o : Option Installation) (ps' : List Project)
    → insert_owned ps p o ≡ ok ps'
    → Inserted ps ps'
unfolding insert_owned
owned_inv ps p none ps' h = unfold Inserted in inl (ground arith)
owned_inv ps p (some i) ps' h = checked_inv ps _ _ ps' h

insert_inv :
    (is : List Installation) (p : Project) (ps ps' : List Project)
    → insert_project is p ps ≡ ok ps'
    → Inserted ps ps'
unfolding insert_project
insert_inv is p ps ps' h = owned_inv ps p _ ps' h

module _ (user : Text) where
  Inserted-count :
      (ps ps' : List Project)
      → Inserted ps ps'
      → count_projects user ps' ≤ suc (count_projects user ps)
  unfolding Inserted
  Inserted-count ps ps' (inl e) = rw e (omega arith)
  Inserted-count ps ps' (inr (q, e)) = rw e (count-snoc _ ps q)

module _ (new_id : List Project → Text) (installation : ℕ) (is : List Installation) (user : Text)
    (cap : ℕ) where
  loop-cap :
      (existing : ℕ) (repos : List RepoRow) (rs rs' : List InstallationRepo) (ps ps' : List Project)
      → add_loop new_id installation is cap (some user) existing repos rs ps ≡ ok (rs', ps')
      → count_projects user ps ≤ existing
      → count_projects user ps' ≤ max existing cap
  unfolding add_loop
  loop-cap existing [] rs rs' ps ps' h fits = ground arith
  loop-cap existing (r ∷ repos) rs rs' ps ps' h fits = elim (Bool-cases (leb cap existing)) [
    | inl full ↦
        loop-cap existing repos (upsert_repo installation r rs) rs' ps ps' (rw full at h) fits
    | inr room ↦
        (let (ps₁, inserted, rest) = bind_inv _ _ _ (rw room at h) in
          let one = Inserted-count user ps ps₁ (insert_inv is _ ps ps₁ inserted) in
          let below = leb→lt cap existing room in
          omega (
            arith,
            loop-cap (suc existing) repos (upsert_repo installation r rs) rs' ps₁ ps' rest
                (omega arith),
            below,
          ))
  ]

capped :
    (cap : ℕ) (i : Installation) (user : Text)
    → 0 < cap
    → i.owner_user_id ≡ some user
    → user ≢ []
    → capped_owner cap (some i) ≡ some user
capped cap i user pos e named = rw (lt→ltb 0 cap pos, e) (ground (arith, text_key.same_iff user []))

commit_inv :
    (db db' : Database) (r : Result (List InstallationRepo × List Project))
    → commit_repos db r ≡ (ok tt, db')
    → (rs : List InstallationRepo) × (ps : List Project) × (r ≡ ok (rs, ps)) × (db'.projects ≡ ps)
unfolding commit_repos
commit_inv db db' (err e) h = absurd (ground arith)
commit_inv db db' (ok (rs, ps)) h = (rs, ps, refl, ground arith)

existing_of_named :
    (user : Text) (db : Database)
    → user ≢ []
    → existing_of (some user) db ≡ count_projects user db.projects
unfolding existing_of count_projects_for_user
existing_of_named user db named = ground (arith, text_key.same_iff user [])

with_installation_inv :
    (o : Option Installation) (i : Installation) (r : Result (List InstallationRepo × List Project))
    (rs : List InstallationRepo) (ps : List Project)
    → o ≡ some i
    → with_installation o r ≡ ok (rs, ps)
    → r ≡ ok (rs, ps)
unfolding with_installation
with_installation_inv none i r rs ps there h = absurd (ground (arith, there))
with_installation_inv (some j) i r rs ps there h = h

-- Adding repositories to an installation that has an owner never takes that owner beyond the cap:
-- afterwards the owner has no more projects than before, or than the cap.
pub add_repos-cap :
    (new_id : List Project → Text) (installation cap : ℕ) (r : RepoRow) (repos : List RepoRow)
    (db db' : Database) (i : Installation) (user : Text)
    → 0 < cap
    → installation_of db.installations installation ≡ some i
    → i.owner_user_id ≡ some user
    → user ≢ []
    → add_repos new_id installation (r ∷ repos) cap db ≡ (ok tt, db')
    → count_projects user db'.projects ≤ max (count_projects user db.projects) cap
unfolding add_repos
add_repos-cap new_id installation cap r repos db db' i user pos found owned named h =
    let (rs, ps, checked, same) = commit_inv db db' _ h in
    let e =
      with_installation_inv (installation_of db.installations installation) i _ rs ps found
        checked in
    let owner = ap (capped_owner cap) found ∙ capped cap i user pos owned named in
    let e' =
      subst
        (λ w.
          add_loop new_id installation db.installations cap w (existing_of w db) (r ∷ repos)
            db.installation_repos db.projects
          ≡ ok (rs, ps))
        owner e in
    let counted = existing_of_named user db named in
    let bound =
      loop-cap new_id installation db.installations user cap (existing_of (some user) db)
        (r ∷ repos) db.installation_repos rs db.projects ps e' (omega (arith, counted)) in
    rw same (omega (arith, bound, counted))
