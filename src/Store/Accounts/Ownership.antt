-- ===== src/Store/Accounts/Ownership.antt =====
-- Who owns what, and who sees what.
use vercel_clone.Prelude.{
  ℕ, ◌≡◌, refl, ◌||◌, inl, inr, Bool, true, false, Option, none, some, List, [], ◌∷◌, arith, All,
  Bool-cases, if◌then◌else◌, eq_refl,
}
use vercel_clone.Prelude.Text.{Text, text_key}
use vercel_clone.Prelude.Table.{count, update}
use vercel_clone.Store.{Project, Installation, User, Database}
use vercel_clone.Store.Enqueue.{owner_is}
use vercel_clone.Store.Accounts.{
  claimable, own_installation, own_project, backfilled, installation_owner,
  claim_installations_for_user, Reply, allowed, not_found,
}

owner_is-some : (o : Option Text) (user : Text) → owner_is o user ≡ true → o ≡ some user
owner_is-some none user h = cc
owner_is-some (some owner) user h = ground (arith, text_key.same_iff owner user)

-- The reply with the first project that passes.
abbrev pub reply_of : Option Project → Reply Project
reply_of none = not_found
reply_of (some p) = allowed p

-- A user of the id sees the project, or is an administrator.
abbrev pub may_see : User → Project → Bool
may_see u p = u.is_admin || owner_is p.owner_user_id u.id

claimed_one :
    (user : Text) (account : ℕ) (i : Installation)
    → let i' = if claimable user account i then own_installation user i else i in
      i'.account_id ≡ account → i'.owner_user_id ≡ some user
claimed_one user account i e = elim (Bool-cases (claimable user account i)) [
  | inl t ↦ rw t
  | inr t ↦ rw t (owner_is-some i.owner_user_id user (ground arith))
]

claimed-owned :
    (user : Text) (account : ℕ) (is : List Installation)
    → All
        (λ i. i.account_id ≡ account → i.owner_user_id ≡ some user)
        (update (claimable user account) (own_installation user) is)
claimed-owned user account [] = tt
claimed-owned user account (i ∷ is) = (claimed_one user account i, claimed-owned user account is)

unclaimable :
    (user : Text) (account : ℕ) (i : Installation)
    → claimable user account (if claimable user account i then own_installation user i else i)
      ≡ false
unclaimable user account i = elim (Bool-cases (claimable user account i)) [
  | inl t ↦ rw t (ground (arith, eq_refl user))
  | inr t ↦ rw t t
]

unowned :
    (is : List Installation) (user : Text) (p : Project)
    → backfilled is user p ≡ false
    → installation_owner is p.installation_id ≡ some user
    → owner_is p.owner_user_id user ≡ true
unowned is user p t e =
    let mine : owner_is (installation_owner is p.installation_id) user ≡ true =
      rw e (eq_refl user) in
    ground arith

backfilled_one :
    (is : List Installation) (user : Text) (p : Project)
    → let p' = if backfilled is user p then own_project user p else p in
      installation_owner is p'.installation_id ≡ some user → p'.owner_user_id ≡ some user
backfilled_one is user p e = elim (Bool-cases (backfilled is user p)) [
  | inl t ↦ rw t
  | inr t ↦ rw t (owner_is-some p.owner_user_id user (unowned is user p t (rw t at e)))
]

claimed-count :
    (user : Text) (account : ℕ) (is : List Installation)
    → count (claimable user account) (update (claimable user account) (own_installation user) is)
      ≡ 0
claimed-count user account [] = refl
claimed-count user account (i ∷ is) =
    rw (unclaimable user account i) (claimed-count user account is)

backfilled-owned :
    (is : List Installation) (user : Text) (ps : List Project)
    → All
        (λ p. installation_owner is p.installation_id ≡ some user → p.owner_user_id ≡ some user)
        (update (backfilled is user) (own_project user) ps)
backfilled-owned is user [] = tt
backfilled-owned is user (p ∷ ps) = (backfilled_one is user p, backfilled-owned is user ps)

-- After a user's installations are claimed at login, the user owns every installation of their
-- GitHub account, and every project under an installation that is theirs; claiming again claims
-- none.
pub claim_installations_lem :
    (user : Text) (account : ℕ) (db : Database)
    → let after = (claim_installations_for_user user account db).1 in
      All (λ i. i.account_id ≡ account → i.owner_user_id ≡ some user) after.installations
      × All
          (λ p.
            installation_owner after.installations p.installation_id ≡ some user
            → p.owner_user_id ≡ some user)
          after.projects
      × ((claim_installations_for_user user account after).0 ≡ 0)
unfolding claim_installations_for_user
claim_installations_lem user account db = (
  claimed-owned user account db.installations,
  backfilled-owned (update (claimable user account) (own_installation user) db.installations) user
      db.projects,
  claimed-count user account db.installations,
)
