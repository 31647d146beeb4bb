-- ===== src/Auth/SignIn/Rows.antt =====
-- The tables of users and sessions under an upsert, an insertion and a deletion.
use vercel_clone.Prelude.{
  ℕ, ◌≤◌, ◌<◌, ◌≡◌, refl, sym, inl, inr, false, Option, none, some, List, [], ◌∷◌, ◌++◌, arith,
  lt→ltb, nat_eq_iff, eq_refl, Bool-cases, is_some,
}
use vercel_clone.Prelude.Text.{Text, text_key}
use vercel_clone.Prelude.Table.{
  update, find, count, delete, find_sound, find-append_new, count_tail, count-find,
}
use vercel_clone.Store.{User, Session, Database}
use vercel_clone.Auth

-- Ids are a primary key, and the generated one is new.
abbrev pub IdsDiffer : Text → List User → Type 0
IdsDiffer fresh us =
    ((id : Text) → count (Auth.with_id id) us ≤ 1) × (count (Auth.with_id fresh) us ≡ 0)

find-refreshed :
    (i : Auth.UserUpsert) (now : ℕ) (us : List User) (u : User)
    → ((id : Text) → count (Auth.with_id id) us ≤ 1)
    → find (Auth.of_account i.github_user_id) us ≡ some u
    → find
        (Auth.with_id u.id)
        (update (Auth.of_account i.github_user_id) (Auth.refresh_user i now) us)
      ≡ some (Auth.refresh_user i now u)
find-refreshed i now [] u once h = absurd (ground (arith, h))
find-refreshed i now (v ∷ us) u once h = elim (Bool-cases (Auth.of_account i.github_user_id v)) [
  | inl e ↦ let same : v ≡ u = ground (arith, rw e at h) in rw (e, same, eq_refl u.id) refl
  | inr e ↦
      let rest = rw e at h in
      let one =
        count-find (Auth.of_account i.github_user_id) (Auth.with_id u.id) us u rest
          (eq_refl u.id) in
      let other : Auth.with_id u.id v ≡ false = ground (arith, once u.id, one) in
      rw (e, other)
        (find-refreshed i now us u (λ id. omega (arith, once id, count_tail (Auth.with_id id) v us))
          rest)
]

live_absent :
    (hash : Text) (now : ℕ) (ss : List Session)
    → is_some (find (Auth.with_hash hash) ss) ≡ false
    → count (Auth.is_live hash now) ss ≡ 0
live_absent hash now [] h = refl
live_absent hash now (s ∷ ss) h = elim (Bool-cases (Auth.with_hash hash s)) [
  | inl e ↦ absurd (ground (arith, e, h))
  | inr e ↦ rw e (live_absent hash now ss (rw e at h))
]

pub find-deleted :
    (hash : Text) (now : ℕ) (ss : List Session)
    → find (Auth.is_live hash now) (delete (Auth.with_hash hash) ss) ≡ none
find-deleted hash now [] = refl
find-deleted hash now (s ∷ ss) = elim (Bool-cases (Auth.with_hash hash s)) [
  | inl e ↦ rw e (find-deleted hash now ss)
  | inr e ↦ rw (e, e) (find-deleted hash now ss)
]

-- A session that is created is found until it expires.
pub find-create_session :
    (s : Session) (later : ℕ) (db after : Database)
    → Auth.create_session s db ≡ some after
    → later < s.expires_at
    → (find (Auth.is_live s.token_hash later) after.sessions ≡ some s) × (after.users ≡ db.users)
unfolding Auth.create_session
find-create_session s later db after h live =
    elim (Bool-cases (is_some (find (Auth.with_hash s.token_hash) db.sessions))) [
      | inl e ↦ absurd (let h' = rw e at h in ground (arith, h'))
      | inr e ↦
          let made : record db { sessions = db.sessions ++ s ∷ [] } ≡ after = created (rw e at h) in
          rw (sym made) (
            find-append_new (Auth.is_live s.token_hash later) db.sessions s
                (live_absent s.token_hash later db.sessions e)
                (rw (eq_refl s.token_hash) (lt→ltb later s.expires_at live)),
            refl,
          )
    ]
  where
    created : {a b : Database} → some a ≡ some b → a ≡ b
    created h = cc

module _ (fresh : Text) (i : Auth.UserUpsert) (now : ℕ) (db : Database)
    (ids : IdsDiffer fresh db.users) where
  -- The returned id is that of the account's row.
  pub upsert-found :
      (o : Option User)
      → find (Auth.of_account i.github_user_id) db.users ≡ o
      → let after = Auth.upsert_row fresh i now db.users o in
        (u : User) × (find (Auth.with_id after.0) after.1 ≡ some u)
        × (u.github_user_id ≡ i.github_user_id)
        × (u.github_login ≡ i.login)
  upsert-found none e = (
    Auth.new_user fresh i now,
    find-append_new (Auth.with_id fresh) db.users _ ids.1 (eq_refl fresh),
    refl,
    refl,
  )
  upsert-found (some u) e = (
    Auth.refresh_user i now u,
    find-refreshed i now db.users u ids.0 e,
    ((nat_eq_iff u.github_user_id i.github_user_id).0
        (find_sound (Auth.of_account i.github_user_id) db.users u e)),
    refl,
  )
