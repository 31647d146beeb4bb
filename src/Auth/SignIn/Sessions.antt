-- ===== src/Auth/SignIn/Sessions.antt =====
-- What a sign-in leaves: the user's row, the session, and nothing where it is refused.
use vercel_clone.Prelude.{
  ℕ, ◌+◌, ◌<◌, ◌≡◌, refl, sym, ap, ◌∙◌, inl, inr, true, false, none, some, [], arith, ◌==◌,
  Bool-cases, Option-cases,
}
use vercel_clone.Prelude.Text.{Text, text_key}
use vercel_clone.Prelude.Result.{ok, Result-cases}
use vercel_clone.Prelude.Table.{find}
use vercel_clone.Store.{User, Session, Database}
use vercel_clone.Store.Accounts.{claim_installations_for_user}
use vercel_clone.Auth
use vercel_clone.Auth.SignIn
use vercel_clone.Auth.SignIn.Rows.{IdsDiffer, find-create_session, find-deleted, upsert-found}

token_of : (c token : Text) → some c ≡ some token → c ≡ token
token_of c token h = cc

module _ (crypto : Auth.Crypto) (auth : SignIn.AuthConfig) (github : SignIn.Github)
    (r : SignIn.Callback) (fresh token : Text) (now : ℕ) (db : Database) where
  -- GitHub vouches for the user, and the allowlist lets them in.
  abbrev pub IsVouched : SignIn.OauthToken → SignIn.GithubUser → Type 0
  IsVouched t gh =
      (SignIn.exchange_oauth_code github r.code ≡ ok t)
      × (SignIn.fetch_github_user github t.access_token ≡ ok gh)
      × (Auth.login_allowed auth.allowed_logins gh.login ≡ true)

  abbrev upserted : SignIn.OauthToken → SignIn.GithubUser → Text × Database
  upserted t gh = Auth.upsert_user_from_github fresh (SignIn.user_upsert t gh now) now db

  abbrev session_for : Text → Session
  session_for user =
      SignIn.new_session (Auth.hash_session_token crypto auth.session_secret token) user
        r.user_agent (SignIn.client_ip r.forwarded_for r.remote_addr) now

  abbrev claimed : SignIn.OauthToken → SignIn.GithubUser → Database
  claimed t gh = (claim_installations_for_user (upserted t gh).0 gh.id (upserted t gh).1).1

  -- How a page with a session comes about.
  abbrev IsOpened : Text → Database → Type 0
  IsOpened c after =
      (t : SignIn.OauthToken) × (gh : SignIn.GithubUser) × IsVouched t gh
      × (c ≡ token)
      × (Auth.create_session (session_for (upserted t gh).0) (claimed t gh) ≡ some after)

  callback_opens :
      (t : SignIn.OauthToken) (gh : SignIn.GithubUser) (after : Database)
      → SignIn.is_accepted crypto auth r now ≡ true
      → IsVouched t gh
      → Auth.create_session (session_for (upserted t gh).0) (claimed t gh) ≡ some after
      → SignIn.handle_callback crypto auth github r fresh token now db
        ≡ (SignIn.page crypto auth r 302 (some token), after)
  unfolding SignIn.handle_callback SignIn.exchange_code SignIn.admit_user SignIn.open_session
      SignIn.finish_session
  callback_opens t gh after e (x, y, z) v = rw (e, x, y, z, v) refl

  handle_callback_inv :
      (c : Text)
      → (SignIn.handle_callback crypto auth github r fresh token now db).0.session_cookie ≡ some c
      → IsOpened c (SignIn.handle_callback crypto auth github r fresh token now db).1
  unfolding SignIn.handle_callback SignIn.exchange_code SignIn.admit_user SignIn.open_session
      SignIn.finish_session
  handle_callback_inv c h = elim (Bool-cases (SignIn.is_accepted crypto auth r now)) [
    | inr e ↦ absurd (let h' = rw e at h in ground (arith, h'))
    | inl e ↦ elim (Result-cases (SignIn.exchange_oauth_code github r.code)) [
      | inl (_, x) ↦ absurd (let h' = rw (e, x) at h in ground (arith, h'))
      | inr (t, x) ↦ elim (Result-cases (SignIn.fetch_github_user github t.access_token)) [
        | inl (_, y) ↦ absurd (let h' = rw (e, x, y) at h in ground (arith, h'))
        | inr (gh, y) ↦ elim (Bool-cases (Auth.login_allowed auth.allowed_logins gh.login)) [
          | inr z ↦ absurd (let h' = rw (e, x, y, z) at h in ground (arith, h'))
          | inl z ↦
              elim (Option-cases
                (Auth.create_session (session_for (upserted t gh).0) (claimed t gh))) [
                  | inl v ↦ absurd (let h' = rw (e, x, y, z, v) at h in ground (arith, h'))
                  | inr (after, v) ↦
                      let out = callback_opens t gh after e (x, y, z) v in
                      (
                        t,
                        gh,
                        (x, y, z),
                        token_of c token (sym h ∙ ap (λ p. p.0.session_cookie) out),
                        v ∙ ap (λ p. some p.1) (sym out),
                      )
                ]
        ]
      ]
    ]
  ]

  opened-found :
      (later : ℕ)
      → IdsDiffer fresh db.users
      → (token == []) ≡ false
      → later < now + Auth.session_lifetime
      → (t : SignIn.OauthToken) (gh : SignIn.GithubUser) (after : Database)
      → Auth.create_session (session_for (upserted t gh).0) (claimed t gh) ≡ some after
      → (u : User) × (SignIn.user_from_request crypto auth (some token) later after ≡ some u)
        × (u.github_user_id ≡ gh.id)
        × (u.github_login ≡ gh.login)
  unfolding SignIn.user_from_request Auth.lookup_session Auth.upsert_user_from_github
      claim_installations_for_user
  opened-found later ids filled live t gh after made =
      let (session, users) =
        find-create_session (session_for (upserted t gh).0) later (claimed t gh) after made live in
      let (u, row, account, login) =
        upsert-found fresh (SignIn.user_upsert t gh now) now db ids
          (find (Auth.of_account gh.id) db.users) refl in
      (u, rw (filled, session, users) row, account, login)

  user_from_request-handle_logout :
      (later : ℕ)
      → (token == []) ≡ false
      → (after : Database)
      → SignIn.user_from_request crypto auth
          (some token)
          later
          (SignIn.handle_logout crypto auth (some token) after).1
        ≡ none
  unfolding SignIn.user_from_request SignIn.handle_logout SignIn.delete_cookie Auth.lookup_session
      Auth.delete_session
  user_from_request-handle_logout later filled after =
      rw
        (
          filled,
          find-deleted (Auth.hash_session_token crypto auth.session_secret token) later
              after.sessions,
        )
        refl

  -- Where the ids of users differ from each other and from the generated one, and the token is not
  -- empty: a callback that sets a session cookie has exchanged the code for a token and the token
  -- for a GitHub user whom the allowlist lets in; until the session expires, a request with that
  -- cookie is one of the user with that GitHub account and login; and after a logout it is one of
  -- nobody.
  pub user_from_request-handle_callback :
      (c : Text) (later : ℕ)
      → IdsDiffer fresh db.users
      → (token == []) ≡ false
      → later < now + Auth.session_lifetime
      → (SignIn.handle_callback crypto auth github r fresh token now db).0.session_cookie ≡ some c
      → let after = (SignIn.handle_callback crypto auth github r fresh token now db).1 in
        (t : SignIn.OauthToken) × (gh : SignIn.GithubUser) × (u : User) × IsVouched t gh
        × (SignIn.user_from_request crypto auth (some c) later after ≡ some u)
        × (u.github_user_id ≡ gh.id)
        × (u.github_login ≡ gh.login)
        × (SignIn.user_from_request crypto auth
              (some c)
              later
              (SignIn.handle_logout crypto auth (some c) after).1
            ≡ none)
  user_from_request-handle_callback c later ids filled live h =
      let (t, gh, vouched, cookie, made) = handle_callback_inv c h in
      let (u, found, account, login) =
        opened-found later ids filled live t gh
          (SignIn.handle_callback crypto auth github r fresh token now db).1 made in
      (
        t,
        gh,
        u,
        vouched,
        rw cookie found,
        account,
        login,
        rw cookie (
            user_from_request-handle_logout later filled
              (SignIn.handle_callback crypto auth github r fresh token now db).1),
      )
