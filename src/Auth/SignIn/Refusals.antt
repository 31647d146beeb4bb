-- ===== src/Auth/SignIn/Refusals.antt =====
-- What a callback that is turned away leaves, and what the callback of an installation skips.
use vercel_clone.Prelude.{
  ℕ, ◌≡◌, ◌⊎◌, refl, ap, inl, inr, true, Option, none, some, [], arith, ◌==◌, eq_of_==, Bool-cases,
}
use vercel_clone.Prelude.Text.{Text, text_key}
use vercel_clone.Prelude.Result.{Result, ok, err, Result-cases}
use vercel_clone.Store.{Database}
use vercel_clone.Auth
use vercel_clone.Auth.SignIn.Sessions.{IsVouched}
use vercel_clone.Auth.SignIn

module _ (crypto : Auth.Crypto) (auth : SignIn.AuthConfig) (r : SignIn.Callback) (now : ℕ) where
  -- The state is that of the cookie, signed by the server and not expired.
  abbrev pub HasState : Type 0
  HasState =
      (r.state_cookie ≡ some r.state)
      × (Auth.verify_state crypto auth.session_secret now r.state ≡ ok tt)

  is_verified_ok : (o : Result (Unit {0})) → SignIn.is_verified crypto auth o ≡ true → o ≡ ok tt
  unfolding SignIn.is_verified
  is_verified_ok (ok tt) h = refl
  is_verified_ok (err e) h = absurd (ground (arith, h))

  state_matches-HasState :
      (o : Option Text)
      → SignIn.state_matches crypto auth r now o ≡ true
      → (o ≡ some r.state) × (Auth.verify_state crypto auth.session_secret now r.state ≡ ok tt)
  unfolding SignIn.state_matches
  state_matches-HasState none h = absurd (ground (arith, h))
  state_matches-HasState (some cookie) h = elim (Bool-cases (cookie == r.state)) [
    | inl e ↦ (ap some (eq_of_== e), is_verified_ok _ (rw e at h))
    | inr e ↦ absurd (let h' = rw e at h in ground (arith, h'))
  ]

  is_accepted-HasState :
      SignIn.is_accepted crypto auth r now ≡ true → (SignIn.is_install_callback r ≡ true) ⊎ HasState
  unfolding SignIn.is_accepted
  is_accepted-HasState h = elim (Bool-cases (r.code == [])) [
    | inl e ↦ absurd (let h' = rw e at h in ground (arith, h'))
    | inr e ↦ elim (Bool-cases (SignIn.is_install_callback r)) [
      | inl i ↦ inl i
      | inr i ↦ elim (Bool-cases (r.state == [])) [
        | inl z ↦ absurd (let h' = rw (e, i, z) at h in ground (arith, h'))
        | inr z ↦ inr (state_matches-HasState r.state_cookie (rw (e, i, z) at h))
      ]
    ]
  ]

module _ (crypto : Auth.Crypto) (auth : SignIn.AuthConfig) (github : SignIn.Github)
    (r : SignIn.Callback) (fresh token : Text) (now : ℕ) (db : Database) where
  -- A callback changes the database only where it is that of an installation or has the state of its
  -- cookie, signed and not expired, and where GitHub vouches for a user whom the allowlist lets in.
  pub handle_callback-IsVouched :
      ((SignIn.handle_callback crypto auth github r fresh token now db).1 ≡ db)
      ⊎ ((t : SignIn.OauthToken) × (gh : SignIn.GithubUser) × ((SignIn.is_install_callback r ≡ true)
            ⊎ HasState crypto auth r now)
          × IsVouched crypto auth github r fresh token now db t gh)
  unfolding SignIn.handle_callback SignIn.exchange_code SignIn.admit_user
  handle_callback-IsVouched = elim (Bool-cases (SignIn.is_accepted crypto auth r now)) [
    | inr e ↦ rw e (inl refl)
    | inl e ↦ elim (Result-cases (SignIn.exchange_oauth_code github r.code)) [
      | inl (_, x) ↦ rw (e, x) (inl refl)
      | inr (t, x) ↦ elim (Result-cases (SignIn.fetch_github_user github t.access_token)) [
        | inl (_, y) ↦ rw (e, x, y) (inl refl)
        | inr (gh, y) ↦ elim (Bool-cases (Auth.login_allowed auth.allowed_logins gh.login)) [
          | inr z ↦ rw (e, x, y, z) (inl refl)
          | inl z ↦ inr (t, gh, is_accepted-HasState crypto auth r now e, (x, y, z))
        ]
      ]
    ]
  ]

  finish_same :
      (state : Text) (cookie : Option Text) (claimed : Database) (o : Option Database)
      → SignIn.finish_session crypto auth
          (record r { state = state; state_cookie = cookie })
          token
          claimed
          o
        ≡ SignIn.finish_session crypto auth r token claimed o
  unfolding SignIn.finish_session
  finish_same state cookie claimed none = refl
  finish_same state cookie claimed (some after) = refl

  -- A callback with the query of an installation has the same outcome for every state and every
  -- state cookie, also for none.
  pub handle_callback_skips_state :
      (state : Text) (cookie : Option Text)
      → SignIn.is_install_callback r ≡ true
      → SignIn.handle_callback crypto auth github
          (record r { state = state; state_cookie = cookie })
          fresh
          token
          now
          db
        ≡ SignIn.handle_callback crypto auth github r fresh token now db
  unfolding SignIn.handle_callback SignIn.exchange_code SignIn.admit_user SignIn.open_session
      SignIn.finish_session SignIn.is_accepted
  handle_callback_skips_state state cookie h = elim (Bool-cases (r.code == [])) [
    | inl e ↦ rw e refl
    | inr e ↦ elim (Result-cases (SignIn.exchange_oauth_code github r.code)) [
      | inl (_, x) ↦ rw (e, h, x) refl
      | inr (t, x) ↦ elim (Result-cases (SignIn.fetch_github_user github t.access_token)) [
        | inl (_, y) ↦ rw (e, h, x, y) refl
        | inr (gh, y) ↦ elim (Bool-cases (Auth.login_allowed auth.allowed_logins gh.login)) [
          | inr z ↦ rw (e, h, x, y, z) refl
          | inl z ↦ rw (e, h, x, y, z) (finish_same state cookie _ _)
        ]
      ]
    ]
  ]
