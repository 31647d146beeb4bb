-- ===== src/Auth/Examples.antt =====
-- The theorems on sign-in at one user.
use vercel_clone.Prelude.{◌≡◌, ◌≤◌, ◌⊎◌, refl, Bool, true, none, some, [], ◌∷◌, arith}
use vercel_clone.Prelude.Text.{codes, text_key}
use vercel_clone.Prelude.Numerals.{read_decimal}
use vercel_clone.Prelude.Result.{ok, err}
use vercel_clone.Prelude.Table.{count}
use vercel_clone.Store.{User, Database}
use vercel_clone.Store.Accounts.{claim_installations_for_user}
use vercel_clone.Store.Examples.{database}
use vercel_clone.Store.Examples.Owners.{ada}
use vercel_clone.Auth.{
  Crypto, sign_state, verify_state, with_id, login_allowed, upsert_user_from_github, create_session,
}
use vercel_clone.Auth.State.{verify_state-sign_state}
use vercel_clone.Auth.SignIn.{
  AuthConfig, Github, GithubUser, OauthToken, Callback, handle_callback, handle_logout,
  user_from_request, is_install_callback, is_accepted, exchange_oauth_code, fetch_github_user,
}
use vercel_clone.Auth.SignIn.Sessions.{IsVouched, user_from_request-handle_callback}
use vercel_clone.Auth.SignIn.Refusals.{HasState, handle_callback-IsVouched}

-- A MAC of one byte.
abbrev crypto : Crypto
crypto = record { mac = λ _ _. 7 ∷ []; scan = read_decimal }

abbrev auth : AuthConfig
auth = record { session_secret = codes "secret"; allowed_logins = codes "ada" ∷ [] }

abbrev github : Github
github = record {
  access_token =
      λ _. ok (200, some (record { access_token = codes "gho"; expires_in = 0; error = [] }));
  user = λ _. ok (200, some (record { id = 77; login = codes "Ada"; email = []; avatar_url = [] }));
}

abbrev users : Database
users = record database { users = ada ∷ [] }

abbrev installed : Callback
installed = record {
  code = codes "code";
  state = [];
  setup_action = codes "install";
  state_cookie = none;
  user_agent = codes "browser";
  forwarded_for = codes "10.0.0.1, 10.0.0.2";
  remote_addr = codes "10.0.0.3:80";
}

single_le : (test : User → Bool) (u : User) → count test (u ∷ []) ≤ 1
single_le test u = ground arith

verify_state-sign_state_example :
    verify_state crypto
      (codes "secret")
      601
      (sign_state crypto (codes "secret") (1 ∷ 255 ∷ []) 600 0)
    ≡ err (codes "state expired")
verify_state-sign_state_example =
    verify_state-sign_state crypto (codes "secret") (1 ∷ 255 ∷ []) 600 0 601 (ground arith, tt) refl

signed_in :
    (handle_callback crypto auth github installed
      (codes "u9")
      (codes "token")
      5
      users).0.session_cookie
    ≡ some (codes "token")
unfolding handle_callback is_accepted exchange_oauth_code fetch_github_user login_allowed
    upsert_user_from_github create_session claim_installations_for_user
signed_in = refl

user_from_request-handle_callback_example :
    let after =
      (handle_callback crypto auth github installed (codes "u9") (codes "token") 5 users).1 in
    (t : OauthToken) × (gh : GithubUser) × (u : User) × IsVouched crypto auth github installed
      (codes "u9")
      (codes "token")
      5
      users
      t
      gh
    × (user_from_request crypto auth (some (codes "token")) 60 after ≡ some u)
    × (u.github_user_id ≡ gh.id)
    × (u.github_login ≡ gh.login)
    × (user_from_request crypto auth
          (some (codes "token"))
          60
          (handle_logout crypto auth (some (codes "token")) after).1
        ≡ none)
user_from_request-handle_callback_example =
    user_from_request-handle_callback crypto auth github installed (codes "u9") (codes "token") 5
      users (codes "token") 60 ((λ id. single_le (with_id id) ada), refl) refl (ground arith)
      signed_in

handle_callback-IsVouched_example :
    ((handle_callback crypto auth github installed (codes "u9") (codes "token") 5 users).1 ≡ users)
    ⊎ ((t : OauthToken) × (gh : GithubUser) × ((is_install_callback installed ≡ true)
          ⊎ HasState crypto auth installed 5)
        × IsVouched crypto auth github installed (codes "u9") (codes "token") 5 users t gh)
handle_callback-IsVouched_example =
    handle_callback-IsVouched crypto auth github installed (codes "u9") (codes "token") 5 users
