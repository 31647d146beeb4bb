-- ===== src/Auth/SignIn.antt =====
-- The handlers of control-plane/auth.go: /login, /auth/callback and /auth/logout, and the user of a
-- request.
--
-- A page is its status and the cookies that it sets. What a store function cannot do without a
-- failure of the database is not an error here; a duplicate session is one.
pub mod Rows
pub mod Sessions
pub mod Refusals
use mathlib.Core.List.{reverse}
use vercel_clone.Prelude.{
  ℕ, ◌+◌, ◌/◌, Bool, true, false, not, ◌||◌, Option, none, some, List, [], ◌∷◌, ltb, nat_eq, ◌==◌,
  if◌then◌else◌,
}
use vercel_clone.Prelude.Text.{Text, codes, text_key, trim_space, cut_byte}
use vercel_clone.Prelude.Result.{Result, ok, err}
use vercel_clone.Store.{User, Session, Database, null_if_empty}
use vercel_clone.Store.Accounts.{claim_installations_for_user}
use vercel_clone.Auth.{
  Crypto, login_allowed, session_lifetime, state_lifetime, hash_session_token, sign_state,
  verify_state, UserUpsert, upsert_user_from_github, create_session, lookup_session, delete_session,
}

pub record AuthConfig : Type 0 where
  pub session_secret : Text
  pub allowed_logins : List Text

-- A cookie that is set to nothing has a negative age.
pub record Page : Type 0 where
  pub status : ℕ
  pub session_cookie : Option Text
  pub state_cookie : Option Text

pub record OauthToken : Type 0 where
  pub access_token : Text
  pub expires_in : ℕ
  pub error : Text

pub record GithubUser : Type 0 where
  pub id : ℕ
  pub login : Text
  pub email : Text
  pub avatar_url : Text

-- GitHub: an error, or a status with what the body decodes to.
pub record Github : Type 0 where
  pub access_token : Text → Result (ℕ × Option OauthToken)
  pub user : Text → Result (ℕ × Option GithubUser)

pub record Callback : Type 0 where
  pub code : Text
  pub state : Text
  pub setup_action : Text
  pub state_cookie : Option Text
  pub user_agent : Text
  pub forwarded_for : Text
  pub remote_addr : Text

-- `host[:i]` up to the last colon, unless that comes first.
before_port : Text → Option (Text × Text) → Text
before_port host none = host
before_port host (some (_, [])) = host
before_port host (some (_, c ∷ s)) = reverse (c ∷ s)

first_forwarded : Text → Option (Text × Text) → Text
first_forwarded xf none = trim_space xf
first_forwarded xf (some ([], _)) = trim_space xf
first_forwarded xf (some (c ∷ s, _)) = trim_space (c ∷ s)

unfoldable pub client_ip : Text → Text → Text
unfolding first_forwarded before_port
client_ip forwarded_for remote_addr =
    if not (forwarded_for == [])
    then first_forwarded forwarded_for (cut_byte forwarded_for b',')
    else before_port remote_addr (cut_byte (reverse remote_addr) b':')

checked_token : Option OauthToken → Result OauthToken
checked_token none = err (codes "decode token")
checked_token (some t) =
    if not (t.error == [])
    then err (codes "oauth error")
    else if t.access_token == []
    then err (codes "empty access_token from github")
    else ok t

exchanged : Result (ℕ × Option OauthToken) → Result OauthToken
exchanged (err e) = err e
exchanged (ok (status, body)) =
    if not (nat_eq (status / 100) 2) then err (codes "token endpoint") else checked_token body

unfoldable pub exchange_oauth_code : Github → Text → Result OauthToken
unfolding exchanged checked_token
exchange_oauth_code github code = exchanged (github.access_token code)

checked_user : Option GithubUser → Result GithubUser
checked_user none = err (codes "decode user")
checked_user (some u) =
    if nat_eq u.id 0 || u.login == [] then err (codes "empty user response from github") else ok u

fetched : Result (ℕ × Option GithubUser) → Result GithubUser
fetched (err e) = err e
fetched (ok (status, body)) =
    if not (nat_eq (status / 100) 2) then err (codes "get user") else checked_user body

unfoldable pub fetch_github_user : Github → Text → Result GithubUser
unfolding fetched checked_user
fetch_github_user github token = fetched (github.user token)

-- if tok.ExpiresIn > 0.
abbrev pub expiry_of : ℕ → ℕ → Option ℕ
expiry_of now expires_in = if ltb 0 expires_in then some (now + expires_in) else none

abbrev pub user_upsert : OauthToken → GithubUser → ℕ → UserUpsert
user_upsert t gh now = record {
  github_user_id = gh.id;
  login = gh.login;
  email = gh.email;
  avatar_url = gh.avatar_url;
  oauth_token = t.access_token;
  oauth_expires = expiry_of now t.expires_in;
}

abbrev pub new_session : Text → Text → Text → Text → ℕ → Session
new_session hash user agent ip now = record {
  token_hash = hash;
  user_id = user;
  user_agent = null_if_empty agent;
  ip = null_if_empty ip;
  expires_at = now + session_lifetime;
}

-- The query is the one that GitHub sends after an installation.
abbrev pub is_install_callback : Callback → Bool
is_install_callback r = r.setup_action == codes "install"

module _ (crypto : Crypto) (auth : AuthConfig) where
  unfoldable pub handle_login : Text → ℕ → Page
  handle_login nonce now = record {
    status = 302;
    session_cookie = none;
    state_cookie = some (sign_state crypto auth.session_secret nonce state_lifetime now);
  }

  is_verified : Result (Unit {0}) → Bool
  is_verified (ok _) = true
  is_verified (err _) = false

  state_matches : Callback → ℕ → Option Text → Bool
  state_matches r now none = false
  state_matches r now (some cookie) =
      if not (cookie == r.state)
      then false
      else is_verified (verify_state crypto auth.session_secret now r.state)

  -- The checks before GitHub is asked: whether the request goes on.
  unfoldable pub is_accepted : Callback → ℕ → Bool
  unfolding state_matches is_verified
  is_accepted r now =
      if r.code == []
      then false
      else if is_install_callback r
      then true
      else if r.state == []
      then false
      else state_matches r now r.state_cookie

  -- The state cookie is cleared once it is checked.
  abbrev cleared : Callback → Option Text
  cleared r = if is_install_callback r then none else some []

  abbrev page : Callback → ℕ → Option Text → Page
  page r status token = record { status = status; session_cookie = token; state_cookie = cleared r }

  finish_session : Callback → Text → Database → Option Database → Page × Database
  finish_session r token db none = (page r 500 none, db)
  finish_session r token db (some db') = (page r 302 (some token), db')

  -- Claiming fails no login.
  open_session : Callback → Text → ℕ → Text × Database → ℕ → Page × Database
  open_session r token now (user, db) account =
      let claimed = (claim_installations_for_user user account db).1 in
      finish_session r token claimed (
        create_session
          (new_session (hash_session_token crypto auth.session_secret token) user r.user_agent
            (client_ip r.forwarded_for r.remote_addr) now)
          claimed)

  admit_user :
      Callback → Text → Text → ℕ → Database → OauthToken → Result GithubUser → Page × Database
  admit_user r fresh token now db t (err _) = (page r 502 none, db)
  admit_user r fresh token now db t (ok gh) =
      if not (login_allowed auth.allowed_logins gh.login)
      then (page r 403 none, db)
      else open_session r token now (upsert_user_from_github fresh (user_upsert t gh now) now db)
          gh.id

  exchange_code :
      Github → Callback → Text → Text → ℕ → Database → Result OauthToken → Page × Database
  exchange_code github r fresh token now db (err _) = (page r 502 none, db)
  exchange_code github r fresh token now db (ok t) =
      admit_user r fresh token now db t (fetch_github_user github t.access_token)

  -- `fresh` is the id of a user that is created, and `token` the random token.
  unfoldable pub handle_callback : Github → Callback → Text → Text → ℕ → Database → Page × Database
  unfolding exchange_code admit_user open_session finish_session
  handle_callback github r fresh token now db =
      if not (is_accepted r now)
      then (record { status = 400; session_cookie = none; state_cookie = none }, db)
      else exchange_code github r fresh token now db (exchange_oauth_code github r.code)

  delete_cookie : Database → Option Text → Database
  delete_cookie db none = db
  delete_cookie db (some token) =
      if token == []
      then db
      else delete_session (hash_session_token crypto auth.session_secret token) db

  unfoldable pub handle_logout : Option Text → Database → Page × Database
  unfolding delete_cookie
  handle_logout cookie db = (
    record { status = 200; session_cookie = some []; state_cookie = none },
    delete_cookie db cookie,
  )

  unfoldable pub user_from_request : Option Text → ℕ → Database → Option User
  user_from_request none now db = none
  user_from_request (some token) now db =
      if token == []
      then none
      else lookup_session (hash_session_token crypto auth.session_secret token) now db

-- `requireUser`: the redirect or the 401, or what the handler does with the user.
unfoldable pub require_user : {A : Type 0} → Bool → Option User → (ℕ → A) → (User → A) → A
require_user html none refuse next = refuse (if html then 302 else 401)
require_user html (some u) refuse next = next u
