-- ===== src/Auth.antt =====
-- Sign-in, sessions and the gates on them (control-plane/auth.go, the statements of
-- control-plane/store.go on users and sessions, and `isOperator` of
-- control-plane/waitlist_handlers.go).
--
-- HMAC, the random tokens, `fmt.Sscan` and GitHub's two answers are arguments. A row of `users`
-- stands for the `sessionUser` that is copied from it. A time is a number of seconds.
pub mod SignIn
pub mod State
mod Examples
use vercel_clone.Prelude.{
  ℕ, ◌+◌, Bool, true, false, not, ◌&&◌, ◌||◌, Option, none, some, List, [], ◌∷◌, ◌++◌, ltb, nat_eq,
  ◌==◌, if◌then◌else◌, is_some,
}
use vercel_clone.Prelude.Text.{
  Text, codes, text_key, to_lower, trim_space, fields_func, cut_byte, split_byte,
}
use vercel_clone.Prelude.Numerals.{decimal, hex_encode, hex_decode}
use vercel_clone.Prelude.Result.{Result, ok, err}
use vercel_clone.Prelude.Table.{update, find, delete}
use vercel_clone.Store.{User, Session, Database, null_if_empty}
use vercel_clone.Store.Accounts.{claim_installations_for_user}

-- The separators of a list in an environment variable.
abbrev pub is_list_separator : ℕ → Bool
is_list_separator c =
    nat_eq c b',' || nat_eq c b' ' || nat_eq c 10 || nat_eq c 13 || nat_eq c 9 || nat_eq c b';'

-- The loop over the fields: lower case, without the blank ones.
abbrev pub names_of : List Text → List Text
names_of [] = []
names_of (f ∷ fs) =
    let rest = names_of fs in
    if to_lower (trim_space f) == [] then rest else to_lower (trim_space f) ∷ rest

-- m[name] of a set.
abbrev pub listed : List Text → Text → Bool
listed [] name = false
listed (n ∷ ns) name = n == name || listed ns name

unfoldable pub parse_allowlist : Text → List Text
parse_allowlist raw = names_of (fields_func is_list_separator raw)

unfoldable pub login_allowed : List Text → Text → Bool
login_allowed [] login = true
login_allowed (n ∷ ns) login = listed (n ∷ ns) (to_lower (trim_space login))

unfoldable pub is_operator : List Text → Option User → Bool
is_operator allowlist none = false
is_operator allowlist (some u) = if u.is_admin then true else login_allowed allowlist u.github_login

-- HMAC-SHA256 under a secret, and `fmt.Sscan` into a number.
pub record Crypto : Type 0 where
  pub mac : Text → Text → Text
  pub scan : Text → Option ℕ

abbrev pub session_lifetime : ℕ
session_lifetime = 2592000

abbrev pub state_lifetime : ℕ
state_lifetime = 600

module _ (crypto : Crypto) where
  unfoldable pub hash_session_token : Text → Text → Text
  hash_session_token secret token = crypto.mac secret token

  -- The nonce is random.
  unfoldable pub sign_state : Text → Text → ℕ → ℕ → Text
  sign_state secret nonce ttl now =
      let payload = hex_encode nonce ++ b'.' ∷ decimal (now + ttl) in
      payload ++ b'.' ∷ hex_encode (crypto.mac secret payload)

  -- The checks after the split in three, with the error.
  check_expiry : ℕ → Option ℕ → Result (Unit {0})
  check_expiry now none = err (codes "malformed state expiry")
  check_expiry now (some e) = if ltb e now then err (codes "state expired") else ok tt

  check_signature : Text → Text → Text → ℕ → Option Text → Result (Unit {0})
  check_signature secret nonce expiry now none = err (codes "encoding/hex")
  check_signature secret nonce expiry now (some want) =
      if not (want == crypto.mac secret (nonce ++ b'.' ∷ expiry))
      then err (codes "state signature mismatch")
      else check_expiry now (crypto.scan expiry)

  check_parts : Text → ℕ → List Text → Result (Unit {0})
  check_parts secret now (nonce ∷ expiry ∷ signature ∷ []) =
      check_signature secret nonce expiry now (hex_decode signature)
  check_parts secret now [] = err (codes "malformed state")
  check_parts secret now (_ ∷ []) = err (codes "malformed state")
  check_parts secret now (_ ∷ _ ∷ []) = err (codes "malformed state")
  check_parts secret now (_ ∷ _ ∷ _ ∷ _ ∷ _) = err (codes "malformed state")

  unfoldable pub verify_state : Text → ℕ → Text → Result (Unit {0})
  unfolding check_parts check_signature check_expiry
  verify_state secret now raw = check_parts secret now (split_byte b'.' raw)

-- The statements on users and sessions.
pub record UserUpsert : Type 0 where
  pub github_user_id : ℕ
  pub login : Text
  pub email : Text
  pub avatar_url : Text
  pub oauth_token : Text
  pub oauth_expires : Option ℕ

-- COALESCE(new, old).
abbrev pub coalesce : {A : Type 0} → Option A → Option A → Option A
coalesce none old = old
coalesce (some new) old = some new

abbrev pub refresh_user : UserUpsert → ℕ → User → User
refresh_user i now u = record u {
  github_login = i.login;
  email = coalesce (null_if_empty i.email) u.email;
  avatar_url = coalesce (null_if_empty i.avatar_url) u.avatar_url;
  oauth_token = coalesce (null_if_empty i.oauth_token) u.oauth_token;
  oauth_expires_at = coalesce i.oauth_expires u.oauth_expires_at;
  last_login_at = some now;
}

abbrev pub new_user : Text → UserUpsert → ℕ → User
new_user fresh i now = record {
  id = fresh;
  github_user_id = i.github_user_id;
  github_login = i.login;
  email = null_if_empty i.email;
  avatar_url = null_if_empty i.avatar_url;
  oauth_token = null_if_empty i.oauth_token;
  oauth_expires_at = i.oauth_expires;
  last_login_at = some now;
  is_admin = false;
}

abbrev pub of_account : ℕ → User → Bool
of_account account u = nat_eq u.github_user_id account

-- INSERT … ON CONFLICT (github_user_id) DO UPDATE … RETURNING id.
abbrev pub upsert_row : Text → UserUpsert → ℕ → List User → Option User → Text × List User
upsert_row fresh i now us none = (fresh, us ++ new_user fresh i now ∷ [])
upsert_row fresh i now us (some u) =
    (u.id, update (of_account i.github_user_id) (refresh_user i now) us)

unfoldable pub upsert_user_from_github : Text → UserUpsert → ℕ → Database → Text × Database
upsert_user_from_github fresh i now db =
    let (id, us) = upsert_row fresh i now db.users (find (of_account i.github_user_id) db.users) in
    (id, record db { users = us })

abbrev pub with_hash : Text → Session → Bool
with_hash hash s = s.token_hash == hash

-- The hash is the primary key.
unfoldable pub create_session : Session → Database → Option Database
create_session s db =
    if is_some (find (with_hash s.token_hash) db.sessions)
    then none
    else some (record db { sessions = db.sessions ++ s ∷ [] })

abbrev pub is_live : Text → ℕ → Session → Bool
is_live hash now s = s.token_hash == hash && ltb now s.expires_at

abbrev pub with_id : Text → User → Bool
with_id id u = u.id == id

-- The join of the session with its user.
abbrev pub user_of : List User → Option Session → Option User
user_of us none = none
user_of us (some s) = find (with_id s.user_id) us

unfoldable pub lookup_session : Text → ℕ → Database → Option User
lookup_session hash now db = user_of db.users (find (is_live hash now) db.sessions)

unfoldable pub delete_session : Text → Database → Database
delete_session hash db = record db { sessions = delete (with_hash hash) db.sessions }
