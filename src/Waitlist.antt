-- ===== src/Waitlist.antt =====
-- The waitlist (control-plane/waitlist_handlers.go and its statements in control-plane/store.go).
--
-- The JSON decoder and `mail.ParseAddress` are arguments; the rate limiter's counters are passed on.
pub mod Rows
mod Examples
use vercel_clone.Prelude.{
  ℕ, Bool, true, false, not, ◌||◌, Option, none, some, List, [], ◌∷◌, ◌++◌, ◌==◌, take, ltb,
  if◌then◌else◌, is_some,
}
use vercel_clone.Prelude.Text.{Text, codes, text_key, to_lower, trim_space}
use vercel_clone.Prelude.Dict.{Dict}
use vercel_clone.Prelude.Sort.{sort_by}
use vercel_clone.Prelude.Table.{update, find}
use vercel_clone.Store.{User, Signup, Database, null_if_empty}
use vercel_clone.RateLimit.{RateKey, allow}
use vercel_clone.Auth.{coalesce, listed, is_operator}
use vercel_clone.Http.{Answer, done, refused}

abbrev pub valid_use_cases : List Text
valid_use_cases =
    codes "final-year-project"
    ∷ codes "portfolio"
    ∷ codes "small-business"
    ∷ codes "hackathon"
    ∷ codes "side-project"
    ∷ codes "other"
    ∷ []

pub record WaitlistRequest : Type 0 where
  pub email : Text
  pub use_case : Text
  pub name : Text
  pub college : Text

-- The unique index is on lower(email).
abbrev pub has_email : Text → Signup → Bool
has_email email s = to_lower s.email == to_lower email

abbrev pub refresh_signup : Text → Text → Text → ℕ → Signup → Signup
refresh_signup use_case name college now s = record s {
  use_case = use_case;
  name = coalesce (null_if_empty name) s.name;
  college = coalesce (null_if_empty college) s.college;
  updated_at = now;
}

abbrev pub new_signup : Text → Text → Text → Text → ℕ → Signup
new_signup email use_case name college now = record {
  email = email;
  use_case = use_case;
  name = null_if_empty name;
  college = null_if_empty college;
  created_at = now;
  updated_at = now;
}

unfoldable pub upsert_waitlist_signup : Text → Text → Text → Text → ℕ → Database → Database
upsert_waitlist_signup email use_case name college now db = record db {
  waitlist_signups =
      if is_some (find (has_email email) db.waitlist_signups)
      then update (has_email email) (refresh_signup use_case name college now) db.waitlist_signups
      else db.waitlist_signups ++ new_signup email use_case name college now ∷ [];
}

-- The fields of the body, as they are checked and stored.
abbrev pub signup_email : WaitlistRequest → Text
signup_email body = to_lower (trim_space body.email)

-- if len(name) > 120 { name = name[:120] }.
abbrev pub clipped : Text → Text
clipped s = take 120 (trim_space s)

join_decoded : (Text → Bool) → ℕ → Database → Option WaitlistRequest → Answer (Unit {0}) × Database
join_decoded is_address now db none = (refused 400, db)
join_decoded is_address now db (some body) =
    if signup_email body == []
    then (refused 400, db)
    else if not (is_address (signup_email body))
    then (refused 400, db)
    else if not (listed valid_use_cases (trim_space body.use_case))
    then (refused 400, db)
    else (
      done tt,
      upsert_waitlist_signup (signup_email body) (trim_space body.use_case) (clipped body.name)
          (clipped body.college) now db,
    )

join_limited :
    (Text → Bool)
    → Option WaitlistRequest
    → ℕ
    → Database
    → Bool × Dict RateKey ℕ
    → Answer (Unit {0}) × Dict RateKey ℕ × Database
join_limited is_address body now db (false, limits) = (refused 429, limits, db)
join_limited is_address body now db (true, limits) =
    let (answer, after) = join_decoded is_address now db body in (answer, limits, after)

-- `newIPRateLimiter(10, time.Minute)`.
abbrev pub join_limit : ℕ
join_limit = 10

abbrev pub join_window : ℕ
join_window = 60

unfoldable pub handle_join_waitlist :
    (Text → Bool)
    → Bool
    → Text
    → Option WaitlistRequest
    → ℕ
    → Dict RateKey ℕ
    → Database
    → Answer (Unit {0}) × Dict RateKey ℕ × Database
unfolding join_limited join_decoded
handle_join_waitlist is_address is_post ip body now limits db =
    if not is_post
    then (refused 405, limits, db)
    else join_limited is_address body now db (allow join_limit join_window ip now limits)

-- ORDER BY created_at DESC.
abbrev pub later : Signup → Signup → Bool
later a b = ltb b.created_at a.created_at

unfoldable pub list_waitlist_signups : Database → List Signup
list_waitlist_signups db = sort_by later db.waitlist_signups

unfoldable pub handle_admin_waitlist : List Text → Option User → Database → Answer (List Signup)
handle_admin_waitlist allowlist u db =
    if not (is_operator allowlist u) then refused 403 else done (list_waitlist_signups db)
