-- ===== src/Hosts.antt =====
-- The hostnames of the marketing site and of the dashboard (control-plane/hosts.go), and which
-- handler gets a request on them (control-plane/host_router.go).
--
-- The host of a URL, which net/http parses, is an argument.
pub mod Routing
mod Examples
use mathlib.Core.List.{reverse}
use vercel_clone.Prelude.{
  ℕ, ◌^◌, Bool, true, false, not, ◌&&◌, ◌||◌, Option, none, some, List, [], ◌∷◌, ◌++◌, ltb, nat_eq,
  ◌==◌, if◌then◌else◌,
}
use vercel_clone.Prelude.Text.{
  Text, codes, text_key, to_lower, trim_space, trim_left, fields_func, has_prefix, contains,
  cut_byte,
}
use vercel_clone.Prelude.Numerals.{read_decimal}
use vercel_clone.Auth.{is_list_separator, names_of, listed}

pub record HostConfig : Type 0 where
  pub marketing : List Text
  pub app : List Text
  pub app_base : Text

abbrev pub or_defaults : List Text → List Text → List Text
or_defaults defaults [] = defaults
or_defaults defaults (f ∷ fs) = f ∷ fs

unfoldable pub parse_host_set : Text → List Text → List Text
parse_host_set raw defaults = names_of (or_defaults defaults (fields_func is_list_separator raw))

-- strings.TrimRight(s, "/").
abbrev pub trim_slashes : Text → Text
trim_slashes s = reverse (trim_left (λ b. nat_eq b b'/') (reverse s))

abbrev pub with_scheme : Text → Text
with_scheme u = if contains u (codes "://") then u else codes "https://" ++ u

-- What the parser makes of the URL, or nothing.
abbrev pub host_or_empty : Option Text → Text
host_or_empty none = []
host_or_empty (some h) = to_lower h

unfoldable pub host_from_url : (Text → Option Text) → Text → Text
host_from_url url_host u =
    if trim_space u == [] then [] else host_or_empty (url_host (with_scheme (trim_space u)))

abbrev pub add_host : Text → List Text → List Text → List Text
add_host host marketing app =
    if not (host == []) && not (listed marketing host) then host ∷ app else app

-- DASHBOARD_BASE_URL, MARKETING_HOSTS and APP_HOSTS; an unset variable is empty.
unfoldable pub load_host_config : (Text → Option Text) → Text → Text → Text → HostConfig
load_host_config url_host base marketing_hosts app_hosts =
    let trimmed = trim_slashes (trim_space base) in
    let app_base = if trimmed == [] then codes "https://app.spinup.in" else trimmed in
    let marketing =
      parse_host_set marketing_hosts (codes "spinup.in" ∷ codes "www.spinup.in" ∷ []) in
    let app = parse_host_set app_hosts (codes "app.spinup.in" ∷ []) in
    record {
      marketing = marketing;
      app =
          if app_hosts == [] then add_host (host_from_url url_host app_base) marketing app else app;
      app_base = app_base;
    }

before_colon : Text → Option (Text × Text) → Text
before_colon h none = h
before_colon h (some (l, _)) = l

unfoldable pub request_host : Text → Text
unfolding before_colon
request_host h = to_lower (before_colon h (cut_byte h b':'))

pub data Surface : Type 0 where
  marketing_surface app_surface : Surface

unfoldable pub surface : HostConfig → Text → Surface
surface hosts host = if listed hosts.marketing host then marketing_surface else app_surface

pub data Method : Type 0 where
  get_method post_method other_method : Method

abbrev is_get : Method → Bool
is_get get_method = true
is_get _ = false

abbrev is_post : Method → Bool
is_post post_method = true
is_post _ = false

-- The handler behind the router, or the router's own answer.
pub data Served : Type 0 where
  next landing_page join_waitlist : Served
  redirect : Text → Served

-- Probes and GitHub's webhook.
abbrev pub is_open_path : Text → Bool
is_open_path path =
    path == codes "/healthz" || path == codes "/readyz" || path == codes "/webhooks/github"

on_surface : HostConfig → Method → Text → Text → Surface → Served
on_surface hosts method path uri app_surface = next
on_surface hosts method path uri marketing_surface =
    if is_get method && (path == codes "/" || path == codes "/login")
    then landing_page
    else if is_post method && path == codes "/v1/waitlist"
    then join_waitlist
    else if has_prefix path (codes "/auth/")
    then redirect (hosts.app_base ++ path)
    else redirect (hosts.app_base ++ uri)

unfoldable pub with_host_routing : HostConfig → Method → Text → Text → Text → Served
unfolding on_surface
with_host_routing hosts method path uri host =
    if is_open_path path
    then next
    else on_surface hosts method path uri (surface hosts (request_host host))

-- strconv.Atoi: a sign, digits and the bounds of an int; whether it is negative, and its size.
abbrev pub digits_value : Text → Option ℕ
digits_value s = elim (read_decimal s) [
  | none ↦ none
  | some n ↦ if ltb n (2 ^ 63) then some n else none
]

abbrev pub atoi : Text → Option (Bool × ℕ)
atoi [] = none
atoi (c ∷ s) =
    if nat_eq c b'-'
    then (elim (read_decimal s) [
      | none ↦ none
      | some n ↦ if ltb (2 ^ 63) n then none else some (ltb 0 n, n)
    ])
    else (elim (digits_value (if nat_eq c b'+' then s else c ∷ s)) [
      | none ↦ none
      | some n ↦ some (false, n)
    ])

capped : Option (Bool × ℕ) → ℕ
capped none = 3
capped (some (true, _)) = 3
capped (some (false, n)) = n

-- MAX_PROJECTS_PER_USER.
unfoldable pub load_max_projects : Text → ℕ
unfolding capped
load_max_projects value = if trim_space value == [] then 3 else capped (atoi (trim_space value))
