-- ===== src/Domains.antt =====
-- The custom domains of a project: the statements of control-plane/domain_store.go and the checks
-- of control-plane/domain_handlers.go.
--
-- The verification token is random, and an argument. The two CHECK constraints of the table are
-- those of control-plane/migrations.
pub mod Handlers
pub mod Hostnames
mod Examples
use mathlib.Core.List.{map}
use vercel_clone.Prelude.{
  ℕ, Bool, true, false, not, ◌&&◌, ◌||◌, Option, none, some, List, [], ◌∷◌, ◌++◌, ltb, leb, nat_eq,
  length, keep, take, ◌==◌, if◌then◌else◌, is_some,
}
use vercel_clone.Prelude.Text.{Text, codes, text_key, to_lower, trim_space, has_suffix, split_byte}
use vercel_clone.Prelude.Dict.{Dict, get, put}
use vercel_clone.Prelude.Sort.{sort_by}
use vercel_clone.Prelude.Table.{update, find, count, delete}
use vercel_clone.Store.{Deployment, Project, ProjectDomain, Database}
use vercel_clone.Builder.{tenant_host_zone}

unfoldable pub normalise_hostname : Text → Text
normalise_hostname h = to_lower (trim_space h)

-- [a-z0-9], and [-a-z0-9].
abbrev pub is_alnum : ℕ → Bool
is_alnum c = (leb b'a' c && leb c b'z') || (leb b'0' c && leb c b'9')

-- After the first byte of a label: any number of bytes, the last of them no dash.
abbrev pub is_label_rest : Text → Bool
is_label_rest [] = true
is_label_rest (c ∷ []) = is_alnum c
is_label_rest (c ∷ d ∷ s) = (is_alnum c || nat_eq c b'-') && is_label_rest (d ∷ s)

abbrev pub is_label : Text → Bool
is_label [] = false
is_label (c ∷ s) = is_alnum c && is_label_rest s

abbrev pub all_labels : List Text → Bool
all_labels [] = true
all_labels (l ∷ ls) = is_label l && all_labels ls

-- `hostnameRE`: two labels at least, with dots between them.
unfoldable pub is_hostname : Text → Bool
is_hostname host = let labels = split_byte b'.' host in leb 2 (length labels) && all_labels labels

-- `reservedHostnames`, and the zone of the tenants.
abbrev pub is_reserved_hostname : Text → Bool
is_reserved_hostname host =
    host == codes "spinup.in"
    || host == codes "www.spinup.in"
    || host == codes "app.spinup.in"
    || host == codes "paas.spinup.in"

unfoldable pub is_platform_host : Text → Bool
is_platform_host host =
    is_reserved_hostname host
    || has_suffix host (b'.' ∷ tenant_host_zone)
    || host == tenant_host_zone

-- CHECK (length(hostname) BETWEEN 3 AND 253); its pattern follows from `hostnameRE`.
abbrev pub fits_column : Text → Bool
fits_column host = leb 3 (length host) && leb (length host) 253

abbrev pub has_hostname : Text → ProjectDomain → Bool
has_hostname host d = d.hostname == host

-- WHERE project_id = $1 AND hostname = $2.
abbrev pub is_domain : Text → Text → ProjectDomain → Bool
is_domain project host d = d.project_id == project && d.hostname == host

abbrev pub new_domain : Text → Text → Text → ℕ → ProjectDomain
new_domain project host token now = record {
  project_id = project;
  hostname = host;
  verification_token = token;
  verified_at = none;
  created_at = now;
}

pub data Added : Type 0 where
  added : ProjectDomain → Added
  already_exists : Added
  failed : Added

add_row : Text → Text → Text → ℕ → Database → Added × Database
add_row project host token now db =
    if not (fits_column host)
    then (failed, db)
    else if is_some (find (has_hostname host) db.project_domains)
    then (already_exists, db)
    else (
      added (new_domain project host token now),
      record db { project_domains = db.project_domains ++ new_domain project host token now ∷ [] },
    )

unfoldable pub add_project_domain : Text → Text → Text → ℕ → Database → Added × Database
unfolding add_row
add_project_domain project hostname token now db =
    add_row project (normalise_hostname hostname) token now db

abbrev pub is_unverified : Text → Text → ProjectDomain → Bool
is_unverified project host d = is_domain project host d && not (is_some d.verified_at)

abbrev pub set_verified : ℕ → ProjectDomain → ProjectDomain
set_verified now d = record d { verified_at = some now }

-- Whether a row was changed.
unfoldable pub mark_domain_verified : Text → Text → ℕ → Database → Bool × Database
mark_domain_verified project hostname now db =
    let host = normalise_hostname hostname in
    (
      ltb 0 (count (is_unverified project host) db.project_domains),
      record db {
        project_domains = update (is_unverified project host) (set_verified now) db.project_domains;
      },
    )

unfoldable pub delete_project_domain : Text → Text → Database → Bool × Database
delete_project_domain project hostname db =
    let host = normalise_hostname hostname in
    (
      ltb 0 (count (is_domain project host) db.project_domains),
      record db { project_domains = delete (is_domain project host) db.project_domains },
    )

unfoldable pub get_project_domain : Text → Text → Database → Option ProjectDomain
get_project_domain project hostname db =
    find (is_domain project (normalise_hostname hostname)) db.project_domains

abbrev pub domain_of_project : Text → ProjectDomain → Bool
domain_of_project project d = d.project_id == project

-- ORDER BY created_at DESC, and ORDER BY created_at.
abbrev pub newer : ProjectDomain → ProjectDomain → Bool
newer a b = ltb b.created_at a.created_at

abbrev pub older : ProjectDomain → ProjectDomain → Bool
older a b = ltb a.created_at b.created_at

unfoldable pub list_project_domains : Text → Database → List ProjectDomain
list_project_domains project db =
    sort_by newer (keep (domain_of_project project) db.project_domains)

abbrev pub is_verified_of : Text → ProjectDomain → Bool
is_verified_of project d = domain_of_project project d && is_some d.verified_at

unfoldable pub list_verified_domains_for_project : Text → Database → List Text
list_verified_domains_for_project project db =
    map (λ d. d.hostname) (sort_by older (keep (is_verified_of project) db.project_domains))

abbrev pub is_one_of : List Text → Text → Bool
is_one_of [] project = false
is_one_of (p ∷ ps) project = p == project || is_one_of ps project

abbrev pub hosts_of : Option (List Text) → List Text
hosts_of none = []
hosts_of (some hs) = hs

-- out[pid] = append(out[pid], host).
abbrev pub append_hosts : Dict Text (List Text) → List ProjectDomain → Dict Text (List Text)
append_hosts out [] = out
append_hosts out (d ∷ ds) =
    append_hosts (put out d.project_id (hosts_of (get out d.project_id) ++ d.hostname ∷ [])) ds

unfoldable pub list_verified_domains_for_projects : List Text → Database → Dict Text (List Text)
list_verified_domains_for_projects projects db = append_hosts [] (
    sort_by older
      (keep (λ d. is_one_of projects d.project_id && is_some d.verified_at) db.project_domains))
