-- ===== src/Store/Accounts.antt =====
-- Installations, their owners, and the ownership test of the API (control-plane/store.go and
-- control-plane/env_handlers.go).
pub mod Ownership
pub mod Kept
use vercel_clone.Prelude.{
  ℕ, keep, length, suc, ◌≡◌, refl, leb, Bool, true, false, not, ◌&&◌, ◌||◌, Option, none, some,
  List, [], ◌∷◌, ◌++◌, nat_eq, ◌==◌, is_some, if◌then◌else◌,
}
use vercel_clone.Prelude.Text.{Text, codes, text_key, to_lower}
use vercel_clone.Prelude.Table.{find, count, update, delete}
use vercel_clone.Store.{Project, Installation, User, Database}
use vercel_clone.Store.Queue.{installation_of}
use vercel_clone.Store.Enqueue.{owner_is, owned_by}

pub record InstallationUpsert : Type 0 where
  pub id : ℕ
  pub account_login : Text
  pub account_id : ℕ
  pub target_type : Text

abbrev with_installation_id : ℕ → Installation → Bool
with_installation_id id i = nat_eq i.id id

abbrev fresh_installation : InstallationUpsert → Installation
fresh_installation u = record {
  id = u.id;
  account_login = u.account_login;
  account_id = u.account_id;
  target_type = u.target_type;
  suspended_at = none;
  owner_user_id = none;
}

abbrev refresh : InstallationUpsert → Installation → Installation
refresh u i = record i {
  account_login = u.account_login;
  account_id = u.account_id;
  target_type = u.target_type;
  suspended_at = none;
}

unfoldable pub upsert_installation : InstallationUpsert → Database → Database
upsert_installation u db =
    if is_some (installation_of db.installations u.id)
    then record db {
      installations = update (with_installation_id u.id) (refresh u) db.installations;
    }
    else record db { installations = db.installations ++ fresh_installation u ∷ [] }

unfoldable pub suspend_installation : ℕ → ℕ → Bool → Database → Database
suspend_installation now id suspended db = record db {
  installations =
      update (with_installation_id id)
        (λ i. record i { suspended_at = if suspended then some now else none }) db.installations;
}

unfoldable pub delete_installation : ℕ → Database → Database
delete_installation id db = record db {
  installations = delete (with_installation_id id) db.installations;
  -- ON DELETE CASCADE.
  installation_repos = delete (λ r. nat_eq r.installation_id id) db.installation_repos;
}

-- owner_user_id IS DISTINCT FROM $1.
abbrev pub is_distinct : Option Text → Text → Bool
is_distinct owner user = not (owner_is owner user)

abbrev pub own_installation : Text → Installation → Installation
own_installation user i = record i { owner_user_id = some user }

abbrev pub own_project : Text → Project → Project
own_project user p = record p { owner_user_id = some user }

abbrev pub claimable : Text → ℕ → Installation → Bool
claimable user account i = nat_eq i.account_id account && is_distinct i.owner_user_id user

-- The join of a project with its installation, where that belongs to the user.
abbrev pub installation_owner : List Installation → ℕ → Option Text
installation_owner is id = elim (installation_of is id) [ none ↦ none | some i ↦ i.owner_user_id ]

abbrev pub backfilled : List Installation → Text → Project → Bool
backfilled is user p =
    owner_is (installation_owner is p.installation_id) user && is_distinct p.owner_user_id user

unfoldable pub claim_installations_for_user : Text → ℕ → Database → ℕ × Database
claim_installations_for_user user account db =
    let is = update (claimable user account) (own_installation user) db.installations in
    (
      count (claimable user account) db.installations,
      record db {
        installations = is;
        projects = update (backfilled is user) (own_project user) db.projects;
      },
    )

abbrev find_user : ℕ → List User → Option User
find_user account = find (λ u. nat_eq u.github_user_id account)

link_to : ℕ → Database → Option User → Database
link_to installation db none = db
link_to installation db (some u) = record db {
  installations =
      update (λ i. nat_eq i.id installation && is_distinct i.owner_user_id u.id)
        (own_installation u.id) db.installations;
}

unfoldable pub link_installation_by_github_account : ℕ → ℕ → Database → Database
unfolding link_to
link_installation_by_github_account installation account db =
    link_to installation db (find_user account db.users)

set_owner : ℕ → Option Text → Database → Database
set_owner installation none db = db
set_owner installation (some owner) db = record db {
  projects =
      update (λ p. nat_eq p.installation_id installation && is_distinct p.owner_user_id owner)
        (own_project owner) db.projects;
}

unfoldable pub set_project_owner_by_installation : ℕ → Database → Database
unfolding set_owner
set_project_owner_by_installation installation db =
    set_owner installation (installation_owner db.installations installation) db

-- The digits of an id: $1::uuid reads them in either case, wherever the dashes stand. (A text with other
-- than 32 of them is an error of the cast, which the handlers answer with 500; here it has no row.)
abbrev pub digits_of : Text → Text
digits_of id = to_lower (keep (λ c. not (nat_eq c b'-')) id)

abbrev pub same_uuid : Text → Text → Bool
same_uuid a b = digits_of a == digits_of b

-- `GetProjectForOwner`, and the queries of that form: the row, if the user owns it or is "".
unfoldable pub get_project_for_owner : Text → Text → Database → Option Project
get_project_for_owner id owner db = find (λ p. same_uuid p.id id && owned_by owner p) db.projects

-- The answers of the API that these handlers give.
pub data Reply (A : Type 0) : Type 0 where
  allowed : A → Reply A
  bad_request : Reply A
  unauthorized : Reply A
  not_found : Reply A

scope_of : User → Text
scope_of u = if u.is_admin then [] else u.id

authorise_as : Text → Database → Option Project → Reply Project
authorise_as id db none = not_found
authorise_as id db (some p) = allowed p

-- `uuidRE` (control-plane/logs.go): 36 hexadecimal digits and dashes.
abbrev pub is_uuid_byte : ℕ → Bool
is_uuid_byte c =
    (leb b'0' c && leb c b'9')
    || (leb b'a' c && leb c b'f')
    || (leb b'A' c && leb c b'F')
    || nat_eq c b'-'

abbrev pub all_uuid_bytes : Text → Bool
all_uuid_bytes [] = true
all_uuid_bytes (c ∷ s) = is_uuid_byte c && all_uuid_bytes s

unfoldable pub is_uuid : Text → Bool
is_uuid s = nat_eq (length s) 36 && all_uuid_bytes s

authorise_checked : Bool → Text → Option User → Database → Reply Project
unfolding scope_of authorise_as
authorise_checked false id u db = bad_request
authorise_checked true id none db = unauthorized
authorise_checked true id (some u) db =
    authorise_as id db (get_project_for_owner id (scope_of u) db)

-- `authoriseProject`: the user of the session, and the id in the path.
unfoldable pub authorise_project : Text → Option User → Database → Reply Project
unfolding authorise_checked is_uuid
authorise_project id u db = authorise_checked (is_uuid id) id u db
