-- ===== src/Store/Accounts/Kept.antt =====
-- Tables that the statements on installations leave alone.
use vercel_clone.Prelude.{ℕ, ◌≡◌, refl, inl, inr, Bool, Option, none, some, Bool-cases, is_some}
use vercel_clone.Prelude.Text.{Text}
use vercel_clone.Store.{User, Database}
use vercel_clone.Store.Queue.{installation_of}
use vercel_clone.Store.Accounts.{
  InstallationUpsert, upsert_installation, suspend_installation, delete_installation,
  link_installation_by_github_account, link_to, find_user, set_project_owner_by_installation,
  set_owner, installation_owner,
}

pub upsert_installation-webhook_deliveries :
    (u : InstallationUpsert) (db : Database)
    → (upsert_installation u db).webhook_deliveries ≡ db.webhook_deliveries
unfolding upsert_installation
upsert_installation-webhook_deliveries u db =
    elim (Bool-cases (is_some (installation_of db.installations u.id))) [
      | inl e ↦ rw e refl
      | inr e ↦ rw e refl
    ]

link_to-webhook_deliveries :
    (installation : ℕ) (db : Database) (o : Option User)
    → (link_to installation db o).webhook_deliveries ≡ db.webhook_deliveries
unfolding link_to
link_to-webhook_deliveries installation db none = refl
link_to-webhook_deliveries installation db (some u) = refl

pub link_installation-webhook_deliveries :
    (installation account : ℕ) (db : Database)
    → (link_installation_by_github_account installation account db).webhook_deliveries
      ≡ db.webhook_deliveries
unfolding link_installation_by_github_account
link_installation-webhook_deliveries installation account db =
    link_to-webhook_deliveries installation db (find_user account db.users)

set_owner-webhook_deliveries :
    (installation : ℕ) (o : Option Text) (db : Database)
    → (set_owner installation o db).webhook_deliveries ≡ db.webhook_deliveries
unfolding set_owner
set_owner-webhook_deliveries installation none db = refl
set_owner-webhook_deliveries installation (some owner) db = refl

pub set_project_owner-webhook_deliveries :
    (installation : ℕ) (db : Database)
    → (set_project_owner_by_installation installation db).webhook_deliveries ≡ db.webhook_deliveries
unfolding set_project_owner_by_installation
set_project_owner-webhook_deliveries installation db =
    set_owner-webhook_deliveries installation (installation_owner db.installations installation) db

pub suspend_installation-webhook_deliveries :
    (now id : ℕ) (s : Bool) (db : Database)
    → (suspend_installation now id s db).webhook_deliveries ≡ db.webhook_deliveries
unfolding suspend_installation
suspend_installation-webhook_deliveries now id s db = refl

pub delete_installation-webhook_deliveries :
    (id : ℕ) (db : Database)
    → (delete_installation id db).webhook_deliveries ≡ db.webhook_deliveries
unfolding delete_installation
delete_installation-webhook_deliveries id db = refl
