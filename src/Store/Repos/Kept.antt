-- ===== src/Store/Repos/Kept.antt =====
-- Tables that adding and removing repositories leaves alone.
use vercel_clone.Prelude.{ℕ, ◌≡◌, refl, List, [], ◌∷◌}
use vercel_clone.Prelude.Text.{Text}
use vercel_clone.Prelude.Result.{Result, ok, err}
use vercel_clone.Store.{Project, InstallationRepo, Database}
use vercel_clone.Store.Repos.{RepoRow, add_repos, remove_repos, commit_repos}

commit_repos-webhook_deliveries :
    (db : Database) (r : Result (List InstallationRepo × List Project))
    → (commit_repos db r).1.webhook_deliveries ≡ db.webhook_deliveries
unfolding commit_repos
commit_repos-webhook_deliveries db (err e) = refl
commit_repos-webhook_deliveries db (ok (rs, ps)) = refl

pub add_repos-webhook_deliveries :
    (new_id : List Project → Text) (installation : ℕ) (repos : List RepoRow) (cap : ℕ)
    (db : Database)
    → (add_repos new_id installation repos cap db).1.webhook_deliveries ≡ db.webhook_deliveries
unfolding add_repos
add_repos-webhook_deliveries new_id installation [] cap db = refl
add_repos-webhook_deliveries new_id installation (r ∷ repos) cap db =
    commit_repos-webhook_deliveries db _

pub remove_repos-webhook_deliveries :
    (now installation : ℕ) (ids : List ℕ) (db : Database)
    → (remove_repos now installation ids db).webhook_deliveries ≡ db.webhook_deliveries
unfolding remove_repos
remove_repos-webhook_deliveries now installation ids db = refl
