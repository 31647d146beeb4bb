-- ===== src/Store/Queue/Claim.antt =====
-- What `ClaimNextQueued` claims, and what it cannot claim.
use mathlib.Core.List.{Memᴰ}
use mathlib.Core.Path.{subst}
use vercel_clone.Prelude.{
  Option-cases, ℕ, ◌≡◌, refl, ◌≢◌, sym, ◌∙◌, inl, inr, Option, none, some, List, [], ◌∷◌, arith,
  All, Bool-cases, ◌==◌,
}
use vercel_clone.Prelude.Text.{Text, text_key}
use vercel_clone.Prelude.Result.{ok, err}
use vercel_clone.Prelude.Table.{update}
use vercel_clone.Store.{queued, Deployment, Project, Installation, Database}
use vercel_clone.Store.Queue.{
  Tie, oldest_queued, ClaimedDeployment, project_of, installation_of, start_build, claimed_row,
  begin_build, null_login, claim_scan, claim_join, claim_oldest, claim_next_queued, with_id,
}
use vercel_clone.Store.Queue.Oldest.{
  All-oldest, none-unqueued, oldest-queued, oldest-mem, oldest_queued-IsOldest, IsOldest,
}

-- The claim is of row `d`, and the table after it.
pub record Claims (now : ℕ) (db : Database) (d : Deployment) (c : ClaimedDeployment)
    (db' : Database) : Type 0 where
  pub same_id : c.deployment_id ≡ d.id
  pub same_project : c.project_id ≡ d.project_id
  pub same_sha : c.commit_sha ≡ d.commit_sha
  pub same_ref : c.ref ≡ d.ref
  pub written : db'.deployments ≡ update (with_id d.id) (start_build now) db.deployments

module _ (now : ℕ) (db : Database) (d : Deployment) where
  scan_inv :
      (p : Project) (i : Option Installation) (c : ClaimedDeployment) (db' : Database)
      → claim_scan db now d p i ≡ (ok (some c), db')
      → Claims now db d c db'
  unfolding claim_scan
  scan_inv p none c db' h = absurd (ground arith)
  scan_inv p (some i) c db' h = ground arith

  join_inv :
      (p : Option Project) (c : ClaimedDeployment) (db' : Database)
      → claim_join db now d p ≡ (ok (some c), db')
      → Claims now db d c db'
  unfolding claim_join
  join_inv none c db' h = absurd (ground arith)
  join_inv (some p) c db' h = scan_inv p _ c db' h

pub oldest_inv :
    (now : ℕ) (db : Database) (o : Option Deployment) (c : ClaimedDeployment) (db' : Database)
    → claim_oldest db now o ≡ (ok (some c), db')
    → (d : Deployment) × (o ≡ some d) × Claims now db d c db'
unfolding claim_oldest
oldest_inv now db none c db' h = absurd (ground arith)
oldest_inv now db (some d) c db' h = (d, refl, join_inv now db d _ c db' h)

-- What a claim hands out is a queued row of the table that no queued row is older than, with the
-- row's own project, commit and ref; the table differs only in that row, which is building now.
pub claim_sound :
    (first : Tie) (now : ℕ) (db : Database) (c : ClaimedDeployment) (db' : Database)
    → claim_next_queued first now db ≡ (ok (some c), db')
    → (d : Deployment) × Memᴰ d db.deployments
      × (d.status ≡ queued)
      × All (IsOldest d) db.deployments
      × Claims now db d c db'
unfolding claim_next_queued
claim_sound first now db c db' h =
    let (d, e, k) = oldest_inv now db _ c db' h in
    (
      d,
      oldest-mem first db.deployments d e,
      oldest-queued first db.deployments d e,
      oldest_queued-IsOldest first db.deployments d e,
      k,
    )

-- No row with the id is queued after the claim.
unqueued :
    (now : ℕ) (id : Text) (ds : List Deployment)
    → All (λ e. e.status ≡ queued → e.id ≢ id) (update (with_id id) (start_build now) ds)
unqueued now id [] = tt
unqueued now id (x ∷ ds) = elim (Bool-cases (x.id == id)) [
  | inl e ↦ rw e ((λ q. absurd (ground arith)), unqueued now id ds)
  | inr e ↦ rw e ((λ q same. ground (arith, text_key.same_iff x.id id)), unqueued now id ds)
]

-- Two claims in a row never hand out the same deployment.
pub claim_once :
    (first : Tie) (now now' : ℕ) (db db' db'' : Database) (c c' : ClaimedDeployment)
    → claim_next_queued first now db ≡ (ok (some c), db')
    → claim_next_queued first now' db' ≡ (ok (some c'), db'')
    → c'.deployment_id ≢ c.deployment_id
unfolding claim_next_queued
claim_once first now now' db db' db'' c c' h h' same =
    let (d, e, k) = oldest_inv now db _ c db' h in
    let (d', e', k') = oldest_inv now' db' _ c' db'' h' in
    let free : All (λ x. x.status ≡ queued → x.id ≢ d.id) db'.deployments =
      rw k.written (unqueued now d.id db.deployments) in
    All-oldest first _ db'.deployments d' free e' (oldest-queued first db'.deployments d' e')
      (sym k'.same_id ∙ same ∙ k.same_id)

-- Where the oldest queued row has its project and installation, the claim hands that row out.
pub claim_at :
    (first : Tie) (now : ℕ) (db : Database) (d : Deployment) (p : Project) (i : Installation)
    → oldest_queued first db.deployments ≡ some d
    → project_of db.projects d.project_id ≡ some p
    → installation_of db.installations p.installation_id ≡ some i
    → claim_next_queued first now db ≡ (ok (some (claimed_row d p i)), begin_build now d db)
unfolding claim_next_queued
claim_at first now db d p i ed ep ei =
    rw (ed, claim_oldest) (rw (ep, claim_join) (rw (ei, claim_scan) refl))

-- The project of a queued row and its installation are there.
abbrev pub IsKnown : Database → Deployment → Type 0
IsKnown db d =
    d.status ≡ queued
    → (p : Project) × (i : Installation) × (project_of db.projects d.project_id ≡ some p)
      × (installation_of db.installations p.installation_id ≡ some i)

All-mem {ℓ} :
    (P : Deployment → Type ℓ) (ds : List Deployment) (d : Deployment) → All P ds → Memᴰ d ds → P d
All-mem P [] d h m = elim m [ ]
All-mem P (x ∷ ds) d (hx, hs) (Memᴰ.head e) = subst P (sym e) hx
All-mem P (x ∷ ds) d (hx, hs) (Memᴰ.tail m) = All-mem P ds d hs m

-- As long as any row is queued, and the queued rows have their projects and installations, a claim
-- hands a row out.
pub claim_complete :
    (first : Tie) (now : ℕ) (db : Database) (x : Deployment)
    → Memᴰ x db.deployments
    → x.status ≡ queued
    → All (IsKnown db) db.deployments
    → (c : ClaimedDeployment) × (after : Database) × (claim_next_queued first now db
        ≡ (ok (some c), after))
claim_complete first now db x inside waits known =
    elim (Option-cases (oldest_queued first db.deployments)) [
      | inl e ↦ absurd (
          All-mem (λ d. d.status ≢ queued) db.deployments x (none-unqueued first db.deployments e)
            inside waits)
      | inr (d, e) ↦
          let (p, i, ep, ei) =
            All-oldest first (IsKnown db) db.deployments d known e
              (oldest-queued first db.deployments d e) in
          (claimed_row d p i, begin_build now d db, claim_at first now db d p i e ep ei)
    ]

-- Where the installation of the oldest queued row is gone, the claim fails and changes nothing,
-- whatever else is queued.
pub claim_wedged :
    (first : Tie) (now : ℕ) (db : Database) (d : Deployment) (p : Project)
    → oldest_queued first db.deployments ≡ some d
    → project_of db.projects d.project_id ≡ some p
    → installation_of db.installations p.installation_id ≡ none
    → claim_next_queued first now db ≡ (err null_login, db)
unfolding claim_next_queued
claim_wedged first now db d p ed ep ei =
    rw (ed, claim_oldest) (rw (ep, claim_join) (rw (ei, claim_scan) refl))
