-- ===== src/Domains/Handlers/Verified.antt =====
-- A hostname is verified by its token in DNS only.
use mathlib.Core.Path.{subst}
use mathlib.Core.List.{Memᴰ}
use vercel_clone.Prelude.{
  ℕ, suc, ◌≤◌, ◌≡◌, ◌⊎◌, refl, sym, ◌∙◌, arith, inl, inr, Bool, true, false, not, ◌&&◌, Option,
  none, some, List, ◌==◌, [], ◌∷◌, Bool-cases, eq_refl, eq_of_==, is_some, All,
}
use vercel_clone.Prelude.Text.{Text, text_key}
use vercel_clone.Prelude.Table.{update, find, find_sound, count, count-find, count_tail}
use vercel_clone.Store.{Project, User, ProjectDomain}
use vercel_clone.Store.Accounts.{authorise_project}
use vercel_clone.Http.{with_project-keeps}
use vercel_clone.Domains.Handlers.Registry.{verify_row_db, normalise_hostname_idem}
use vercel_clone.Domains
use vercel_clone.Domains.Handlers

-- `hostname` is UNIQUE.
abbrev pub IsUnique : List ProjectDomain → Type 0
IsUnique ds = (host : Text) → count (Domains.has_hostname host) ds ≤ 1

-- A row that was there before, or the verified form of an unverified one whose token DNS has.
abbrev pub IsOldOrProven : Handlers.Resolver → ℕ → List ProjectDomain → ProjectDomain → Type 0
IsOldOrProven lookup now before d =
    Memᴰ d before
    ⊎ ((old : ProjectDomain) × Memᴰ old before
        × (d ≡ Domains.set_verified now old)
        × (Handlers.check_verification_txt lookup old.hostname old.verification_token ≡ true))

module _ {A : Type 0} where
  -- A change of the rows that pass a test, with the old rows at hand.
  All-update_rows :
      (P : A → Type 0) (test : A → Bool) (change : A → A) (before xs : List A)
      → ((x : A) → Memᴰ x xs → Memᴰ x before)
      → ((x : A) → Memᴰ x before → test x ≡ true → P (change x))
      → ((x : A) → Memᴰ x before → P x)
      → All P (update test change xs)
  All-update_rows P test change before [] inside made kept = tt
  All-update_rows P test change before (x ∷ xs) inside made kept =
      let rest =
        All-update_rows P test change before xs (λ y m. inside y (Memᴰ.tail m)) made kept in
      elim (Bool-cases (test x)) [
        | inl e ↦ rw e (made x (inside x (Memᴰ.head refl)) e, rest)
        | inr e ↦ rw e (kept x (inside x (Memᴰ.head refl)), rest)
      ]

  count-member :
      (test : A → Bool) (xs : List A) (x : A) → Memᴰ x xs → test x ≡ true → 1 ≤ count test xs
  count-member test [] x m h = elim m [ ]
  count-member test (y ∷ xs) x (Memᴰ.head e) h =
      let t : test y ≡ true = rw (sym e) h in rw t (omega arith)
  count-member test (y ∷ xs) x (Memᴰ.tail m) h =
      omega (arith, count-member test xs x m h, count_tail test y xs)

  -- Two rows that pass a test which one row passes at most.
  only_one :
      (pick test : A → Bool) (xs : List A) (x d : A)
      → count test xs ≤ 1
      → find pick xs ≡ some d
      → test d ≡ true
      → Memᴰ x xs
      → test x ≡ true
      → x ≡ d
  only_one pick test [] x d one found hd m hx = elim m [ ]
  only_one pick test (y ∷ xs) x d one found hd (Memᴰ.head e) hx = elim (Bool-cases (pick y)) [
    | inl p ↦ e ∙ ground (arith, rw p at found)
    | inr p ↦
        let t : test y ≡ true = rw (sym e) hx in
        let more = count-find pick test xs d (rw p at found) hd in
        let one' : suc (count test xs) ≤ 1 = rw t at one in absurd (omega (arith, more, one'))
  ]
  only_one pick test (y ∷ xs) x d one found hd (Memᴰ.tail m) hx = elim (Bool-cases (pick y)) [
    | inl p ↦
        let same : y ≡ d = ground (arith, rw p at found) in
        let t : test y ≡ true = rw same hd in
        let one' : suc (count test xs) ≤ 1 = rw t at one in
        absurd (omega (arith, count-member test xs x m hx, one'))
    | inr p ↦
        only_one pick test xs x d (omega (arith, one, count_tail test y xs)) (rw p at found) hd m hx
  ]

old_rows :
    (lookup : Handlers.Resolver) (now : ℕ) (before xs : List ProjectDomain)
    → ((d : ProjectDomain) → Memᴰ d xs → Memᴰ d before)
    → All (IsOldOrProven lookup now before) xs
old_rows lookup now before [] inside = tt
old_rows lookup now before (d ∷ xs) inside =
    (inl (inside d (Memᴰ.head refl)), old_rows lookup now before xs (λ e m. inside e (Memᴰ.tail m)))

and_left : (a b : Bool) → (a && b) ≡ true → a ≡ true
and_left true b h = refl
and_left false b h = h

and_right : (a b : Bool) → (a && b) ≡ true → b ≡ true
and_right true b h = h
and_right false b h = absurd (ground (arith, h))

-- The hostname of a row that the statement selects.
domain_host :
    (project host : Text) (d : ProjectDomain)
    → Domains.is_domain project host d ≡ true
    → d.hostname ≡ host
domain_host project host d h = eq_of_== (and_right (d.project_id == project) (d.hostname == host) h)

unverified_domain :
    (project host : Text) (d : ProjectDomain)
    → Domains.is_unverified project host d ≡ true
    → Domains.is_domain project host d ≡ true
unverified_domain project host d h =
    and_left (Domains.is_domain project host d) (not (is_some d.verified_at)) h

module _ (lookup : Handlers.Resolver) (reachable : Bool) (host : Text) (now : ℕ) (s : Handlers.Site)
    (p : Project) (normal : Domains.normalise_hostname host ≡ host)
    (once : IsUnique s.db.project_domains) where
  -- The verified rows after the statement, where the token of the selected row is in DNS.
  marked-IsOldOrProven :
      (d : ProjectDomain)
      → Domains.get_project_domain p.id host s.db ≡ some d
      → Handlers.check_verification_txt lookup host d.verification_token ≡ true
      → All
          (IsOldOrProven lookup now s.db.project_domains)
          (Domains.mark_domain_verified p.id host now s.db).1.project_domains
  unfolding Domains.get_project_domain Domains.mark_domain_verified
  marked-IsOldOrProven d found proven =
      All-update_rows (IsOldOrProven lookup now s.db.project_domains)
        (Domains.is_unverified p.id (Domains.normalise_hostname host)) (Domains.set_verified now)
        s.db.project_domains s.db.project_domains (λ x m. m)
        (λ x m t. inr (x, m, refl, token x m t)) (λ x m. inl m)
    where
      token :
          (x : ProjectDomain)
          → Memᴰ x s.db.project_domains
          → Domains.is_unverified p.id (Domains.normalise_hostname host) x ≡ true
          → Handlers.check_verification_txt lookup x.hostname x.verification_token ≡ true
      token x m t =
          let nh = Domains.normalise_hostname host in
          let dh =
            domain_host p.id nh d
              (find_sound (Domains.is_domain p.id nh) s.db.project_domains d found) in
          let xh = domain_host p.id nh x (unverified_domain p.id nh x t) in
          let same : x ≡ d =
            only_one (Domains.is_domain p.id nh) (Domains.has_hostname nh) s.db.project_domains x d
              (once nh) found (rw dh (eq_refl nh)) m (rw xh (eq_refl nh)) in
          rw (same, dh, normal) proven

  verify_row-IsOldOrProven :
      (o : Option ProjectDomain)
      → Domains.get_project_domain p.id host s.db ≡ o
      → All
          (IsOldOrProven lookup now s.db.project_domains)
          (Handlers.verify_row lookup reachable host now s p o).1.db.project_domains
  unfolding Handlers.verify_row
  verify_row-IsOldOrProven none found = old_rows lookup now s.db.project_domains _ (λ d m. m)
  verify_row-IsOldOrProven (some d) found =
      subst (λ db. All (IsOldOrProven lookup now s.db.project_domains) db.project_domains)
        (sym (verify_row_db lookup reachable host now s p d))
        (elim (Bool-cases (is_some d.verified_at)) [
          | inl e ↦ rw e (old_rows lookup now s.db.project_domains s.db.project_domains (λ x m. m))
          | inr e ↦
              elim (Bool-cases (Handlers.check_verification_txt lookup host d.verification_token)) [
                | inr z ↦
                    rw (e, z)
                      (old_rows lookup now s.db.project_domains s.db.project_domains (λ x m. m))
                | inl z ↦ rw (e, z) (marked-IsOldOrProven d found z)
              ]
        ])

-- Where no hostname is registered twice: after a verification, every row was there before, or it is
-- the verified form of one that was there and whose token DNS has under its hostname, whoever asks
-- and whatever the cluster answers.
pub handle_verify_project_domain-IsOldOrProven :
    (lookup : Handlers.Resolver) (reachable : Bool) (id hostname : Text) (u : Option User) (now : ℕ)
    (s : Handlers.Site)
    → IsUnique s.db.project_domains
    → All
        (IsOldOrProven lookup now s.db.project_domains)
        (Handlers.handle_verify_project_domain lookup reachable id u hostname now
          s).1.db.project_domains
unfolding Handlers.handle_verify_project_domain
handle_verify_project_domain-IsOldOrProven lookup reachable id hostname u now s h =
    with_project-keeps
      (λ t. All (IsOldOrProven lookup now s.db.project_domains) t.db.project_domains)
      (authorise_project id u s.db) s
      (λ p.
        Handlers.verify_row lookup reachable (Domains.normalise_hostname hostname) now s p
          (Domains.get_project_domain p.id (Domains.normalise_hostname hostname) s.db))
      (old_rows lookup now s.db.project_domains s.db.project_domains (λ d m. m))
      (λ p.
        verify_row-IsOldOrProven lookup reachable (Domains.normalise_hostname hostname) now s p
          (normalise_hostname_idem hostname) h
          (Domains.get_project_domain p.id (Domains.normalise_hostname hostname) s.db) refl)
