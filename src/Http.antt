-- ===== src/Http.antt =====
-- What the handlers of the API answer, and the project that they are let in to.
use vercel_clone.Prelude.{ℕ, ◌≡◌, refl}
use vercel_clone.Store.{Project}
use vercel_clone.Store.Accounts.{Reply, allowed, bad_request, unauthorized, not_found}

-- A body with its success status, or the status of an error.
pub data Answer (A : Type 0) : Type 0 where
  done : A → Answer A
  refused : ℕ → Answer A

-- `if proj := s.authoriseProject(w, r); proj == nil { return }`.
abbrev pub with_project :
    {A S : Type 0} → Reply Project → S → (Project → Answer A × S) → Answer A × S
with_project (allowed p) s handle = handle p
with_project bad_request s handle = (refused 400, s)
with_project unauthorized s handle = (refused 401, s)
with_project not_found s handle = (refused 404, s)

module _ {S : Type 0} (IsGood : S → Type 0) where
  -- What a handler leaves: a state that is good, or after a refusal the one that it found.
  abbrev pub Leaves : {A : Type 0} → S → Answer A × S → Type 0
  Leaves s (done _, s') = IsGood s'
  Leaves s (refused _, s') = s' ≡ s

  pub with_project-Leaves :
      {A : Type 0} (r : Reply Project) (s : S) (handle : Project → Answer A × S)
      → ((p : Project) → Leaves s (handle p))
      → Leaves s (with_project r s handle)
  with_project-Leaves (allowed p) s handle h = h p
  with_project-Leaves bad_request s handle h = refl
  with_project-Leaves unauthorized s handle h = refl
  with_project-Leaves not_found s handle h = refl

  -- A handler that keeps the state good on every path.
  pub with_project-keeps :
      {A : Type 0} (r : Reply Project) (s : S) (handle : Project → Answer A × S)
      → IsGood s
      → ((p : Project) → IsGood (handle p).1)
      → IsGood (with_project r s handle).1
  with_project-keeps (allowed p) s handle g h = h p
  with_project-keeps bad_request s handle g h = g
  with_project-keeps unauthorized s handle g h = g
  with_project-keeps not_found s handle g h = g
