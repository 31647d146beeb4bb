-- ===== src/Builder/Wait.antt =====
-- When `waitForJob` ends well: exactly if a poll finds the Job succeeded before one that ends the
-- wait otherwise.
use vercel_clone.Prelude.{
  ℕ, ◌≡◌, ◌<◌, ◌≤◌, inl, inr, Bool, true, false, Option, none, some, List, [], ◌∷◌, ltb, Bool-cases,
  Option-cases, ltb→lt, ltb→le,
}
use vercel_clone.Prelude.Text.{Text}
use vercel_clone.Prelude.Result.{ok, Result-cases}
use vercel_clone.Builder.Effects.{Poll, JobPhase}
use vercel_clone.Builder

-- The polls up to the deadline show the Job missing or at work, until one shows it succeeded.
pub data Succeeds (deadline : ℕ) : List Poll → Type 0 where
  done :
      (p : Poll) (ps : List Poll) (j : JobPhase)
      → p.phase ≡ ok (some j)
      → 0 < j.succeeded
      → Succeeds deadline (p ∷ ps)
  missing :
      (p : Poll) (ps : List Poll)
      → p.phase ≡ ok none
      → Succeeds deadline ps
      → Succeeds deadline (p ∷ ps)
  working :
      (p : Poll) (ps : List Poll) (j : JobPhase)
      → p.phase ≡ ok (some j)
      → Builder.has_failed j ≡ false
      → p.time ≤ deadline
      → Succeeds deadline ps
      → Succeeds deadline (p ∷ ps)

module _ (decimal : ℕ → Text) (deadline : ℕ) where
  -- The wait returns no error only if the polls succeed.
  pub wait_for_job-Succeeds :
      (seen : Bool) (since : Option ℕ) (ps : List Poll)
      → Builder.wait_for_job decimal deadline seen since ps ≡ ok tt
      → Succeeds deadline ps
  wait_for_job-Succeeds seen since [] h = cc
  wait_for_job-Succeeds seen since (p ∷ ps) h = elim (Result-cases p.phase) [
    | inl (e, x) ↦ absurd (let k = rw x at h in cc)
    | inr (o, x) ↦ elim (Option-cases o) [
      | inl y ↦ elim (Bool-cases seen) [
        | inl e ↦ absurd (let k = rw (x, y, e) at h in cc)
        | inr e ↦ elim (Bool-cases (Builder.nil_for_long p.time since)) [
          | inl l ↦ absurd (let k = rw (x, y, e, l) at h in cc)
          | inr l ↦
              missing p ps (rw y at x) (wait_for_job-Succeeds false _ ps (rw (x, y, e, l) at h))
        ]
      ]
      | inr (j, y) ↦ elim (Bool-cases (ltb 0 j.succeeded)) [
        | inl s ↦ done p ps j (rw y at x) (ltb→lt _ _ s)
        | inr s ↦ elim (Bool-cases (Builder.has_failed j)) [
          | inl f ↦ absurd (let k = rw (x, y, s, f) at h in cc)
          | inr f ↦ elim (Bool-cases (ltb deadline p.time)) [
            | inl l ↦ absurd (let k = rw (x, y, s, f, l) at h in cc)
            | inr l ↦
                working p ps j (rw y at x) f (ltb→le _ _ l)
                  (wait_for_job-Succeeds true none ps (rw (x, y, s, f, l) at h))
          ]
        ]
      ]
    ]
  ]
