-- ===== src/Builder/Polling.antt =====
-- `waitForJob` (control-plane/builder.go).
use vercel_clone.Prelude.{
  ℕ, ◌+◌, Bool, true, false, not, ◌||◌, Option, none, some, List, [], ◌∷◌, ◌++◌, ltb, ◌==◌,
  if◌then◌else◌,
}
use vercel_clone.Prelude.Text.{Text, codes, text_key}
use vercel_clone.Prelude.Result.{Result, ok, err}
use vercel_clone.Builder.Effects.{JobPhase, Poll}

abbrev pub has_failed : JobPhase → Bool
has_failed p = ltb 0 p.failed || not (p.failure_msg == [])

-- The reason that `waitForJob` gives.
abbrev pub failure_reason : (ℕ → Text) → JobPhase → Text
failure_reason decimal p =
    codes "build failed: "
    ++ (if p.failure_msg == []
        then codes "kaniko job failed (failed=" ++ decimal p.failed ++ codes ")"
        else p.failure_msg)

abbrev pub nil_for_long : ℕ → Option ℕ → Bool
nil_for_long now none = false
nil_for_long now (some t) = ltb (t + 120) now

abbrev pub first_nil : ℕ → Option ℕ → Option ℕ
first_nil now none = some now
first_nil now (some t) = some t

-- `waitForJob`, over the polls that the context leaves time for. The state is `seenJob` and
-- `nilSince`.
abbrev pub wait_for_job : (ℕ → Text) → ℕ → Bool → Option ℕ → List Poll → Result (Unit {0})
wait_for_job decimal deadline seen since [] = err (codes "context deadline exceeded")
wait_for_job decimal deadline seen since (p ∷ ps) = elim p.phase [
  | err e ↦ err (codes "get job phase: " ++ e)
  | ok none ↦
      let rest = wait_for_job decimal deadline seen (first_nil p.time since) ps in
      if seen
      then err (codes "build job deleted unexpectedly")
      else if nil_for_long p.time since
      then err (codes "build job not found after create")
      else rest
  | ok (some j) ↦
      let rest = wait_for_job decimal deadline true none ps in
      if ltb 0 j.succeeded
      then ok tt
      else if has_failed j
      then err (failure_reason decimal j)
      else if ltb deadline p.time
      then err (codes "build timed out after 15m0s")
      else rest
]
