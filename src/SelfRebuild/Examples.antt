-- ===== src/SelfRebuild/Examples.antt =====
-- A tick of the self-rebuilder that finds a new commit and rolls it out.
use vercel_clone.Prelude.{◌≡◌, refl, none, some, [], ◌∷◌}
use vercel_clone.Prelude.Text.{Text, codes}
use vercel_clone.Prelude.Result.{ok}
use vercel_clone.SelfRebuild.{
  build_context, job_deleted, job_created, deployment_restarted, state_saved, Answers,
  github_latest_sha, read_rebuilder_state, write_rebuilder_state, wait_for_job_gone, job_outcome,
  poll_build, trigger_build_job, rollout_restart, rebuilder_tick,
}
use vercel_clone.SelfRebuild.Safe.{Ticks, rebuilder_tick-Ticks}

abbrev new_sha : Text
new_sha = codes "0123456789abcdef0123456789abcdef01234567"

abbrev answers : Answers
answers = record {
  latest = ok (200, some new_sha);
  state = ok (200, some (codes "89abcdef0123456789abcdef0123456789abcdef"));
  deleted = ok (202, none);
  gone = ok 200 ∷ ok 404 ∷ [];
  created = ok (201, none);
  polls =
      ok (500, none)
      ∷ ok (200, some [])
      ∷ ok (200, some ((codes "Complete", codes "True") ∷ []))
      ∷ [];
  restarted = ok (200, none);
  saved = none;
}

rollout : rebuilder_tick answers ≡ (
  ok tt,
  job_deleted ∷ job_created build_context ∷ deployment_restarted ∷ state_saved new_sha ∷ [],
)
unfolding rebuilder_tick github_latest_sha read_rebuilder_state trigger_build_job wait_for_job_gone
    poll_build job_outcome rollout_restart write_rebuilder_state
rollout = refl

rebuilder_tick-Ticks_example : Ticks answers (rebuilder_tick answers)
rebuilder_tick-Ticks_example = rebuilder_tick-Ticks answers
