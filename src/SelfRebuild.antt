-- ===== src/SelfRebuild.antt =====
-- The self-rebuilder (control-plane/self_rebuild.go): one tick of its poller.
--
-- What GitHub and the Kubernetes API answer in the tick is a record Answers; the steps of the tick
-- that may change the cluster are listed as they are sent, in order, whatever becomes of them. The loops run over the polls that are made before
-- their deadline or the end of their context, so that they need no fuel.
pub mod Safe
mod Examples
use vercel_clone.Prelude.{
  ℕ, Bool, true, false, not, ◌&&◌, ◌||◌, Option, none, some, List, [], ◌∷◌, ◌++◌, nat_eq, ltb, leb,
  length, ◌==◌, if◌then◌else◌,
}
use vercel_clone.Prelude.Text.{Text, codes, text_key}
use vercel_clone.Prelude.Result.{Result, ok, err}

-- A response: its status, and what its body decodes to, if it does.
abbrev pub Response : Type 0 → Type 0
Response A = Result (ℕ × Option A)

-- A condition of the Job: type and status.
abbrev pub Conditions : Type 0
Conditions = List (Text × Text)

-- The calls that may change the cluster. A Job is created with the context that it builds.
pub data Step : Type 0 where
  job_deleted deployment_restarted : Step
  job_created : Text → Step
  state_saved : Text → Step

pub record Answers : Type 0 where
  -- The branch's commit.
  pub latest : Response Text
  -- `last_sha` of the ConfigMap; empty if the map has no such key.
  pub state : Response Text
  pub deleted : Response (Unit {0})
  -- The polls of `waitForJobGone`.
  pub gone : List (Result ℕ)
  pub created : Response (Unit {0})
  pub polls : List (Response Conditions)
  pub restarted : Response (Unit {0})
  -- The error of `apply`, if it fails.
  pub saved : Option Text

-- The `--context` of the Job's builder: the head of the branch when it clones, whatever commit that is.
abbrev pub build_context : Text
build_context = codes "git://github.com/jamilshaikh07/vercel-clone.git#refs/heads/main"

checked_sha : Option Text → Result Text
checked_sha none = err (codes "decode")
checked_sha (some sha) =
    if not (nat_eq (length sha) 40) then err (codes "unexpected sha format") else ok sha

latest_of : Response Text → Result Text
latest_of (err e) = err e
latest_of (ok (status, body)) =
    if not (nat_eq status 200) then err (codes "HTTP") else checked_sha body

unfoldable pub github_latest_sha : Answers → Result Text
unfolding latest_of checked_sha
github_latest_sha a = latest_of a.latest

decoded_state : Option Text → Result Text
decoded_state none = err (codes "unmarshal")
decoded_state (some sha) = ok sha

-- No ConfigMap is an empty state.
state_of : Response Text → Result Text
state_of (err e) = err e
state_of (ok (status, body)) =
    if nat_eq status 404
    then ok []
    else if not (nat_eq status 200)
    then err (codes "HTTP")
    else decoded_state body

unfoldable pub read_rebuilder_state : Answers → Result Text
unfolding state_of decoded_state
read_rebuilder_state a = state_of a.state

saved_with : Text → Option Text → Result (Unit {0}) × List Step
saved_with sha none = (ok tt, state_saved sha ∷ [])
saved_with sha (some e) = (err e, state_saved sha ∷ [])

unfoldable pub write_rebuilder_state : Answers → Text → Result (Unit {0}) × List Step
unfolding saved_with
write_rebuilder_state a sha = saved_with sha a.saved

unfoldable pub wait_for_job_gone : List (Result ℕ) → Result (Unit {0})
wait_for_job_gone [] = err (codes "old job still present after 30s")
wait_for_job_gone (err e ∷ polls) = err e
wait_for_job_gone (ok status ∷ polls) =
    let rest = wait_for_job_gone polls in if nat_eq status 404 then ok tt else rest

-- Success and done, by the first condition that is true and says so.
abbrev pub outcome_of : Conditions → Bool × Bool
outcome_of [] = (false, false)
outcome_of ((type, status) ∷ cs) =
    if not (status == codes "True")
    then outcome_of cs
    else if type == codes "Complete"
    then (true, true)
    else if type == codes "Failed"
    then (false, true)
    else outcome_of cs

decoded_outcome : Option Conditions → Result (Bool × Bool)
decoded_outcome none = err (codes "unmarshal")
decoded_outcome (some cs) = ok (outcome_of cs)

unfoldable pub job_outcome : Response Conditions → Result (Bool × Bool)
unfolding decoded_outcome
job_outcome (err e) = err e
job_outcome (ok (status, body)) =
    if not (nat_eq status 200) then err (codes "HTTP") else decoded_outcome body

-- What a poll decides: nothing yet, or the result of the build.
decided : Result (Bool × Bool) → Option (Result (Unit {0}))
decided (err _) = none
decided (ok (_, false)) = none
decided (ok (false, true)) = some (err (codes "build job failed"))
decided (ok (true, true)) = some (ok tt)

or_next : Result (Unit {0}) → Option (Result (Unit {0})) → Result (Unit {0})
or_next rest none = rest
or_next rest (some r) = r

unfoldable pub poll_build : List (Response Conditions) → Result (Unit {0})
unfolding decided or_next
poll_build [] = err (codes "build timed out")
poll_build (p ∷ ps) = or_next (poll_build ps) (decided (job_outcome p))

delete_status : ℕ → Bool
delete_status status = nat_eq status 200 || nat_eq status 202 || nat_eq status 404

job_built : Answers → Result (Unit {0}) × List Step
job_built a = (poll_build a.polls, job_deleted ∷ job_created build_context ∷ [])

create_build : Answers → Response (Unit {0}) → Result (Unit {0}) × List Step
create_build a (err e) = (err e, job_deleted ∷ job_created build_context ∷ [])
create_build a (ok (status, _)) =
    if ltb status 200 || leb 300 status
    then (err (codes "create job HTTP"), job_deleted ∷ job_created build_context ∷ [])
    else job_built a

once_gone : Answers → Result (Unit {0}) → Result (Unit {0}) × List Step
once_gone a (err e) = (err e, job_deleted ∷ [])
once_gone a (ok _) = create_build a a.created

start_build : Answers → Response (Unit {0}) → Result (Unit {0}) × List Step
start_build a (err e) = (err e, job_deleted ∷ [])
start_build a (ok (status, _)) =
    if not (delete_status status)
    then (err (codes "delete old job HTTP"), job_deleted ∷ [])
    else once_gone a (wait_for_job_gone a.gone)

unfoldable pub trigger_build_job : Answers → Result (Unit {0}) × List Step
unfolding start_build delete_status once_gone create_build job_built
trigger_build_job a = start_build a a.deleted

restarted_with : Response (Unit {0}) → Result (Unit {0}) × List Step
restarted_with (err e) = (err e, deployment_restarted ∷ [])
restarted_with (ok (status, _)) =
    if not (nat_eq status 200)
    then (err (codes "patch deployment HTTP"), deployment_restarted ∷ [])
    else (ok tt, deployment_restarted ∷ [])

unfoldable pub rollout_restart : Answers → Result (Unit {0}) × List Step
unfolding restarted_with
rollout_restart a = restarted_with a.restarted

-- A step and those behind it, if it did not fail.
abbrev pub ◌>>◌ :
    Result (Unit {0}) × List Step → Result (Unit {0}) × List Step → Result (Unit {0}) × List Step
(err e, steps) >> next = (err e, steps)
(ok _, steps) >> (r, more) = (r, steps ++ more)

infixl 4 ◌>>◌
-- The line for the log slices eight bytes of the last commit; a shorter one panics.
tick_with : Answers → Text → Text → Result (Unit {0}) × List Step
tick_with a latest last_built =
    if last_built == []
    then write_rebuilder_state a latest
    else if last_built == latest
    then (ok tt, [])
    else if ltb (length last_built) 8
    then (err (codes "slice bounds out of range"), [])
    else (trigger_build_job a >> rollout_restart a >> write_rebuilder_state a latest)

tick_state : Answers → Text → Result Text → Result (Unit {0}) × List Step
tick_state a latest (err e) = (err e, [])
tick_state a latest (ok last_built) = tick_with a latest last_built

tick_latest : Answers → Result Text → Result (Unit {0}) × List Step
tick_latest a (err e) = (err e, [])
tick_latest a (ok latest) = tick_state a latest (read_rebuilder_state a)

unfoldable pub rebuilder_tick : Answers → Result (Unit {0}) × List Step
unfolding tick_latest tick_state tick_with
rebuilder_tick a = tick_latest a (github_latest_sha a)
