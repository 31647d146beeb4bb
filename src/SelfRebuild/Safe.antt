-- ===== src/SelfRebuild/Safe.antt =====
-- What a tick of the rebuilder sends, and in which order.
use mathlib.Core.Path.{subst}
use vercel_clone.Prelude.{
  ◌≡◌, refl, inl, inr, Bool, true, false, ◌||◌, Option, none, some, List, [], ◌∷◌, ◌==◌, nat_eq,
  ltb, leb, length, ap, ◌∙◌, sym, ◌⊎◌, ◌≢◌, Bool-cases, eq_of_==, eq_refl, nat_eq_iff,
}
use vercel_clone.Prelude.Text.{Text, codes, text_key}
use vercel_clone.Prelude.Result.{Result, ok, err, Result-cases}
use vercel_clone.SelfRebuild
use vercel_clone.SelfRebuild.{
  Response, Step, job_deleted, job_created, deployment_restarted, state_saved, Answers,
  github_latest_sha, read_rebuilder_state, write_rebuilder_state, build_context, Conditions,
  outcome_of, wait_for_job_gone, job_outcome, poll_build, trigger_build_job, rollout_restart, ◌>>◌,
  rebuilder_tick,
}

-- The Job has come to an end in one way before it came to another: the first true condition of these
-- two types is this one.
pub data Ends (type : Text) : Conditions → Type 0 where
  here : (cs : Conditions) → Ends type ((type, codes "True") ∷ cs)
  pending :
      (other status : Text) (cs : Conditions)
      → status ≢ codes "True"
      → Ends type cs
      → Ends type ((other, status) ∷ cs)
  else_true :
      (other status : Text) (cs : Conditions)
      → other ≢ codes "Complete"
      → other ≢ codes "Failed"
      → Ends type cs
      → Ends type ((other, status) ∷ cs)

-- Some poll showed the Job complete, and none before it showed it failed.
pub data Succeeds : List (Response Conditions) → Type 0 where
  complete :
      (cs : Conditions) (ps : List (Response Conditions))
      → Ends (codes "Complete") cs
      → Succeeds (ok (200, some cs) ∷ ps)
  further :
      (p : Response Conditions) (ps : List (Response Conditions))
      → ((cs : Conditions) → p ≡ ok (200, some cs) → ¬ Ends (codes "Failed") cs)
      → Succeeds ps
      → Succeeds (p ∷ ps)

-- Neither a restart nor a new state.
abbrev pub stays : List Step → Bool
stays [] = true
stays (job_deleted ∷ steps) = stays steps
stays (job_created context ∷ steps) = stays steps
stays (deployment_restarted ∷ steps) = false
stays (state_saved sha ∷ steps) = false

-- What a tick may do.
pub data Ticks (a : Answers) : Result (Unit {0}) × List Step → Type 0 where
  failed : (e : Text) (steps : List Step) → stays steps ≡ true → Ticks a (err e, steps)
  up_to_date :
      (sha : Text)
      → github_latest_sha a ≡ ok sha
      → read_rebuilder_state a ≡ ok sha
      → Ticks a (ok tt, [])
  bootstrapped :
      (sha : Text) (r : Result (Unit {0}))
      → github_latest_sha a ≡ ok sha
      → read_rebuilder_state a ≡ ok []
      → Ticks a (r, state_saved sha ∷ [])
  unconfirmed :
      (e sha last : Text)
      → github_latest_sha a ≡ ok sha
      → read_rebuilder_state a ≡ ok last
      → (last == sha) ≡ false
      → Succeeds a.polls
      → Ticks a (err e, job_deleted ∷ job_created build_context ∷ deployment_restarted ∷ [])
  rebuilt :
      (sha last : Text) (r : Result (Unit {0}))
      → github_latest_sha a ≡ ok sha
      → read_rebuilder_state a ≡ ok last
      → (last == sha) ≡ false
      → Succeeds a.polls
      → (body : Option (Unit {0})) × (a.restarted ≡ ok (200, body))
      → Ticks a
          (r, job_deleted ∷ job_created build_context ∷ deployment_restarted ∷ state_saved sha ∷ [])

-- What a build may do.
data Builds (a : Answers) : Result (Unit {0}) × List Step → Type 0 where
  stopped : (e : Text) (steps : List Step) → stays steps ≡ true → Builds a (err e, steps)
  succeeded : Succeeds a.polls → Builds a (ok tt, job_deleted ∷ job_created build_context ∷ [])

differs : (s t : Text) → s ≢ t → (s == t) ≡ false
differs s t ne = elim (Bool-cases (s == t)) [ inl e ↦ absurd (ne (eq_of_== e)) | inr e ↦ e ]

apart : (s t : Text) → (s == t) ≡ false → s ≢ t
apart s t h same =
    let h' : (t == t) ≡ false = rw same at h in
    absurd (let h2 : true ≡ false = sym (eq_refl t) ∙ h' in cc)

no_success : {d d' : Bool} → ◌≡◌ {A = Bool × Bool} (false, d) (true, d') → ⊥
no_success h = let h' : false ≡ true = ap (λ r. r.0) h in cc

no_failure : {b : Bool × Bool} → ok b ≡ ok (false, true) → b ≡ (false, true)
no_failure h = cc

outcome-Complete : (cs : Conditions) → outcome_of cs ≡ (true, true) → Ends (codes "Complete") cs
outcome-Complete [] h = absurd (let h' : false ≡ true = ap (λ r. r.0) h in cc)
outcome-Complete ((type, status) ∷ cs) h = elim (Bool-cases (status == codes "True")) [
  | inr e ↦ pending type status cs (apart status _ e) (outcome-Complete cs (rw e at h))
  | inl e ↦ elim (Bool-cases (type == codes "Complete")) [
    | inl c ↦
        subst (λ t. Ends (codes "Complete") ((t, status) ∷ cs)) (sym (eq_of_== c))
          (subst (λ u. Ends (codes "Complete") ((codes "Complete", u) ∷ cs)) (sym (eq_of_== e))
            (here cs))
    | inr c ↦ elim (Bool-cases (type == codes "Failed")) [
      | inl f ↦ absurd (no_success (rw (e, c, f) at h))
      | inr f ↦
          else_true type status cs (apart type _ c) (apart type _ f)
            (outcome-Complete cs (rw (e, c, f) at h))
    ]
  ]
]

outcome-Failed : (cs : Conditions) → Ends (codes "Failed") cs → outcome_of cs ≡ (false, true)
outcome-Failed _ (here cs) = refl
outcome-Failed _ (pending other status cs ne rest) =
    rw (differs status _ ne) (outcome-Failed cs rest)
outcome-Failed _ (else_true other status cs c f rest) = elim (Bool-cases (status == codes "True")) [
  | inl e ↦ rw (e, differs other _ c, differs other _ f) (outcome-Failed cs rest)
  | inr e ↦ rw e (outcome-Failed cs rest)
]

undone : ◌≡◌ {A = Bool × Bool} (false, false) (false, true) → ⊥
undone h = let h' : false ≡ true = ap (λ r. r.1) h in cc

decided_inv :
    (r : Result (Bool × Bool)) (rest : Result (Unit {0}))
    → SelfRebuild.or_next rest (SelfRebuild.decided r) ≡ ok tt
    → (r ≡ ok (true, true)) ⊎ ((rest ≡ ok tt) × (r ≢ ok (false, true)))
unfolding SelfRebuild.or_next SelfRebuild.decided
decided_inv (err e) rest h = inr (h, λ k. cc)
decided_inv (ok (true, false)) rest h = inr (h, λ k. no_success (sym (no_failure k)))
decided_inv (ok (false, false)) rest h = inr (h, λ k. undone (no_failure k))
decided_inv (ok (false, true)) rest h = absurd cc
decided_inv (ok (true, true)) rest h = inl refl

outcome_inv :
    (p : Response Conditions)
    → job_outcome p ≡ ok (true, true)
    → (cs : Conditions) × (p ≡ ok (200, some cs)) × (outcome_of cs ≡ (true, true))
unfolding job_outcome SelfRebuild.decoded_outcome
outcome_inv (err e) h = absurd cc
outcome_inv (ok (status, none)) h = elim (Bool-cases (nat_eq status 200)) [
  | inl e ↦ absurd (let h' : err (codes "unmarshal") ≡ ok (true, true) = rw e at h in cc)
  | inr e ↦ absurd (let h' : err (codes "HTTP") ≡ ok (true, true) = rw e at h in cc)
]
outcome_inv (ok (status, some cs)) h = elim (Bool-cases (nat_eq status 200)) [
  | inl e ↦
      let h' : ok (outcome_of cs) ≡ ok (true, true) = rw e at h in
      (cs, ap (λ n. ok (n, some cs)) ((nat_eq_iff status 200).0 e), cc)
  | inr e ↦ absurd (let h' : err (codes "HTTP") ≡ ok (true, true) = rw e at h in cc)
]

outcome_at : (cs : Conditions) → job_outcome (ok (200, some cs)) ≡ ok (outcome_of cs)
unfolding job_outcome SelfRebuild.decoded_outcome
outcome_at cs = refl

poll-Succeeds : (ps : List (Response Conditions)) → poll_build ps ≡ ok tt → Succeeds ps
unfolding poll_build
poll-Succeeds [] h = absurd cc
poll-Succeeds (p ∷ ps) h = elim (decided_inv (job_outcome p) (poll_build ps) h) [
  | inl done ↦
      let (cs, same, complete_at) = outcome_inv p done in
      subst (λ q. Succeeds (q ∷ ps)) (sym same) (complete cs ps (outcome-Complete cs complete_at))
  | inr (rest, open_yet) ↦
      further p ps
        (λ cs same ends.
          open_yet (ap job_outcome same ∙ outcome_at cs ∙ ap ok (outcome-Failed cs ends)))
        (poll-Succeeds ps rest)
]

job_built-Builds : (a : Answers) → Builds a (SelfRebuild.job_built a)
unfolding SelfRebuild.job_built
job_built-Builds a = elim (Result-cases (poll_build a.polls)) [
  | inl (e, h) ↦ rw h (stopped e (job_deleted ∷ job_created build_context ∷ []) refl)
  | inr (tt, h) ↦ rw h (succeeded (poll-Succeeds a.polls h))
]

create_build-Builds :
    (a : Answers) (r : Response (Unit {0})) → Builds a (SelfRebuild.create_build a r)
unfolding SelfRebuild.create_build
create_build-Builds a (err e) = stopped e (job_deleted ∷ job_created build_context ∷ []) refl
create_build-Builds a (ok (status, _)) = elim (Bool-cases (ltb status 200 || leb 300 status)) [
  | inl h ↦
      rw h (stopped (codes "create job HTTP") (job_deleted ∷ job_created build_context ∷ []) refl)
  | inr h ↦ rw h (job_built-Builds a)
]

once_gone-Builds : (a : Answers) (r : Result (Unit {0})) → Builds a (SelfRebuild.once_gone a r)
unfolding SelfRebuild.once_gone
once_gone-Builds a (err e) = stopped e (job_deleted ∷ []) refl
once_gone-Builds a (ok _) = create_build-Builds a a.created

start_build-Builds :
    (a : Answers) (r : Response (Unit {0})) → Builds a (SelfRebuild.start_build a r)
unfolding SelfRebuild.start_build
start_build-Builds a (err e) = stopped e (job_deleted ∷ []) refl
start_build-Builds a (ok (status, _)) = elim (Bool-cases (SelfRebuild.delete_status status)) [
  | inl h ↦ rw h (once_gone-Builds a (wait_for_job_gone a.gone))
  | inr h ↦ rw h (stopped (codes "delete old job HTTP") (job_deleted ∷ []) refl)
]

saved-Ticks :
    (a : Answers) (sha last : Text) (saved : Option Text) (body : Option (Unit {0}))
    → github_latest_sha a ≡ ok sha
    → read_rebuilder_state a ≡ ok last
    → (last == sha) ≡ false
    → Succeeds a.polls
    → a.restarted ≡ ok (200, body)
    → Ticks a (
        (ok tt, job_deleted ∷ job_created build_context ∷ deployment_restarted ∷ [])
        >> SelfRebuild.saved_with sha saved)
unfolding SelfRebuild.saved_with
saved-Ticks a sha last none body g r d b k = rebuilt sha last (ok tt) g r d b (body, k)
saved-Ticks a sha last (some e) body g r d b k = rebuilt sha last (err e) g r d b (body, k)

restarted-Ticks :
    (a : Answers) (sha last : Text) (answer : Response (Unit {0}))
    → a.restarted ≡ answer
    → github_latest_sha a ≡ ok sha
    → read_rebuilder_state a ≡ ok last
    → (last == sha) ≡ false
    → Succeeds a.polls
    → Ticks a (
        (ok tt, job_deleted ∷ job_created build_context ∷ [])
        >> SelfRebuild.restarted_with answer
        >> SelfRebuild.saved_with sha a.saved)
unfolding SelfRebuild.restarted_with
restarted-Ticks a sha last (err e) k g r d b = unconfirmed e sha last g r d b
restarted-Ticks a sha last (ok (status, body)) k g r d b = elim (Bool-cases (nat_eq status 200)) [
  | inl h ↦ rw h (
      saved-Ticks a sha last a.saved body g r d b
        (k ∙ ap (λ n. ok (n, body)) ((nat_eq_iff status 200).0 h)))
  | inr h ↦ rw h (unconfirmed (codes "patch deployment HTTP") sha last g r d b)
]

built-Ticks :
    (a : Answers) (sha last : Text) (out : Result (Unit {0}) × List Step)
    → Builds a out
    → github_latest_sha a ≡ ok sha
    → read_rebuilder_state a ≡ ok last
    → (last == sha) ≡ false
    → Ticks a (out >> SelfRebuild.restarted_with a.restarted >> SelfRebuild.saved_with sha a.saved)
built-Ticks a sha last _ (stopped e steps s) g r d = failed e steps s
built-Ticks a sha last _ (succeeded b) g r d = restarted-Ticks a sha last a.restarted refl g r d b

first-Ticks :
    (a : Answers) (sha : Text) (saved : Option Text)
    → github_latest_sha a ≡ ok sha
    → read_rebuilder_state a ≡ ok []
    → Ticks a (SelfRebuild.saved_with sha saved)
unfolding SelfRebuild.saved_with
first-Ticks a sha none g r = bootstrapped sha (ok tt) g r
first-Ticks a sha (some e) g r = bootstrapped sha (err e) g r

tick_with-Ticks :
    (a : Answers) (sha last : Text)
    → github_latest_sha a ≡ ok sha
    → read_rebuilder_state a ≡ ok last
    → Ticks a (SelfRebuild.tick_with a sha last)
unfolding SelfRebuild.tick_with write_rebuilder_state trigger_build_job rollout_restart
tick_with-Ticks a sha [] g r = first-Ticks a sha a.saved g r
tick_with-Ticks a sha (c ∷ last) g r = elim (Bool-cases ((c ∷ last) == sha)) [
  | inl h ↦ rw h (up_to_date sha g (r ∙ ap ok (eq_of_== h)))
  | inr h ↦ elim (Bool-cases (ltb (length (c ∷ last)) 8)) [
    | inl k ↦ rw (h, k) (failed (codes "slice bounds out of range") [] refl)
    | inr k ↦
        rw (h, k)
          (built-Ticks a sha (c ∷ last) (SelfRebuild.start_build a a.deleted)
            (start_build-Builds a a.deleted) g r h)
  ]
]

tick_state-Ticks :
    (a : Answers) (sha : Text) (state : Result Text)
    → github_latest_sha a ≡ ok sha
    → read_rebuilder_state a ≡ state
    → Ticks a (SelfRebuild.tick_state a sha state)
unfolding SelfRebuild.tick_state
tick_state-Ticks a sha (err e) g r = failed e [] refl
tick_state-Ticks a sha (ok last) g r = tick_with-Ticks a sha last g r

tick_latest-Ticks :
    (a : Answers) (latest : Result Text)
    → github_latest_sha a ≡ latest
    → Ticks a (SelfRebuild.tick_latest a latest)
unfolding SelfRebuild.tick_latest
tick_latest-Ticks a (err e) g = failed e [] refl
tick_latest-Ticks a (ok sha) g = tick_state-Ticks a sha (read_rebuilder_state a) g refl

-- A tick of the self-rebuilder either fails before it sends a restart or a new state; or finds the
-- recorded commit still the latest and does nothing; or sends the latest commit as the state where none
-- was; or, for another commit than the recorded one, creates the Job that builds the head of the branch,
-- sends a restart only after a poll has shown that Job complete and none before it failed, and sends the
-- latest commit as the state only after the restart was answered with 200.
pub rebuilder_tick-Ticks : (a : Answers) → Ticks a (rebuilder_tick a)
unfolding rebuilder_tick
rebuilder_tick-Ticks a = tick_latest-Ticks a (github_latest_sha a) refl
