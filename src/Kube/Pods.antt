-- ===== src/Kube/Pods.antt =====
-- The pods of a deployment and their logs (control-plane/k8s.go).
pub mod Best
use vercel_clone.Prelude.{
  ℕ, Bool, true, false, not, ◌&&◌, ◌||◌, Option, none, some, List, [], ◌∷◌, ◌++◌, nat_eq, ltb, leb,
  ◌==◌, is_some, if◌then◌else◌,
}
use vercel_clone.Prelude.Text.{Text, codes, text_key, contains}
use vercel_clone.Prelude.Result.{Result, ok, err}
use vercel_clone.Kube.{PodItem, ContainerStatus, Server, read, list, is_success, Call, collection}

-- The latest of the pods; of two of one time the first.
unfoldable pub latest_pod : PodItem → List PodItem → PodItem
latest_pod best [] = best
latest_pod best (p ∷ ps) =
    latest_pod (if ltb best.creation_timestamp p.creation_timestamp then p else best) ps

-- Running before Pending before all else.
abbrev pub rank : PodItem → ℕ
rank p = if p.phase == codes "Running" then 2 else if p.phase == codes "Pending" then 1 else 0

abbrev pub is_later : PodItem → PodItem → Bool
is_later p best =
    ltb (rank best) (rank p)
    || nat_eq (rank p) (rank best) && ltb best.creation_timestamp p.creation_timestamp

abbrev pub beats : PodItem → Option PodItem → Bool
beats p none = true
beats p (some best) = is_later p best

-- The loop of `findTenantPod`: a terminating pod is skipped.
unfoldable pub best_pod : Option PodItem → List PodItem → Option PodItem
best_pod best [] = best
best_pod best (p ∷ ps) =
    best_pod (if is_some p.deletion_timestamp then best else if beats p best then some p else best)
      ps

name_or_empty : Option PodItem → Text
name_or_empty none = []
name_or_empty (some p) = p.name

build_pod_of : List PodItem → Text
build_pod_of [] = []
build_pod_of (p ∷ ps) = (latest_pod p ps).name

decoded_with : (List PodItem → Text) → Option (List PodItem) → Result Text
decoded_with pick none = err (codes "decode pods")
decoded_with pick (some ps) = ok (pick ps)

-- The value of `state` in a container's status.
pub record ContainerState : Type 0 where
  pub waiting : Bool
  pub running : Bool
  pub terminated : Bool
  pub reason : Text

-- The reason of the termination, or else that of the wait.
reason_of : Option Text → Option Text → Text
reason_of none none = []
reason_of (some r) none = r
reason_of w (some r) = r

state_of : ContainerStatus → ContainerState
unfolding reason_of
state_of c = record {
  waiting = is_some c.waiting;
  running = c.running;
  terminated = is_some c.terminated;
  reason = reason_of c.waiting c.terminated;
}

unfoldable pub state_named : Text → List ContainerStatus → Option ContainerState
unfolding state_of
state_named name [] = none
state_named name (c ∷ cs) = if not (c.name == name) then state_named name cs else some (state_of c)

state_decoded :
    Text → Option (List ContainerStatus × List ContainerStatus) → Result (Option ContainerState)
state_decoded name none = err (codes "decode pod")
state_decoded name (some (inits, containers)) = ok (state_named name (inits ++ containers))

module _ (S : Server) where
  open S use {State, Body, serve, decode_pods, decode_pod}

  pods_answer : (List PodItem → Text) → Result (ℕ × Body) → Result Text
  unfolding decoded_with
  pods_answer pick (err e) = err e
  pods_answer pick (ok (status, body)) =
      if not (is_success status)
      then err (codes "list pods")
      else decoded_with pick (decode_pods body)

  pods_named : (List PodItem → Text) → Text → Text → Text → Call S Text
  unfolding pods_answer
  pods_named pick ns deployment component s =
      let (r, s') =
        serve
          (list (collection S (codes "/api/v1") ns (codes "pods")) (
            codes "paas.deployment="
            ++ (deployment ++ (codes ",app.kubernetes.io/component=" ++ component))))
          s in
      (pods_answer pick r, s')

  -- The name of the build's latest pod, or an empty one.
  unfoldable pub find_build_pod : Text → Text → Call S Text
  unfolding pods_named build_pod_of
  find_build_pod ns deployment = pods_named build_pod_of ns deployment (codes "build")

  unfoldable pub find_tenant_pod : Text → Text → Call S Text
  unfolding pods_named name_or_empty
  find_tenant_pod ns deployment =
      pods_named (λ ps. name_or_empty (best_pod none ps)) ns deployment (codes "tenant")

  status_answer : Text → Result (ℕ × Body) → Result (Option ContainerState)
  unfolding state_decoded
  status_answer container (err e) = err e
  status_answer container (ok (status, body)) =
      if nat_eq status 404
      then ok none
      else if not (is_success status)
      then err (codes "get pod")
      else state_decoded container (decode_pod body)

  -- Nothing if there is no such pod, or no such container in it.
  unfoldable pub container_status : Text → Text → Text → Call S (Option ContainerState)
  unfolding status_answer
  container_status ns pod container s =
      let (r, s') = serve (read (collection S (codes "/api/v1") ns (codes "pods")) pod) s in
      (status_answer container r, s')

-- An answer of the log endpoint: the body of an error, or the lines up to the end of the stream.
pub record LogAnswer : Type 0 where
  pub status : ℕ
  pub body : Text
  pub lines : List Text
  pub scan_error : Option Text

followed : Option Text → Result (Unit {0})
followed none = ok tt
followed (some e) = err e

log_answered : LogAnswer → Result (Unit {0}) × List Text → Result (Unit {0}) × List Text
unfolding followed
log_answered a rest =
    if nat_eq a.status 400
    then (if not (contains a.body (codes "waiting to start"))
        then (err (codes "log stream: status 400"), [])
        else rest)
    else if nat_eq a.status 404
    then (ok tt, [])
    else if ltb a.status 200 || leb 300 a.status
    then (err (codes "log stream"), [])
    else (followed a.scan_error, a.lines)

-- The answers that come before the context ends, one for each attempt; with the lines that `onLine`
-- is called for.
unfoldable pub stream_pod_log : List (Result LogAnswer) → Result (Unit {0}) × List Text
unfolding log_answered
stream_pod_log [] = (err (codes "context canceled"), [])
stream_pod_log (err e ∷ rest) = (err e, [])
stream_pod_log (ok a ∷ rest) = log_answered a (stream_pod_log rest)
