-- ===== src/Uptime.antt =====
-- `uptimeTracker` (control-plane/uptime_tracker.go): the last probes of each project.
--
-- The time of a probe is an argument. Of `summarizeUptime`, the percentage is left out: it is a
-- float.
pub mod History
mod Examples
use vercel_clone.Prelude.{
  ℕ, suc, ◌+◌, ◌-◌, ◌/◌, Bool, true, false, Option, none, some, List, [], ◌∷◌, ◌++◌, ltb, length,
  drop, ◌==◌, if◌then◌else◌,
}
use vercel_clone.Prelude.Text.{Text, text_key}
use vercel_clone.Prelude.Dict.{Dict, get, put}

abbrev pub uptime_history_len : ℕ
uptime_history_len = 48

pub record UptimeSample : Type 0 where
  pub at : ℕ
  pub is_ok : Bool
  pub latency_ms : ℕ
  pub status : ℕ

abbrev pub or_empty : Option (List UptimeSample) → List UptimeSample
or_empty none = []
or_empty (some h) = h

unfoldable pub snapshot : Dict Text (List UptimeSample) → Text → List UptimeSample
snapshot m project = or_empty (get m project)

-- hist[len(hist)-uptimeHistoryLen:], if it is longer.
abbrev pub newest : List UptimeSample → List UptimeSample
newest h = if ltb uptime_history_len (length h) then drop (length h - uptime_history_len) h else h

unfoldable pub record_sample :
    Text → UptimeSample → Dict Text (List UptimeSample) → Dict Text (List UptimeSample)
unfolding snapshot
record_sample project s m =
    if project == [] then m else put m project (newest (snapshot m project ++ s ∷ []))

abbrev pub latency_sum : List UptimeSample → ℕ
latency_sum [] = 0
latency_sum (s ∷ h) = s.latency_ms + latency_sum h

abbrev pub count_ok : List UptimeSample → ℕ
count_ok [] = 0
count_ok (s ∷ h) = if s.is_ok then suc (count_ok h) else count_ok h

-- samples[len(samples)-1].OK, of a history that is not empty.
abbrev pub last_ok : List UptimeSample → Bool
last_ok [] = true
last_ok (s ∷ []) = s.is_ok
last_ok (_ ∷ t ∷ h) = last_ok (t ∷ h)

pub record UptimeSummary : Type 0 where
  pub ok_samples : ℕ
  pub avg_latency_ms : ℕ
  pub last_ok : Bool

unfoldable pub summarize_uptime : List UptimeSample → UptimeSummary
summarize_uptime [] = record { ok_samples = 0; avg_latency_ms = 0; last_ok = true }
summarize_uptime (s ∷ h) = record {
  ok_samples = count_ok (s ∷ h);
  avg_latency_ms = latency_sum (s ∷ h) / length (s ∷ h);
  last_ok = last_ok (s ∷ h);
}
