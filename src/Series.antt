-- ===== src/Series.antt =====
-- The time series of the sampler: the ring of each Traefik service
-- (control-plane/telemetry_series.go), and the rings of a project with the aggregate of ten minutes
-- (control-plane/project_series.go).
--
-- Traefik's counters are whole numbers, so their floats are natural numbers here; a difference that
-- would be negative is zero in the code and in the model. Numbers stay below the bounds of int64.
pub mod Ticks
pub mod Merged
pub mod Aggregates
mod Examples
use mathlib.Core.List.{reverse}
use vercel_clone.Prelude.{
  ℕ_eq, ℕ, ◌+◌, ◌-◌, Bool, Option, none, some, List, [], ◌∷◌, ◌++◌, ltb, leb, length, drop,
  if◌then◌else◌,
}
use vercel_clone.Prelude.Text.{Text, text_key, contains}
use vercel_clone.Prelude.Dict.{Dict, get, put}
pub use Ticks.{ProjectMetric, LongAccum, no_ticks, requests_of, weigh, add_tick, mean, flush}

abbrev pub series_max_len : ℕ
series_max_len = 120

pub record SeriesPoint : Type 0 where
  pub t : ℕ
  pub counts : Dict Text ℕ

pub record ServiceBuffer : Type 0 where
  pub points : List SeriesPoint
  pub last_raw : Dict Text ℕ

-- m[k] of a map of numbers.
abbrev pub at_or_zero : Option ℕ → ℕ
at_or_zero none = 0
at_or_zero (some n) = n

-- A counter that was reset gives zero.
abbrev pub deltas : Dict Text ℕ → Dict Text ℕ → Dict Text ℕ
deltas prev [] = []
deltas prev ((cls, cur) ∷ raw) = (cls, cur - at_or_zero (get prev cls)) ∷ deltas prev raw

-- The last points of a ring.
abbrev pub trimmed : {A : Type 0} → ℕ → List A → List A
trimmed max xs = if ltb max (length xs) then drop (length xs - max) xs else xs

abbrev pub new_buffer : ServiceBuffer
new_buffer = record { points = []; last_raw = [] }

-- The first sample only seeds the buffer.
abbrev pub record_raw : ℕ → Dict Text ℕ → ServiceBuffer → ServiceBuffer
record_raw now raw buf = elim buf.last_raw [
  | [] ↦ record buf { last_raw = raw }
  | _ ∷ _ ↦ record {
    points =
        trimmed series_max_len
          (buf.points ++ record { t = now; counts = deltas buf.last_raw raw } ∷ []);
    last_raw = raw;
  }
]

abbrev pub or_new_buffer : Option ServiceBuffer → ServiceBuffer
or_new_buffer none = new_buffer
or_new_buffer (some b) = b

-- The loop over the services of a scrape, each with its counters by class.
abbrev pub record_snapshot :
    ℕ → List (Text × Dict Text ℕ) → Dict Text ServiceBuffer → Dict Text ServiceBuffer
record_snapshot now [] m = m
record_snapshot now ((service, raw) ∷ rest) m =
    record_snapshot now rest (put m service (record_raw now raw (or_new_buffer (get m service))))

-- m[cls] += n.
abbrev pub add_counts : Dict Text ℕ → Dict Text ℕ → Dict Text ℕ
add_counts m [] = m
add_counts m ((cls, n) ∷ counts) = add_counts (put m cls (at_or_zero (get m cls) + n)) counts

abbrev pub or_empty : Option (Dict Text ℕ) → Dict Text ℕ
or_empty none = []
or_empty (some m) = m

abbrev pub merge_points : Dict ℕ (Dict Text ℕ) → List SeriesPoint → Dict ℕ (Dict Text ℕ)
merge_points merged [] = merged
merge_points merged (p ∷ ps) =
    merge_points (put merged p.t (add_counts (or_empty (get merged p.t)) p.counts)) ps

abbrev pub merge_buffers :
    (Text → Bool) → Dict ℕ (Dict Text ℕ) → Dict Text ServiceBuffer → Dict ℕ (Dict Text ℕ)
merge_buffers matches merged [] = merged
merge_buffers matches merged ((name, buf) ∷ m) =
    merge_buffers matches (if matches name then merge_points merged buf.points else merged) m

abbrev pub keys : {V : Type 0} → Dict ℕ V → List ℕ
keys [] = []
keys ((t, _) ∷ m) = t ∷ keys m

-- The inner loop: the element moves left past the larger ones of the part that is sorted, which is
-- held from its right end.
abbrev pub move_left : ℕ → List ℕ → List ℕ
move_left x [] = x ∷ []
move_left x (y ∷ ys) = let rest = move_left x ys in if ltb x y then y ∷ rest else x ∷ y ∷ ys

abbrev pub sort_from : List ℕ → List ℕ → List ℕ
sort_from sorted [] = reverse sorted
sort_from sorted (x ∷ xs) = sort_from (move_left x sorted) xs

unfoldable pub sort_int64_asc : List ℕ → List ℕ
sort_int64_asc a = sort_from [] a

abbrev pub points_at : Dict ℕ (Dict Text ℕ) → List ℕ → List SeriesPoint
points_at merged [] = []
points_at merged (t ∷ ts) = record { t = t; counts = or_empty (get merged t) } ∷ points_at merged ts

unfoldable pub points_for_services : (Text → Bool) → Dict Text ServiceBuffer → List SeriesPoint
points_for_services matches m =
    let merged = merge_buffers matches [] m in points_at merged (sort_int64_asc (keys merged))

abbrev pub matcher_for_project : Text → Text → Bool
matcher_for_project slug name = contains name slug

abbrev pub project_series_max_len : ℕ
project_series_max_len = 120

abbrev pub long_bucket_ticks : ℕ
long_bucket_ticks = 20

abbrev pub long_series_max_len : ℕ
long_series_max_len = 1008

pub record ProjectRings : Type 0 where
  pub points : List ProjectMetric
  pub long_points : List ProjectMetric
  pub long_accum : LongAccum

downsample : LongAccum → ProjectRings → ProjectRings
downsample a b =
    if leb long_bucket_ticks a.count
    then record b {
      long_points = trimmed long_series_max_len (b.long_points ++ flush a ∷ []);
      long_accum = no_ticks;
    }
    else record b { long_accum = a }

-- What `recordSnapshot` does with a project's point once it is computed.
unfoldable pub record_point : ProjectMetric → ProjectRings → ProjectRings
unfolding downsample
record_point pt b =
    downsample (add_tick pt b.long_accum)
      (record b { points = trimmed project_series_max_len (b.points ++ pt ∷ []) })
