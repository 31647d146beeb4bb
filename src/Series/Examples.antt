-- ===== src/Series/Examples.antt =====
-- The theorems on series at two rings.
use vercel_clone.Prelude.{◌+◌, ◌≡◌, refl, [], ◌∷◌, arith}
use vercel_clone.Prelude.Text.{Text, codes}
use vercel_clone.Prelude.Dict.{Dict}
use vercel_clone.Series.{
  ServiceBuffer, ProjectMetric, ProjectRings, no_ticks, record_snapshot, record_point,
  points_for_services, matcher_for_project, sort_int64_asc, requests_of,
}
use vercel_clone.Series.Aggregates.{IsBounded, total, pending, evicted, record_point-IsBounded}

abbrev store : Dict Text ServiceBuffer
store =
    record_snapshot 60
      ((codes "shop-2", (codes "2xx", 4) ∷ []) ∷ (codes "shop-1", (codes "2xx", 9) ∷ []) ∷ [])
      (record_snapshot 30
        ((codes "shop-2", (codes "2xx", 1) ∷ []) ∷ (codes "shop-1", (codes "2xx", 5) ∷ []) ∷ []) [])

merged_sum :
    points_for_services (matcher_for_project (codes "shop")) store
    ≡ record { t = 60; counts = (codes "2xx", 7) ∷ [] } ∷ []
unfolding points_for_services sort_int64_asc
merged_sum = refl

abbrev point : ProjectMetric
point = record {
  t = 30;
  pods = 1;
  cpu_m = 5;
  memory_mi = 64;
  req_2xx = 3;
  req_3xx = 0;
  req_4xx = 1;
  req_5xx = 0;
  latency_avg_ms = 12;
  latency_p50_ms = 10;
  latency_p95_ms = 20;
  latency_p99_ms = 30;
}

abbrev rings : ProjectRings
rings = record { points = []; long_points = []; long_accum = no_ticks }

record_point-IsBounded_example :
    IsBounded (record_point point rings)
    × (total (record_point point rings).long_points
          + pending (record_point point rings).long_accum
          + evicted rings
        ≡ (total rings.long_points + pending rings.long_accum) + requests_of point)
record_point-IsBounded_example =
    record_point-IsBounded point rings (ground arith, ground arith, ground arith)
