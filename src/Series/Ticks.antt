-- ===== src/Series/Ticks.antt =====
-- A point of a project, and the aggregate of the points of ten minutes
-- (control-plane/project_series.go).
use vercel_clone.Prelude.{ℕ, suc, ◌+◌, ◌*◌, ◌/◌, ltb, ℕ_eq, if◌then◌else◌}
use vercel_clone.Prelude.Text.{text_key}

-- The rings of a project.
pub record ProjectMetric : Type 0 where
  pub t : ℕ
  pub pods : ℕ
  pub cpu_m : ℕ
  pub memory_mi : ℕ
  pub req_2xx : ℕ
  pub req_3xx : ℕ
  pub req_4xx : ℕ
  pub req_5xx : ℕ
  pub latency_avg_ms : ℕ
  pub latency_p50_ms : ℕ
  pub latency_p95_ms : ℕ
  pub latency_p99_ms : ℕ

pub record LongAccum : Type 0 where
  pub count : ℕ
  pub last_tick_t : ℕ
  pub pods_sum : ℕ
  pub cpu_sum : ℕ
  pub mem_sum : ℕ
  pub req_2xx : ℕ
  pub req_3xx : ℕ
  pub req_4xx : ℕ
  pub req_5xx : ℕ
  pub lat_avg_w_sum : ℕ
  pub lat_p50_w_sum : ℕ
  pub lat_p95_w_sum : ℕ
  pub lat_p99_w_sum : ℕ
  pub lat_req_w : ℕ

abbrev pub no_ticks : LongAccum
no_ticks = record {
  count = 0;
  last_tick_t = 0;
  pods_sum = 0;
  cpu_sum = 0;
  mem_sum = 0;
  req_2xx = 0;
  req_3xx = 0;
  req_4xx = 0;
  req_5xx = 0;
  lat_avg_w_sum = 0;
  lat_p50_w_sum = 0;
  lat_p95_w_sum = 0;
  lat_p99_w_sum = 0;
  lat_req_w = 0;
}

-- The requests of a point, which are its weight.
abbrev pub requests_of : ProjectMetric → ℕ
requests_of pt = pt.req_2xx + pt.req_3xx + pt.req_4xx + pt.req_5xx

-- Nothing is added for a weight of zero.
abbrev pub weigh : ProjectMetric → LongAccum → LongAccum
weigh pt a =
    if ltb 0 (requests_of pt)
    then record a {
      lat_avg_w_sum = a.lat_avg_w_sum + pt.latency_avg_ms * requests_of pt;
      lat_p50_w_sum = a.lat_p50_w_sum + pt.latency_p50_ms * requests_of pt;
      lat_p95_w_sum = a.lat_p95_w_sum + pt.latency_p95_ms * requests_of pt;
      lat_p99_w_sum = a.lat_p99_w_sum + pt.latency_p99_ms * requests_of pt;
      lat_req_w = a.lat_req_w + requests_of pt;
    }
    else a

abbrev pub add_tick : ProjectMetric → LongAccum → LongAccum
add_tick pt a = weigh pt (record a {
  count = suc a.count;
  last_tick_t = pt.t;
  pods_sum = a.pods_sum + pt.pods;
  cpu_sum = a.cpu_sum + pt.cpu_m;
  mem_sum = a.mem_sum + pt.memory_mi;
  req_2xx = a.req_2xx + pt.req_2xx;
  req_3xx = a.req_3xx + pt.req_3xx;
  req_4xx = a.req_4xx + pt.req_4xx;
  req_5xx = a.req_5xx + pt.req_5xx;
})

-- The weighted mean, or zero without a weight.
abbrev pub mean : ℕ → ℕ → ℕ
mean sum weight = if ltb 0 weight then sum / weight else 0

-- Division by a count of zero would panic: `flush` is called with twenty ticks.
abbrev pub flush : LongAccum → ProjectMetric
flush a = record {
  t = a.last_tick_t;
  pods = a.pods_sum / a.count;
  cpu_m = a.cpu_sum / a.count;
  memory_mi = a.mem_sum / a.count;
  req_2xx = a.req_2xx;
  req_3xx = a.req_3xx;
  req_4xx = a.req_4xx;
  req_5xx = a.req_5xx;
  latency_avg_ms = mean a.lat_avg_w_sum a.lat_req_w;
  latency_p50_ms = mean a.lat_p50_w_sum a.lat_req_w;
  latency_p95_ms = mean a.lat_p95_w_sum a.lat_req_w;
  latency_p99_ms = mean a.lat_p99_w_sum a.lat_req_w;
}
