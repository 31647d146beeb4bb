-- ===== src/Uptime/Examples.antt =====
-- The tracker at its first probe.
use vercel_clone.Prelude.{false}
use vercel_clone.Prelude.Text.{text_key}
use vercel_clone.Uptime.{UptimeSample}

abbrev probe : UptimeSample
probe = record { at = 5; is_ok = false; latency_ms = 80; status = 502 }
