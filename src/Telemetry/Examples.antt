-- ===== src/Telemetry/Examples.antt =====
-- The parser on two lines of one service, with values that are counts.
use vercel_clone.Prelude.{ℕ, ◌+◌, ◌≡◌, refl, some, List, [], ◌∷◌}
use vercel_clone.Prelude.Text.{Text, codes, text_key}
use vercel_clone.Prelude.Numerals.{read_decimal}
use vercel_clone.Prelude.Dict.{get}
use vercel_clone.Telemetry.{
  Amount, split_labels, split_metric_line, family_of, sample_of, add_sample, classify_code,
  parse_traefik_metrics,
}

abbrev counts : Amount ℕ
counts = record { none_yet = 0; plus = λ a b. a + b; parse_float = read_decimal }

abbrev labels : List (Text × Text)
labels = (codes "code", codes "200") ∷ (codes "service", codes "a,b") ∷ []

abbrev lines : List Text
lines =
    codes "# HELP"
    ∷ codes "traefik_service_requests_total{code=\"200\",service=\"shop\"} 5"
    ∷ codes "traefik_service_requests_total{code=\"502\",service=\"shop\"} 2"
    ∷ []

both_lines :
    get (parse_traefik_metrics counts lines []) (codes "shop")
    ≡ some (record {
      service = codes "shop";
      requests = 7;
      errors = 2;
      duration = 0;
      count = 0;
      by_class = (codes "2xx", 5) ∷ (codes "5xx", 2) ∷ [];
      buckets = [];
    })
unfolding family_of sample_of add_sample split_metric_line split_labels classify_code
both_lines = refl
