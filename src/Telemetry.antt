-- ===== src/Telemetry.antt =====
-- What the collector makes of Traefik's metrics: `parseTraefikMetrics` and what it calls
-- (control-plane/telemetry.go), and `classifyCode` (control-plane/telemetry_series.go).
--
-- The values are 64-bit floats there: their type, its zero, its addition and `strconv.ParseFloat`
-- are arguments, and no law is asked of them. The lines are those that the scanner gives, up to its
-- end or its first error.
pub mod Quotes
mod Examples
use vercel_clone.Prelude.{
  ℕ, Bool, true, false, not, ◌&&◌, ◌||◌, Option, none, some, List, [], ◌∷◌, ◌++◌, nat_eq, length,
  ◌==◌, if◌then◌else◌,
}
use vercel_clone.Prelude.Text.{Text, codes, text_key, has_prefix, cut_byte, trim, trim_space}
use vercel_clone.Prelude.Dict.{Dict, get, put}

-- `<value>` or `<value> <timestamp>`.
abbrev first_word : Text → Option (Text × Text) → Text
first_word rest none = rest
first_word rest (some (word, _)) = word

-- The labels end at the first closing brace, which stands behind the first opening one.
split_closed : Option (Text × Text) → Option (Text × Text)
split_closed none = none
split_closed (some (labels, rest)) =
    some (labels, first_word (trim_space rest) (cut_byte (trim_space rest) b' '))

split_open : Option (Text × Text) → Option (Text × Text)
unfolding split_closed
split_open none = none
split_open (some (before, after)) = elim (cut_byte before b'}') [
  | none ↦ split_closed (cut_byte after b'}')
  | some _ ↦ none
]

unfoldable pub split_metric_line : Text → Option (Text × Text)
unfolding split_open
split_metric_line line = split_open (cut_byte line b'{')

abbrev pub is_quote : ℕ → Bool
is_quote c = nat_eq c b'"'

-- Whether a byte stands in quotes once it is read.
abbrev pub quoted_after : Bool → ℕ → Bool
quoted_after in_quotes c = if is_quote c then not in_quotes else in_quotes

-- The loop: the flag and the label that is being read.
abbrev pub split_labels_from : Bool → Text → Text → List Text
split_labels_from in_quotes cur [] = if cur == [] then [] else cur ∷ []
split_labels_from in_quotes cur (c ∷ s) =
    let split = cur ∷ split_labels_from (quoted_after in_quotes c) [] s in
    let grow = split_labels_from (quoted_after in_quotes c) (cur ++ c ∷ []) s in
    if nat_eq c b',' && not (quoted_after in_quotes c) then split else grow

unfoldable pub split_labels : Text → List Text
split_labels s = split_labels_from false [] s

pub record Labels : Type 0 where
  pub service : Text
  pub code : Text
  pub le : Text

-- strings.Trim by the quote.
abbrev pub unquoted : Text → Text
unquoted = trim is_quote

abbrev pub set_label : Labels → Text → Text → Labels
set_label l key v =
    if key == codes "service"
    then record l { service = v }
    else if key == codes "code"
    then record l { code = v }
    else if key == codes "le"
    then record l { le = v }
    else l

abbrev pub read_label : Labels → Option (Text × Text) → Labels
read_label l none = l
read_label l (some (key, v)) = set_label l key (unquoted v)

abbrev pub read_labels : Labels → List Text → Labels
read_labels l [] = l
read_labels l (kv ∷ kvs) = read_labels (read_label l (cut_byte kv b'=')) kvs

abbrev pub no_labels : Labels
no_labels = record { service = []; code = []; le = [] }

pub data Family : Type 0 where
  requests_total duration_sum duration_count duration_bucket : Family

unfoldable pub family_of : Text → Option Family
family_of line =
    if has_prefix line (codes "traefik_service_requests_total{")
    then some requests_total
    else if has_prefix line (codes "traefik_service_request_duration_seconds_sum{")
    then some duration_sum
    else if has_prefix line (codes "traefik_service_request_duration_seconds_count{")
    then some duration_count
    else if has_prefix line (codes "traefik_service_request_duration_seconds_bucket{")
    then some duration_bucket
    else none

class_of_digit : ℕ → Text
class_of_digit c =
    if nat_eq c b'1'
    then codes "1xx"
    else if nat_eq c b'2'
    then codes "2xx"
    else if nat_eq c b'3'
    then codes "3xx"
    else if nat_eq c b'4'
    then codes "4xx"
    else if nat_eq c b'5'
    then codes "5xx"
    else codes "other"

unfoldable pub classify_code : Text → Text
unfolding class_of_digit
classify_code [] = codes "other"
classify_code (c ∷ s) = if not (nat_eq (length s) 2) then codes "other" else class_of_digit c

abbrev pub is_error_code : Text → Bool
is_error_code [] = false
is_error_code (c ∷ s) = nat_eq (length s) 2 && (nat_eq c b'4' || nat_eq c b'5')

pub record Amount (V : Type 0) : Type 0 where
  pub none_yet : V
  pub plus : V → V → V
  pub parse_float : Text → Option V

pub record ServiceTraffic (V : Type 0) : Type 0 where
  pub service : Text
  pub requests : V
  pub errors : V
  pub duration : V
  pub count : V
  pub by_class : Dict Text V
  pub buckets : Dict Text V

-- A line that counts.
pub record Sample (V : Type 0) : Type 0 where
  pub family : Family
  pub labels : Labels
  pub value : V

module _ {V : Type 0} (amount : Amount V) where
  abbrev pub or_none_yet : Option V → V
  or_none_yet none = amount.none_yet
  or_none_yet (some v) = v

  -- m[k] += v.
  abbrev pub add_to : Dict Text V → Text → V → Dict Text V
  add_to m k v = put m k (amount.plus (or_none_yet (get m k)) v)

  abbrev pub new_traffic : Text → ServiceTraffic V
  new_traffic service = record {
    service = service;
    requests = amount.none_yet;
    errors = amount.none_yet;
    duration = amount.none_yet;
    count = amount.none_yet;
    by_class = [];
    buckets = [];
  }

  count_sample : Family → Labels → V → ServiceTraffic V → ServiceTraffic V
  count_sample requests_total l v t = record t {
    requests = amount.plus t.requests v;
    errors = if is_error_code l.code then amount.plus t.errors v else t.errors;
    by_class = add_to t.by_class (classify_code l.code) v;
  }
  count_sample duration_sum l v t = record t { duration = amount.plus t.duration v }
  count_sample duration_count l v t = record t { count = amount.plus t.count v }
  count_sample duration_bucket l v t = record t {
    buckets = if l.le == [] then t.buckets else add_to t.buckets l.le v;
  }

  unfoldable pub add_sample : Sample V → ServiceTraffic V → ServiceTraffic V
  unfolding count_sample
  add_sample s t = count_sample s.family s.labels s.value t

  -- A line without a service label does not count.
  with_service : Family → V → Labels → Option (Sample V)
  with_service f v l =
      if l.service == [] then none else some (record { family = f; labels = l; value = v })

  with_value : Family → Text → Option V → Option (Sample V)
  with_value f labels none = none
  with_value f labels (some v) = with_service f v (read_labels no_labels (split_labels labels))

  with_parts : Family → Option (Text × Text) → Option (Sample V)
  with_parts f none = none
  with_parts f (some (labels, value)) = with_value f labels (amount.parse_float value)

  with_family : Text → Option Family → Option (Sample V)
  with_family line none = none
  with_family line (some f) = with_parts f (split_metric_line line)

  -- A comment has no family.
  unfoldable pub sample_of : Text → Option (Sample V)
  unfolding with_family with_parts with_value with_service
  sample_of line = with_family line (family_of line)

  abbrev pub or_new : Text → Option (ServiceTraffic V) → ServiceTraffic V
  or_new service none = new_traffic service
  or_new service (some t) = t

  abbrev pub record_sample :
      Option (Sample V) → Dict Text (ServiceTraffic V) → Dict Text (ServiceTraffic V)
  record_sample none m = m
  record_sample (some s) m =
      put m s.labels.service (add_sample s (or_new s.labels.service (get m s.labels.service)))

  abbrev pub parse_traefik_metrics :
      List Text → Dict Text (ServiceTraffic V) → Dict Text (ServiceTraffic V)
  parse_traefik_metrics [] m = m
  parse_traefik_metrics (line ∷ lines) m =
      parse_traefik_metrics lines (record_sample (sample_of line) m)
