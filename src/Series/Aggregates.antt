-- ===== src/Series/Aggregates.antt =====
-- The rings of a project keep their bounds, and a request is lost only with an evicted aggregate.
use vercel_clone.Prelude.{
  ℕ, suc, ◌+◌, ◌-◌, ◌≤◌, ◌<◌, ◌≡◌, refl, ◌∙◌, ap, inl, inr, List, [], ◌∷◌, ◌++◌, arith, ltb, leb,
  ltb→lt, ltb→le, leb→le, leb→lt, length, length-append, length-drop, drop, take, if◌then◌else◌,
  Bool-cases,
}
use vercel_clone.Series

pub length-trimmed : {A : Type 0} (max : ℕ) (xs : List A) → length (Series.trimmed max xs) ≤ max
length-trimmed max xs = elim (Bool-cases (ltb max (length xs))) [
  | inl e ↦ rw e (omega (arith, length-drop (length xs - max) xs, ltb→lt max (length xs) e))
  | inr e ↦ rw e (ltb→le max (length xs) e)
]

pub trimmed_whole :
    {A : Type 0} (max : ℕ) (xs : List A) → length xs ≤ max → Series.trimmed max xs ≡ xs
trimmed_whole max xs h = elim (Bool-cases (ltb max (length xs))) [
  | inl e ↦ absurd (omega (arith, h, ltb→lt max (length xs) e))
  | inr e ↦ rw e refl
]

abbrev pub total : List Series.ProjectMetric → ℕ
total [] = 0
total (p ∷ ps) = Series.requests_of p + total ps

total-append : (ps qs : List Series.ProjectMetric) → total (ps ++ qs) ≡ total ps + total qs
total-append [] qs = omega arith
total-append (p ∷ ps) qs = omega (arith, total-append ps qs)

abbrev pub pending : Series.LongAccum → ℕ
pending a = a.req_2xx + a.req_3xx + a.req_4xx + a.req_5xx

-- Two rings within their bounds, and less than an aggregate's worth of ticks.
abbrev pub IsBounded : Series.ProjectRings → Type 0
IsBounded b =
    (length b.points ≤ Series.project_series_max_len)
    × (length b.long_points ≤ Series.long_series_max_len)
    × (b.long_accum.count < Series.long_bucket_ticks)

add_tick-count :
    (pt : Series.ProjectMetric) (a : Series.LongAccum) → (Series.add_tick pt a).count ≡ suc a.count
add_tick-count pt a = elim (Bool-cases (ltb 0 (Series.requests_of pt))) [
  | inl e ↦ rw e refl
  | inr e ↦ rw e refl
]

add_tick-pending :
    (pt : Series.ProjectMetric) (a : Series.LongAccum)
    → pending (Series.add_tick pt a) ≡ pending a + Series.requests_of pt
add_tick-pending pt a = elim (Bool-cases (ltb 0 (Series.requests_of pt))) [
  | inl e ↦ rw e (omega arith)
  | inr e ↦ rw e (omega arith)
]

-- The requests of the aggregate that a full long ring loses to a new one.
abbrev pub evicted : Series.ProjectRings → ℕ
evicted b =
    if leb Series.long_bucket_ticks (suc b.long_accum.count)
    then (if leb Series.long_series_max_len (length b.long_points)
        then total (take 1 b.long_points)
        else 0)
    else 0

one_over : (n m : ℕ) → n ≡ m → suc n - m ≡ 1
one_over n m h = omega (arith, h)

-- One more than a ring takes: the first goes.
trimmed_full :
    (max : ℕ) (y : Series.ProjectMetric) (zs : List Series.ProjectMetric)
    → length zs ≡ max
    → Series.trimmed max (y ∷ zs) ≡ zs
trimmed_full max y zs h = elim (Bool-cases (ltb max (suc (length zs)))) [
  | inl e ↦ rw e (ap (λ n. drop n (y ∷ zs)) (one_over (length zs) max h))
  | inr e ↦ absurd (omega (arith, h, ltb→le max (suc (length zs)) e))
]

trimmed_more :
    (max : ℕ) (xs : List Series.ProjectMetric) (x : Series.ProjectMetric)
    → length xs ≤ max
    → 0 < max
    → total (Series.trimmed max (xs ++ x ∷ []))
        + (if leb max (length xs) then total (take 1 xs) else 0)
      ≡ total xs + Series.requests_of x
trimmed_more max [] x h pos =
    rw (trimmed_whole max (x ∷ []) (omega (arith, pos)))
      (elim (Bool-cases (leb max 0)) [ inl e ↦ rw e (omega arith) | inr e ↦ rw e (omega arith) ])
trimmed_more max (y ∷ ys) x h pos = elim (Bool-cases (leb max (suc (length ys)))) [
  | inr e ↦
      rw
        (
          e,
          trimmed_whole max (y ∷ (ys ++ x ∷ []))
              (omega (arith, length-append ys (x ∷ []), leb→lt max (suc (length ys)) e)),
        )
        (omega (arith, total-append ys (x ∷ [])))
  | inl e ↦
      rw
        (
          e,
          trimmed_full max y (ys ++ x ∷ [])
              (omega (arith, h, length-append ys (x ∷ []), leb→le max (suc (length ys)) e)),
        )
        (omega (arith, total-append ys (x ∷ [])))
]

-- Where the rings are within their bounds, with fewer ticks pending than an aggregate takes, they are
-- so after another point, also where the long ring is full; and the requests of the long ring and of the
-- pending ticks grow by those of the point, less those of the oldest aggregate where that is evicted.
pub record_point-IsBounded :
    (pt : Series.ProjectMetric) (b : Series.ProjectRings)
    → IsBounded b
    → IsBounded (Series.record_point pt b)
      × (total (Series.record_point pt b).long_points
            + pending (Series.record_point pt b).long_accum
            + evicted b
          ≡ (total b.long_points + pending b.long_accum) + Series.requests_of pt)
unfolding Series.record_point Series.downsample
record_point-IsBounded pt b (short, long, ticks) =
    elim (Bool-cases (leb Series.long_bucket_ticks (suc b.long_accum.count))) [
      | inr e ↦
          rw (add_tick-count pt b.long_accum, e)
            (
              (
                length-trimmed 120 (b.points ++ pt ∷ []),
                long,
                rw (add_tick-count pt b.long_accum)
                    (leb→lt Series.long_bucket_ticks (suc b.long_accum.count) e),
              ),
              omega (arith, add_tick-pending pt b.long_accum),
            )
      | inl e ↦
          rw (ap (λ n. leb Series.long_bucket_ticks n) (add_tick-count pt b.long_accum) ∙ e, e)
            (
              (
                length-trimmed 120 (b.points ++ pt ∷ []),
                length-trimmed 1008
                    (b.long_points ++ Series.flush (Series.add_tick pt b.long_accum) ∷ []),
                omega arith,
              ),
              omega (
                arith,
                add_tick-pending pt b.long_accum,
                trimmed_more 1008 b.long_points (Series.flush (Series.add_tick pt b.long_accum))
                    long (omega arith),
              ),
            )
    ]
