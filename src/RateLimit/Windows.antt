-- ===== src/RateLimit/Windows.antt =====
-- No key gets through more often in a window than the limit.
use vercel_clone.Prelude.{
  ℕ, suc, ◌+◌, ◌/◌, ◌≡◌, ◌≤◌, ◌<◌, refl, inl, inr, Bool, true, false, ◌&&◌, some, List, [], ◌∷◌,
  ltb, leb, nat_eq, length, arith, Bool-cases, All, ◌==◌, eq_of_==, leb→lt, if◌then◌else◌, ap,
}
use vercel_clone.Prelude.Text.{Text, text_key}
use vercel_clone.Prelude.Dict.{Dict, get, get-put}
use vercel_clone.RateLimit.{RateKey, rate_key, sweep, or_zero, count_of, admit, allow}

other : (j k : RateKey) (w : ℕ) → w ≤ suc k.window → ltb (suc j.window) w ≡ true → (j == k) ≡ false
other j k w h old = ground (arith, rate_key.same_iff j k, text_key.same_iff j.key k.key)

get-sweep :
    (w : ℕ) (m : Dict RateKey ℕ) (k : RateKey) → w ≤ suc k.window → get (sweep w m) k ≡ get m k
get-sweep w [] k h = refl
get-sweep w ((j, n) ∷ m) k h = elim (Bool-cases (ltb (suc j.window) w)) [
  | inl old ↦ rw (old, other j k w h old) (get-sweep w m k h)
  | inr fresh ↦ rw fresh (ap (λ r. if j == k then some n else r) (get-sweep w m k h))
]

-- One if the call got through and was of the key.
abbrev pub hit : RateKey → RateKey → Bool → ℕ
hit k j through = if through && j == k then 1 else 0

-- How many of the calls, in order, get through for a key in a window.
abbrev pub count_allowed : ℕ → ℕ → RateKey → List (Text × ℕ) → Dict RateKey ℕ → ℕ
count_allowed limit window k [] m = 0
count_allowed limit window k ((key, now) ∷ calls) m =
    let (through, m') = allow limit window key now m in
    hit k (record { key = key; window = now / window }) through
    + count_allowed limit window k calls m'

admit-count_of :
    (limit : ℕ) (k j : RateKey) (m : Dict RateKey ℕ)
    → count_of m k ≤ limit
    → (count_of (admit limit j m).1 k ≡ count_of m k + hit k j (admit limit j m).0)
      × (count_of (admit limit j m).1 k ≤ limit)
admit-count_of limit k j m h = elim (Bool-cases (leb limit (count_of m j))) [
  | inl full ↦ rw full (omega arith, h)
  | inr room ↦
      rw (room, get-put m j k (suc (count_of m j)))
        (elim (Bool-cases (j == k)) [
          | inl mine ↦
              let same : j ≡ k = eq_of_== mine in
              let counts : count_of m j ≡ count_of m k = ap (count_of m) same in
              rw mine (omega (arith, counts), leb→lt limit (count_of m j) room)
          | inr others ↦ rw others (omega arith, h)
        ])
]

swept-count_of :
    (w : ℕ) (k : RateKey) (m : Dict RateKey ℕ)
    → w ≤ suc k.window
    → count_of (if ltb 20000 (length m) then sweep w m else m) k ≡ count_of m k
swept-count_of w k m h = elim (Bool-cases (ltb 20000 (length m))) [
  | inl large ↦ rw large (ap or_zero (get-sweep w m k h))
  | inr small ↦ rw small refl
]

allow-count_of :
    (limit window : ℕ) (key : Text) (now : ℕ) (k : RateKey) (m : Dict RateKey ℕ)
    → 0 < limit
    → now / window ≤ suc k.window
    → count_of m k ≤ limit
    → let (through, m') = allow limit window key now m in
      (count_of m' k ≡ count_of m k + hit k (record { key = key; window = now / window }) through)
      × (count_of m' k ≤ limit)
unfolding allow
allow-count_of limit window key now k m pos recent h =
    let positive : nat_eq limit 0 ≡ false = ground arith in
    let same = swept-count_of (now / window) k m recent in
    let (counted, bounded) =
      admit-count_of limit k (record { key = key; window = now / window })
        (if ltb 20000 (length m) then sweep (now / window) m else m) (rw same h) in
    rw positive (rw same at counted, bounded)

-- In any sequence of calls none of which is made later than in the window after k's, a key gets
-- through in that window, with what it had used up of it before, at most as often as the limit says:
-- cleaning up does not forget a window that counts.
pub allow-bounded :
    (limit window : ℕ) (k : RateKey) (calls : List (Text × ℕ)) (m : Dict RateKey ℕ)
    → 0 < limit
    → All (λ c. c.1 / window ≤ suc k.window) calls
    → count_of m k ≤ limit
    → count_of m k + count_allowed limit window k calls m ≤ limit
allow-bounded limit window k [] m pos recent h = omega (arith, h)
allow-bounded limit window k ((key, now) ∷ calls) m pos (r, rs) h =
    let (counted, bounded) = allow-count_of limit window key now k m pos r h in
    let rest = allow-bounded limit window k calls (allow limit window key now m).1 pos rs bounded in
    omega (arith, counted, rest)
