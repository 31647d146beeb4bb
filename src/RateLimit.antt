-- ===== src/RateLimit.antt =====
-- `ipRateLimiter` (control-plane/ratelimit.go): a counter for each key and window of time.
--
-- A time is a number of seconds, and the limit is not negative.
pub mod Windows
mod Examples
use vercel_clone.Prelude.{
  ℕ, suc, ◌+◌, ◌/◌, ◌≡◌, ◌↔◌, refl, Bool, true, false, ◌&&◌, Option, none, some, List, [], ◌∷◌, ltb,
  leb, nat_eq, nat_eq_iff, length, arith, Key, ◌==◌, if◌then◌else◌,
}
use vercel_clone.Prelude.Text.{Text, text_key}
use vercel_clone.Prelude.Dict.{Dict, get, put}

pub record RateKey : Type 0 where
  pub key : Text
  pub window : ℕ

abbrev same_rate_key : RateKey → RateKey → Bool
same_rate_key a b = a.key == b.key && nat_eq a.window b.window

pub same_rate_key_iff : (a b : RateKey) → (same_rate_key a b ≡ true) ↔ (a ≡ b)
same_rate_key_iff a b = ground (arith, text_key.same_iff a.key b.key)

instance abbrev pub rate_key : Key RateKey
rate_key = record { same = same_rate_key; same_iff = same_rate_key_iff }

-- for ck := range counts { if ck.window < w-1 { delete } }.
abbrev pub sweep : ℕ → Dict RateKey ℕ → Dict RateKey ℕ
sweep w [] = []
sweep w ((k, n) ∷ m) = let rest = sweep w m in if ltb (suc k.window) w then rest else (k, n) ∷ rest

abbrev pub or_zero : Option ℕ → ℕ
or_zero none = 0
or_zero (some n) = n

-- rl.counts[k].
abbrev pub count_of : Dict RateKey ℕ → RateKey → ℕ
count_of m k = or_zero (get m k)

abbrev pub admit : ℕ → RateKey → Dict RateKey ℕ → Bool × Dict RateKey ℕ
admit limit k m =
    if leb limit (count_of m k) then (false, m) else (true, put m k (suc (count_of m k)))

unfoldable pub allow : ℕ → ℕ → Text → ℕ → Dict RateKey ℕ → Bool × Dict RateKey ℕ
allow limit window key now m =
    if nat_eq limit 0
    then (true, m)
    else admit limit (record { key = key; window = now / window })
        (if ltb 20000 (length m) then sweep (now / window) m else m)
