-- ===== src/RateLimit/Examples.antt =====
-- The limiter at three calls of one address.
use vercel_clone.Prelude.{ℕ, ◌+◌, ◌≤◌, List, [], ◌∷◌, arith}
use vercel_clone.Prelude.Text.{Text, codes}
use vercel_clone.RateLimit.{RateKey, count_of}
use vercel_clone.RateLimit.Windows.{count_allowed, allow-bounded}

abbrev address : RateKey
address = record { key = codes "ip"; window = 1 }

abbrev calls : List (Text × ℕ)
calls = (codes "ip", 60) ∷ (codes "ip", 61) ∷ (codes "ip", 62) ∷ []

allow-bounded_example : count_of [] address + count_allowed 2 60 address calls [] ≤ 2
allow-bounded_example =
    allow-bounded 2 60 address calls [] (omega arith)
      (omega arith, (omega arith, (omega arith, tt))) (omega arith)
