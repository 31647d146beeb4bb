-- ===== src/Waitlist/Examples.antt =====
-- The theorems on the waitlist at one signup.
use vercel_clone.Prelude.{◌≤◌, Bool, [], ◌∷◌, arith}
use vercel_clone.Prelude.Text.{codes}
use vercel_clone.Prelude.Table.{count}
use vercel_clone.Store.{Signup, Database}
use vercel_clone.Store.Examples.{database}
use vercel_clone.Waitlist.{WaitlistRequest, new_signup}

abbrev grace : Signup
grace = new_signup (codes "grace@navy.mil") (codes "other") (codes "Grace") [] 3

abbrev waiting : Database
waiting = record database { waitlist_signups = grace ∷ [] }

abbrev again : WaitlistRequest
again = record {
  email = codes " Grace@Navy.mil";
  use_case = codes "hackathon";
  name = [];
  college = codes "Yale";
}

single_le : (test : Signup → Bool) (s : Signup) → count test (s ∷ []) ≤ 1
single_le test s = ground arith
