-- ===== src/Waitlist/Rows.antt =====
-- The rows of the waitlist: sound ones, and one for an address.
use vercel_clone.Prelude.{
  ℕ, ◌≤◌, ◌≡◌, refl, sym, ap, ◌∙◌, inl, inr, Bool, true, false, Option, none, some, List, [], ◌∷◌,
  ◌==◌, length, length-take-le, Bool-cases, eq_of_==, is_some, All, All-append,
}
use vercel_clone.Prelude.Text.{Text, text_key, to_lower, trim_space}
use vercel_clone.Prelude.Dict.{Dict}
use vercel_clone.Prelude.Table.{
  find, count, All-update, count-update, count-append_one, count-absent,
}
use vercel_clone.Store.{User, Signup, Database, null_if_empty}
use vercel_clone.RateLimit.{RateKey, allow}
use vercel_clone.Auth.{coalesce, listed, is_operator, login_allowed}
use vercel_clone.Http.{Answer, done, refused}
use vercel_clone.Waitlist

-- A text of at most 120 bytes, if there is one.
abbrev pub IsShort : Option Text → Type 0
IsShort none = Unit
IsShort (some s) = length s ≤ 120

abbrev pub IsSound : Signup → Type 0
IsSound s = (listed Waitlist.valid_use_cases s.use_case ≡ true) × IsShort s.name × IsShort s.college

-- Sound rows, and one at most for an address in whatever case.
abbrev pub IsList : List Signup → Type 0
IsList ss = All IsSound ss × ((email : Text) → count (Waitlist.has_email email) ss ≤ 1)

null_if_empty-IsShort : (s : Text) → length s ≤ 120 → IsShort (null_if_empty s)
null_if_empty-IsShort s h = elim (Bool-cases (s == [])) [ inl e ↦ rw e tt | inr e ↦ rw e h ]

coalesce-IsShort : (a b : Option Text) → IsShort a → IsShort b → IsShort (coalesce a b)
coalesce-IsShort none b ha hb = hb
coalesce-IsShort (some s) b ha hb = ha

clipped-IsShort : (s : Text) → IsShort (null_if_empty (Waitlist.clipped s))
clipped-IsShort s = null_if_empty-IsShort (Waitlist.clipped s) (length-take-le 120 (trim_space s))

upsert-IsList :
    (email use_case name college : Text) (now : ℕ) (db : Database)
    → listed Waitlist.valid_use_cases use_case ≡ true
    → IsList db.waitlist_signups
    → IsList
        (Waitlist.upsert_waitlist_signup email use_case
          (Waitlist.clipped name)
          (Waitlist.clipped college)
          now
          db).waitlist_signups
unfolding Waitlist.upsert_waitlist_signup
upsert-IsList email use_case name college now db valid (sound, once) =
    elim (Bool-cases (is_some (find (Waitlist.has_email email) db.waitlist_signups))) [
      | inl e ↦
          let change =
            Waitlist.refresh_signup use_case (Waitlist.clipped name) (Waitlist.clipped college)
              now in
          rw e (
            All-update IsSound (Waitlist.has_email email) change
                (λ s _ h. (
                  valid,
                  coalesce-IsShort (null_if_empty (Waitlist.clipped name)) s.name
                      (clipped-IsShort name) h.1,
                  coalesce-IsShort (null_if_empty (Waitlist.clipped college)) s.college
                      (clipped-IsShort college) h.2,
                ))
                db.waitlist_signups sound,
            λ other.
                rw
                  (count-update (Waitlist.has_email other) (Waitlist.has_email email) change
                    (λ s. refl) db.waitlist_signups)
                  (once other),
          )
      | inr e ↦
          let row =
            Waitlist.new_signup email use_case (Waitlist.clipped name) (Waitlist.clipped college)
              now in
          rw e (
            All-append IsSound db.waitlist_signups (row ∷ []) sound
                ((valid, clipped-IsShort name, clipped-IsShort college), tt),
            λ other.
                count-append_one (Waitlist.has_email other) db.waitlist_signups row (once other)
                  (elim (Bool-cases (to_lower email == to_lower other)) [
                    | inr f ↦ inl f
                    | inl f ↦ inr (
                        ap (λ x. count (λ s. to_lower s.email == x) db.waitlist_signups)
                          (sym (eq_of_== f))
                        ∙ count-absent (Waitlist.has_email email) db.waitlist_signups e)
                  ]),
          )
    ]

-- What a join leaves: a list that is in order, and the one it found when it is refused.
abbrev pub Joins : Database → Answer (Unit {0}) × Database → Type 0
Joins db (done _, after) = IsList after.waitlist_signups
Joins db (refused _, after) = after ≡ db

join_decoded-Joins :
    (is_address : Text → Bool) (now : ℕ) (db : Database) (body : Option Waitlist.WaitlistRequest)
    → IsList db.waitlist_signups
    → Joins db (Waitlist.join_decoded is_address now db body)
unfolding Waitlist.join_decoded
join_decoded-Joins is_address now db none h = refl
join_decoded-Joins is_address now db (some body) h =
    elim (Bool-cases (Waitlist.signup_email body == [])) [
      | inl e ↦ rw e refl
      | inr e ↦ elim (Bool-cases (is_address (Waitlist.signup_email body))) [
        | inr a ↦ rw (e, a) refl
        | inl a ↦ elim (Bool-cases (listed Waitlist.valid_use_cases (trim_space body.use_case))) [
          | inr v ↦ rw (e, a, v) refl
          | inl v ↦
              rw (e, a, v)
                (upsert-IsList (Waitlist.signup_email body) (trim_space body.use_case) body.name
                  body.college now db v h)
        ]
      ]
    ]

join_limited-Joins :
    (is_address : Text → Bool) (body : Option Waitlist.WaitlistRequest) (now : ℕ) (db : Database)
    → IsList db.waitlist_signups
    → (r : Bool × Dict RateKey ℕ)
    → let (answer, _, after) = Waitlist.join_limited is_address body now db r in
      Joins db (answer, after)
unfolding Waitlist.join_limited
join_limited-Joins is_address body now db h (false, limits) = refl
join_limited-Joins is_address body now db h (true, limits) =
    join_decoded-Joins is_address now db body h

-- Where every signup has a known use case and a name and a college of at most 120 bytes, and no
-- address is there twice, in whatever case: a POST to the waitlist leaves a list that is such again
-- when it succeeds, and the database as it was when it is answered with an error.
pub handle_join_waitlist-Joins :
    (is_address : Text → Bool) (is_post : Bool) (ip : Text) (body : Option Waitlist.WaitlistRequest)
    (now : ℕ) (limits : Dict RateKey ℕ) (db : Database)
    → IsList db.waitlist_signups
    → let (answer, _, after) =
        Waitlist.handle_join_waitlist is_address is_post ip body now limits db in
      Joins db (answer, after)
unfolding Waitlist.handle_join_waitlist
handle_join_waitlist-Joins is_address is_post ip body now limits db h = elim (Bool-cases is_post) [
  | inr e ↦ rw e refl
  | inl e ↦ rw e (
      join_limited-Joins is_address body now db h
        (allow Waitlist.join_limit Waitlist.join_window ip now limits))
]

-- Where the list of logins in the environment has no login, the admin endpoint of the waitlist gives
-- every signup to every user that is signed in.
pub handle_admin_waitlist_open :
    (u : User) (db : Database)
    → Waitlist.handle_admin_waitlist [] (some u) db ≡ done (Waitlist.list_waitlist_signups db)
unfolding Waitlist.handle_admin_waitlist is_operator login_allowed
handle_admin_waitlist_open u db = elim (Bool-cases u.is_admin) [
  | inl e ↦ rw e refl
  | inr e ↦ rw e refl
]
