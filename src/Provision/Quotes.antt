-- ===== src/Provision/Quotes.antt =====
-- What Postgres reads in a statement that the provisioner has put together.
use vercel_clone.Prelude.{
  ℕ, ◌≡◌, refl, ap, ◌∙◌, inl, inr, Bool, true, false, Option, none, some, [], ◌∷◌, ◌++◌, nat_eq,
  Bool-cases, arith, if◌then◌else◌,
}
use mathlib.Core.List.{append_assoc}
use vercel_clone.Prelude.Text.{Text, codes}
use vercel_clone.Prelude.Json.{and_then}
use vercel_clone.Provision.{double, quoted, role_statement}

abbrev cons_read : ℕ → Option (Text × Text) → Option (Text × Text)
cons_read c none = none
cons_read c (some (s, rest)) = some (c ∷ s, rest)

-- A quoted text behind its first quote: up to a quote that no second one follows.
abbrev pub read_body : ℕ → Text → Option (Text × Text)
read_body q [] = none
read_body q (c ∷ []) = if nat_eq c q then some ([], []) else none
read_body q (c ∷ d ∷ s) =
    let closed : Option (Text × Text) =
      if nat_eq d q then cons_read q (read_body q s) else some ([], d ∷ s) in
    let more = cons_read c (read_body q (d ∷ s)) in if nat_eq c q then closed else more

-- A quoted text and what follows it.
abbrev pub read_quoted : ℕ → Text → Option (Text × Text)
read_quoted q [] = none
read_quoted q (c ∷ s) = if nat_eq c q then read_body q s else none

-- The text behind a keyword.
abbrev pub behind : Text → Text → Option Text
behind [] s = some s
behind (p ∷ ps) [] = none
behind (p ∷ ps) (c ∷ s) = if nat_eq p c then behind ps s else none

pub behind-append : (p s : Text) → behind p (p ++ s) ≡ some s
behind-append [] s = refl
behind-append (c ∷ p) s = ground (arith, behind-append p s)

abbrev FirstNot : ℕ → Text → Type 0
FirstNot q [] = Unit
FirstNot q (c ∷ s) = nat_eq c q ≡ false

read_body-nil : (q : ℕ) (rest : Text) → FirstNot q rest → read_body q (q ∷ rest) ≡ some ([], rest)
read_body-nil q [] h = ground arith
read_body-nil q (c ∷ rest) h = ground arith

nat_self : (q : ℕ) → nat_eq q q ≡ true
nat_self q = ground arith

-- What is doubled is never empty before the closing quote.
read_body-other :
    (q c : ℕ) (s rest : Text)
    → nat_eq c q ≡ false
    → read_body q (c ∷ (double q s ++ q ∷ rest))
      ≡ cons_read c (read_body q (double q s ++ q ∷ rest))
read_body-other q c [] rest h = rw h refl
read_body-other q c (d ∷ s) rest h = elim (Bool-cases (nat_eq d q)) [
  | inl e ↦ rw e (rw h refl)
  | inr e ↦ rw e (rw h refl)
]

pub read_body-double :
    (q : ℕ) (s rest : Text)
    → FirstNot q rest
    → read_body q (double q s ++ q ∷ rest) ≡ some (s, rest)
read_body-double q [] rest h = read_body-nil q rest h
read_body-double q (c ∷ s) rest h = elim (Bool-cases (nat_eq c q)) [
  | inl e ↦
      let same : c ≡ q = ground arith in
      rw same (rw (nat_self q) (rw (nat_self q) (rw (read_body-double q s rest h) refl)))
  | inr e ↦ rw e (read_body-other q c s rest e ∙ ap (cons_read c) (read_body-double q s rest h))
]

pub read_quoted-quoted :
    (q : ℕ) (s rest : Text) → FirstNot q rest → read_quoted q (quoted q s ++ rest) ≡ some (s, rest)
read_quoted-quoted q s rest h =
    rw (nat_self q) (rw (append_assoc (double q s) (q ∷ []) rest) (read_body-double q s rest h))

abbrev keyword : Bool → Text
keyword false = codes "CREATE ROLE "
keyword true = codes "ALTER ROLE "

abbrev password_keyword : Bool → Text
password_keyword false = codes " WITH LOGIN PASSWORD "
password_keyword true = codes " WITH PASSWORD "

abbrev options : Bool → Text
options false = codes " NOSUPERUSER NOCREATEDB NOCREATEROLE INHERIT"
options true = []

abbrev role_and_rest : Bool → Text × Text → Option (Text × (Text × Text))
role_and_rest known (role, s) =
    and_then (behind (password_keyword known) s)
      (λ t. and_then (read_quoted b'\'' t) (λ read. some (role, read)))

-- A statement on a role, read back: its role, its password, and what stands behind them.
abbrev pub read_role_statement : Bool → Text → Option (Text × (Text × Text))
read_role_statement known s =
    and_then (behind (keyword known) s) (λ t. and_then (read_quoted b'"' t) (role_and_rest known))

parts :
    (known : Bool) (role password : Text)
    → role_statement known role password
      ≡ keyword known
        ++ (quoted b'"' role
            ++ (password_keyword known ++ (quoted b'\'' password ++ options known)))
unfolding role_statement
parts false role password = refl
parts true role password = refl

spaced : (known : Bool) (s : Text) → FirstNot b'"' (password_keyword known ++ s)
spaced false s = refl
spaced true s = refl

unquoted : (known : Bool) → FirstNot b'\'' (options known)
unquoted false = refl
unquoted true = tt

-- Whatever bytes the role's name and the password have, Postgres reads just them in the statement, and
-- behind the password the options alone: no password can end its literal and bring a command of its
-- own.
pub read_role_statement-role_statement :
    (known : Bool) (role password : Text)
    → read_role_statement known (role_statement known role password)
      ≡ some (role, (password, options known))
read_role_statement-role_statement known role password = rw (parts known role password) (
    rw
      (behind-append (keyword known)
        (quoted b'"' role ++ (password_keyword known ++ (quoted b'\'' password ++ options known))))
      (rw
        (read_quoted-quoted b'"' role
          (password_keyword known ++ (quoted b'\'' password ++ options known))
          (spaced known (quoted b'\'' password ++ options known)))
        (rw (behind-append (password_keyword known) (quoted b'\'' password ++ options known))
          (rw (read_quoted-quoted b'\'' password (options known) (unquoted known)) refl))))
