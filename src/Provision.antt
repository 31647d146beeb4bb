-- ===== src/Provision.antt =====
-- The Postgres role and database of a project (control-plane/db_provisioner.go).
--
-- Postgres is a parameter: whether a role or a database exists, and which statements fail. The
-- statements that are executed are listed in order. A password is text that `genPassword` makes.
pub mod Quotes
pub mod Names
pub mod Handlers
mod Examples
use vercel_clone.Prelude.{
  ℕ, Bool, true, false, not, ◌&&◌, ◌||◌, Option, none, some, List, [], ◌∷◌, ◌++◌, nat_eq, ltb, leb,
  ◌==◌, length, keep, take, if◌then◌else◌,
}
use vercel_clone.Prelude.Text.{Text, codes, text_key, to_lower}
use vercel_clone.Prelude.Result.{Result, ok, err}

abbrev pub is_digit : ℕ → Bool
is_digit c = leb b'0' c && leb c b'9'

abbrev pub is_ident_byte : ℕ → Bool
is_ident_byte c = leb b'a' c && leb c b'z' || (is_digit c || nat_eq c b'_')

abbrev pub all_ident_bytes : Text → Bool
all_ident_bytes [] = true
all_ident_bytes (c ∷ s) = is_ident_byte c && all_ident_bytes s

starts_with_digit : Text → Bool
starts_with_digit [] = false
starts_with_digit (c ∷ s) = is_digit c

-- No error of `validateIdent`.
unfoldable pub is_valid_ident : Text → Bool
unfolding starts_with_digit
is_valid_ident s =
    not (nat_eq (length s) 0)
    && not (ltb 63 (length s))
    && not (starts_with_digit s)
    && all_ident_bytes s

-- strings.ReplaceAll of a byte by two of it.
abbrev pub double : ℕ → Text → Text
double q [] = []
double q (c ∷ s) = if nat_eq c q then q ∷ q ∷ double q s else c ∷ double q s

abbrev pub quoted : ℕ → Text → Text
quoted q s = q ∷ (double q s ++ q ∷ [])

abbrev pub quote_ident : Text → Text
quote_ident = quoted b'"'

abbrev pub sql_single_quote : Text → Text
sql_single_quote = quoted b'\''

-- What Postgres answers: an error, or whether there is a role or database of the name.
pub record Postgres : Type 0 where
  -- `normalizeAdminURI` and the connection.
  pub connected : Result (Unit {0})
  pub role_exists : Text → Result Bool
  pub database_exists : Text → Result Bool
  pub fails : Text → Option Text

unfoldable pub role_statement : Bool → Text → Text → Text
role_statement false role password =
    codes "CREATE ROLE "
    ++ (quote_ident role
        ++ (codes " WITH LOGIN PASSWORD "
            ++ (sql_single_quote password ++ codes " NOSUPERUSER NOCREATEDB NOCREATEROLE INHERIT")))
role_statement true role password =
    codes "ALTER ROLE "
    ++ (quote_ident role ++ (codes " WITH PASSWORD " ++ (sql_single_quote password ++ [])))

unfoldable pub database_statements : Bool → Text → Text → List Text
database_statements true role db = []
database_statements false role db =
    (codes "CREATE DATABASE " ++ (quote_ident db ++ (codes " OWNER " ++ quote_ident role))) ∷ []

unfoldable pub lock_statements : Text → Text → List Text
lock_statements role db =
    (codes "REVOKE ALL ON DATABASE " ++ (quote_ident db ++ codes " FROM PUBLIC"))
    ∷ (codes "GRANT ALL ON DATABASE " ++ (quote_ident db ++ (codes " TO " ++ quote_ident role)))
    ∷ []

-- The statements in their order, up to the first that fails.
abbrev pub Run : Type 0
Run = Result (Unit {0}) × List Text

executed : Text → Option Text → Run → Run
executed q (some e) rest = (err e, q ∷ [])
executed q none (r, qs) = (r, q ∷ qs)

unfoldable pub execute : (Text → Option Text) → List Text → Run
unfolding executed
execute fails [] = (ok tt, [])
execute fails (q ∷ qs) = executed q (fails q) (execute fails qs)

infixl 4 ◌then_run◌
◌then_run◌ : Run → Run → Run
(err e, qs) then_run next = (err e, qs)
(ok _, qs) then_run (r, more) = (r, qs ++ more)

on_exists : Result Bool → (Bool → Run) → Run
on_exists (err e) run = (err e, [])
on_exists (ok b) run = run b

on_connected : Result (Unit {0}) → Run → Run
on_connected (err e) run = (err e, [])
on_connected (ok _) run = run

-- A statement that fails is listed too.
unfoldable pub provision : Postgres → Text → Text → Text → Run
unfolding on_connected on_exists ◌then_run◌
provision pg role db password =
    if not (is_valid_ident role)
    then (err (codes "role name"), [])
    else if not (is_valid_ident db)
    then (err (codes "db name"), [])
    else on_connected pg.connected (
        on_exists (pg.role_exists role)
          (λ b. execute pg.fails (role_statement b role password ∷ []))
        then_run on_exists (pg.database_exists db)
            (λ b. execute pg.fails (database_statements b role db))
        then_run execute pg.fails (lock_statements role db))

-- The first eight bytes of an id without its dashes, in lower case.
abbrev pub short_id : Text → Text
short_id id = to_lower (take 8 (keep (λ c. not (nat_eq c b'-')) id))
