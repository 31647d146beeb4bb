-- ===== src/Kube/Contents.antt =====
-- What the API server keeps of the objects that this client writes, and what the client's `apply` does
-- to that.
pub mod Applied
use vercel_clone.Prelude.{
  ℕ, ◌≡◌, ◌⊎◌, Bool, true, false, ◌&&◌, ◌||◌, Option, none, some, List, nat_eq, ◌==◌, if◌then◌else◌,
}
use vercel_clone.Prelude.Text.{Text, codes, text_key}
use vercel_clone.Prelude.Result.{Result, ok, err}
use vercel_clone.Prelude.Json.{Json, str, obj, Fields, get_field}
use vercel_clone.Kube.{Server, create, read, replace, is_success, set_version, version_of}

-- Two maps agree.
abbrev pub Unchanged : {A : Type 0} → (Text → Text → A) → (Text → Text → A) → Type 0
Unchanged before after = (p n : Text) → after p n ≡ before p n

-- One map is the other with a value at one name of one collection.
abbrev pub Written :
    {A : Type 0} → (Text → Text → Option A) → (Text → Text → Option A) → Text → Text → A → Type 0
Written before after path name v =
    (p n : Text) → after p n ≡ (if p == path && n == name then some v else before p n)

-- Under a collection and a name, what an object there specifies, without the version that the server
-- counts; the objects that others write may be left out. Any request may be refused or get lost, and
-- one that got lost may have been served.
pub record Contents (S : Server) : Type 1 where
  pub Spec : Type 0
  pub spec : Json → Spec
  pub contents : S.State → Text → Text → Option Spec
  pub version : S.State → Text → Text → Text
  pub spec-set_version : (rv : Text) (o : Json) → spec (set_version rv o) ≡ spec o
  -- A POST writes the object or nothing; it has written it if it answers with 2xx, and nothing if it
  -- answers with 409.
  pub create_any :
      (path name : Text) (fs md : Fields) (s s' : S.State) (r : Result (ℕ × S.Body))
      → get_field (codes "metadata") fs ≡ some (obj md)
      → get_field (codes "name") md ≡ some (str name)
      → S.serve (create path (obj fs)) s ≡ (r, s')
      → Unchanged (contents s) (contents s')
        ⊎ Written (contents s) (contents s') path name (spec (obj fs))
  pub create_success :
      (path name : Text) (fs md : Fields) (s s' : S.State) (status : ℕ) (b : S.Body)
      → get_field (codes "metadata") fs ≡ some (obj md)
      → get_field (codes "name") md ≡ some (str name)
      → S.serve (create path (obj fs)) s ≡ (ok (status, b), s')
      → is_success status ≡ true
      → Written (contents s) (contents s') path name (spec (obj fs))
  pub create_conflict :
      (path : Text) (o : Json) (s s' : S.State) (b : S.Body)
      → S.serve (create path o) s ≡ (ok (409, b), s')
      → Unchanged (contents s) (contents s')
  -- A GET writes nothing, and answers with 200 and the version of the object.
  pub read_any :
      (path name : Text) (s s' : S.State) (r : Result (ℕ × S.Body))
      → S.serve (read path name) s ≡ (r, s')
      → Unchanged (contents s) (contents s')
  pub read_success :
      (path name : Text) (s s' : S.State) (b : S.Body) (e : Json)
      → S.serve (read path name) s ≡ (ok (200, b), s')
      → S.decode_object b ≡ some e
      → version_of e ≡ version s' path name
  -- A PUT writes the object or nothing, it has written it if it answers with 2xx, and it does not
  -- conflict if it has the version that is kept.
  pub replace_any :
      (path name : Text) (o : Json) (s s' : S.State) (r : Result (ℕ × S.Body))
      → S.serve (replace path name o) s ≡ (r, s')
      → Unchanged (contents s) (contents s') ⊎ Written (contents s) (contents s') path name (spec o)
  pub replace_success :
      (path name : Text) (o : Json) (s s' : S.State) (status : ℕ) (b : S.Body)
      → S.serve (replace path name o) s ≡ (ok (status, b), s')
      → is_success status ≡ true
      → Written (contents s) (contents s') path name (spec o)
  pub replace_current :
      (path name : Text) (o : Json) (s s' : S.State) (status : ℕ) (b : S.Body)
      → S.serve (replace path name o) s ≡ (ok (status, b), s')
      → version_of o ≡ version s path name
      → nat_eq status 409 ≡ false

-- Whether there is an answer, and of such a status.
abbrev pub answers : {A : Type 0} → (ℕ → Bool) → Result (ℕ × A) → Bool
answers good (err _) = false
answers good (ok (status, _)) = good status

-- 2xx or 409.
abbrev pub is_settled : ℕ → Bool
is_settled status = is_success status || nat_eq status 409

-- What a server may answer that keeps an object from being applied: to the POST, or after a conflict to
-- the GET, or to the PUT with the version that the GET answered with.
pub data IsRefused (S : Server) (path name : Text) (o : Json) (s : S.State) : Type 0 where
  not_created : answers is_settled (S.serve (create path o) s).0 ≡ false → IsRefused S path name o s
  not_read :
      answers (λ c. nat_eq c 200) (S.serve (read path name) (S.serve (create path o) s).1).0 ≡ false
      → IsRefused S path name o s
  not_decoded :
      (b : S.Body)
      → (S.serve (read path name) (S.serve (create path o) s).1).0 ≡ ok (200, b)
      → S.decode_object b ≡ none
      → IsRefused S path name o s
  not_replaced :
      (b : S.Body) (e : Json)
      → (S.serve (read path name) (S.serve (create path o) s).1).0 ≡ ok (200, b)
      → S.decode_object b ≡ some e
      → answers is_settled
          (S.serve
            (replace path name (set_version (version_of e) o))
            (S.serve (read path name) (S.serve (create path o) s).1).1).0
        ≡ false
      → IsRefused S path name o s

module _ {S : Server} (C : Contents S) where
  -- The object is written and there is no error; or the server refused it, that is reported, and at
  -- most the object is written.
  abbrev pub Applies : Text → Text → Json → S.State → Result (Unit {0}) × S.State → Type 0
  Applies path name o s (r, s') =
      ((r ≡ ok tt) × Written (C.contents s) (C.contents s') path name (C.spec o))
      ⊎ (((e : Text) × (r ≡ err e))
          × IsRefused S path name o s
          × (Unchanged (C.contents s) (C.contents s')
              ⊎ Written (C.contents s) (C.contents s') path name (C.spec o)))
