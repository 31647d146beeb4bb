-- ===== src/Kube/Memory/Laws.antt =====
-- The server in memory meets what Contents assumes of the real one.
use vercel_clone.Prelude.{
  ℕ, suc, ◌≡◌, refl, sym, ap, ◌∙◌, ◌⊎◌, inl, inr, true, false, nat_eq, ◌&&◌, Option, none, some, [],
  ◌==◌, Bool-cases, Option-cases, eq_refl, arith, if◌then◌else◌,
}
use vercel_clone.Prelude.Text.{Text, codes, text_key}
use vercel_clone.Prelude.Result.{Result, ok}
use vercel_clone.Prelude.Dict.{get, put, get-put}
use vercel_clone.Prelude.Json.{
  Json, Fields, str, num, bool, arr, obj, get_field, set_field, member, get_field-set_field_other,
}
use vercel_clone.Kube
use vercel_clone.Kube.{
  Request, create, read, replace, list, write_scale, Server, set_version, version_of, is_success,
}
use vercel_clone.Kube.Contents.{Contents, Unchanged, Written}
use vercel_clone.Kube.Memory.{
  path_key, State, Body, nothing, an_object, stored, name_of, create_at, object_in, read_at,
  replace_at, memory,
}

abbrev pub spec_of : ℕ × Json → Option Json
spec_of (n, o) = member (codes "spec") o

abbrev pub spec_in : Option (ℕ × Json) → Option (Option Json)
spec_in none = none
spec_in (some v) = some (spec_of v)

abbrev pub version_in : Option (ℕ × Json) → Text
version_in none = []
version_in (some (n, o)) = version_of (stored (n, o))

-- A version stands in the metadata, not in the spec.
pub spec-set_version :
    (rv : Text) (o : Json) → member (codes "spec") (set_version rv o) ≡ member (codes "spec") o
unfolding set_version
spec-set_version rv (str s) = refl
spec-set_version rv (num n) = refl
spec-set_version rv (bool b) = refl
spec-set_version rv (arr xs) = refl
spec-set_version rv (obj fs) = spec-metadata_set (get_field (codes "metadata") fs)
  where
    spec-metadata_set :
        (o : Option Json)
        → member (codes "spec") (Kube.metadata_set rv fs o) ≡ get_field (codes "spec") fs
    spec-metadata_set none = refl
    spec-metadata_set (some (str s)) = refl
    spec-metadata_set (some (num n)) = refl
    spec-metadata_set (some (bool b)) = refl
    spec-metadata_set (some (arr xs)) = refl
    spec-metadata_set (some (obj md)) =
        get_field-set_field_other (codes "spec") (codes "metadata")
          (obj (set_field (codes "resourceVersion") (str rv) md)) fs refl

pub spec_in-put :
    (s : State) (path name p n : Text) (v : ℕ × Json)
    → spec_in (get (put s (path, name) v) (p, n))
      ≡ (if p == path && n == name then some (spec_of v) else spec_in (get s (p, n)))
spec_in-put s path name p n v =
    ap spec_in (get-put s (path, name) (p, n) v)
    ∙ (elim (Bool-cases (p == path && n == name)) [ inl e ↦ rw e refl | inr e ↦ rw e refl ])

pub read_kept :
    (s : State) (found : Option (ℕ × Json)) (p n : Text)
    → spec_in (get (read_at s found).1 (p, n)) ≡ spec_in (get s (p, n))
read_kept s none p n = refl
read_kept s (some v) p n = refl

pub taken_of :
    (o : Option (ℕ × Json)) (v : Option Json) → spec_in o ≡ some v → (w : ℕ × Json) × (o ≡ some w)
taken_of none v h = ground (arith, h)
taken_of (some w) v h = (w, refl)

pub free_of : (o : Option (ℕ × Json)) → spec_in o ≡ none → o ≡ none
free_of none h = refl
free_of (some w) h = ground (arith, h)

pub name_found :
    (fs md : Fields) (name : Text)
    → get_field (codes "metadata") fs ≡ some (obj md)
    → get_field (codes "name") md ≡ some (str name)
    → name_of (obj fs) ≡ name
name_found fs md name hm hn = rw hm (rw hn refl)

abbrev status_in : Result (ℕ × Body) → ℕ
status_in (Result.err e) = 0
status_in (ok (status, b)) = status

abbrev pub body_in : Result (ℕ × Body) → Body
body_in (Result.err e) = nothing
body_in (ok (status, b)) = b

-- A refusal of the server in memory is no success.
refused_success :
    (found status : ℕ) (b : Body) (r : Result (ℕ × Body))
    → r ≡ ok (status, b)
    → status_in r ≡ found
    → is_success found ≡ false
    → is_success status ≡ true
    → ⊥
refused_success found status b r q at_found bad good =
    let same : status ≡ found = sym (ap status_in q) ∙ at_found in
    let denied : is_success status ≡ false = ap is_success same ∙ bad in
    ground (arith, good, denied)

-- What the answers of the server in memory leave.
pub create_any_at :
    (s : State) (path name : Text) (o : Json)
    → Unchanged
        (λ p n. spec_in (get s (p, n)))
        (λ p n. spec_in (get (create_at (path, name) o s (get s (path, name))).1 (p, n)))
      ⊎ Written
          (λ p n. spec_in (get s (p, n)))
          (λ p n. spec_in (get (create_at (path, name) o s (get s (path, name))).1 (p, n)))
          path
          name
          (member (codes "spec") o)
create_any_at s path name o = elim (Option-cases (get s (path, name))) [
  | inl e ↦ rw e (inr (λ p n. spec_in-put s path name p n (0, o)))
  | inr (w, e) ↦ rw e (inl (λ p n. refl))
]

pub create_success_at :
    (s : State) (path name : Text) (o : Json) (status : ℕ) (b : Body)
    → (create_at (path, name) o s (get s (path, name))).0 ≡ ok (status, b)
    → is_success status ≡ true
    → Written
        (λ p n. spec_in (get s (p, n)))
        (λ p n. spec_in (get (create_at (path, name) o s (get s (path, name))).1 (p, n)))
        path
        name
        (member (codes "spec") o)
create_success_at s path name o status b q good = elim (Option-cases (get s (path, name))) [
  | inl e ↦ rw e (λ p n. spec_in-put s path name p n (0, o))
  | inr (w, e) ↦ absurd (
      refused_success 409 status b (create_at (path, name) o s (get s (path, name))).0 q (rw e refl)
        refl good)
]

pub create_conflict_at :
    (s : State) (k : Text × Text) (o : Json) (b : Body) (s' : State) (found : Option (ℕ × Json))
    → create_at k o s found ≡ (ok (409, b), s')
    → s' ≡ s
create_conflict_at s k o b s' none q =
    let off : 201 ≡ 409 = ap (λ x. status_in x.0) q in absurd (omega (arith, off))
create_conflict_at s k o b s' (some w) q = sym (ap (λ x. x.1) q)

pub replace_any_at :
    (s : State) (path name : Text) (o : Json) (found : Option (ℕ × Json))
    → Unchanged
        (λ p n. spec_in (get s (p, n)))
        (λ p n. spec_in (get (replace_at (path, name) o s found).1 (p, n)))
      ⊎ Written
          (λ p n. spec_in (get s (p, n)))
          (λ p n. spec_in (get (replace_at (path, name) o s found).1 (p, n)))
          path
          name
          (member (codes "spec") o)
replace_any_at s path name o none = inl (λ p n. refl)
replace_any_at s path name o (some (c, old)) =
    elim (Bool-cases (version_of o == version_of (stored (c, old)))) [
      | inl e ↦ rw e (inr (λ p n. spec_in-put s path name p n (suc c, o)))
      | inr e ↦ rw e (inl (λ p n. refl))
    ]

pub replace_success_at :
    (s : State) (path name : Text) (o : Json) (found : Option (ℕ × Json)) (status : ℕ) (b : Body)
    → (replace_at (path, name) o s found).0 ≡ ok (status, b)
    → is_success status ≡ true
    → Written
        (λ p n. spec_in (get s (p, n)))
        (λ p n. spec_in (get (replace_at (path, name) o s found).1 (p, n)))
        path
        name
        (member (codes "spec") o)
replace_success_at s path name o none status b q good =
    absurd (refused_success 404 status b (ok (404, nothing)) q refl refl good)
replace_success_at s path name o (some (c, old)) status b q good =
    elim (Bool-cases (version_of o == version_of (stored (c, old)))) [
      | inl e ↦ rw e (λ p n. spec_in-put s path name p n (suc c, o))
      | inr e ↦ absurd (
          refused_success 409 status b (replace_at (path, name) o s (some (c, old))).0 q (rw e refl)
            refl good)
    ]

pub replace_current_at :
    (s : State) (k : Text × Text) (o : Json) (found : Option (ℕ × Json)) (status : ℕ) (b : Body)
    → (replace_at k o s found).0 ≡ ok (status, b)
    → version_of o ≡ version_in found
    → nat_eq status 409 ≡ false
replace_current_at s k o none status b q current =
    let found : 404 ≡ status = ap status_in q in rw (← found) refl
replace_current_at s k o (some (c, old)) status b q current =
    let same : (version_of o == version_of (stored (c, old))) ≡ true =
      rw current (eq_refl (version_of (stored (c, old)))) in
    let found : 200 ≡ status = ap status_in (rw same at q) in rw (← found) refl

pub read_version_at :
    (found : Option (ℕ × Json)) (s : State) (b : Body) (e : Json)
    → (read_at s found).0 ≡ ok (200, b)
    → object_in b ≡ some e
    → version_of e ≡ version_in found
read_version_at none s b e q h = let off : 404 ≡ 200 = ap status_in q in absurd (omega (arith, off))
read_version_at (some (c, o)) s b e q h =
    let answered : an_object (stored (c, o)) ≡ b = ap body_in q in
    let found : some (stored (c, o)) ≡ some e = ap object_in answered ∙ h in
    let same : stored (c, o) ≡ e = cc found in sym (ap version_of same)

pub read_state : (s : State) (found : Option (ℕ × Json)) → (read_at s found).1 ≡ s
read_state s none = refl
read_state s (some v) = refl

pub read_kept_at :
    (s s' : State) (found : Option (ℕ × Json)) (r : Result (ℕ × Body))
    → read_at s found ≡ (r, s')
    → (p n : Text) → spec_in (get s' (p, n)) ≡ spec_in (get s (p, n))
read_kept_at s s' found r q p n =
    let same : (read_at s found).1 ≡ s' = ap (λ x. x.1) q in rw (← same) (read_kept s found p n)

-- The request's laws, at the state that it leaves.
abbrev pub memory_contents : Contents memory
memory_contents = record {
  Spec = Option Json;
  spec = member (codes "spec");
  contents = λ s path name. spec_in (get s (path, name));
  version = λ s path name. version_in (get s (path, name));
  spec-set_version = spec-set_version;
  create_any = λ path name fs md s s' r hm hn q.
      let named = name_found fs md name hm hn in
      let left : (create_at (path, name) (obj fs) s (get s (path, name))).1 ≡ s' =
        ap (λ x. x.1) (rw named at q) in
      rw (← left) (create_any_at s path name (obj fs));
  create_success = λ path name fs md s s' status b hm hn q good.
      let named = name_found fs md name hm hn in
      let left : (create_at (path, name) (obj fs) s (get s (path, name))).1 ≡ s' =
        ap (λ x. x.1) (rw named at q) in
      rw (← left)
        (create_success_at s path name (obj fs) status b (ap (λ x. x.0) (rw named at q)) good);
  create_conflict = λ path o s s' b q p n.
      ap (λ t. spec_in (get t (p, n)))
        (create_conflict_at s (path, name_of o) o b s' (get s (path, name_of o)) q);
  read_any = λ path name s s' r q. read_kept_at s s' (get s (path, name)) r q;
  read_success = λ path name s s' b e q h.
      let left : (read_at s (get s (path, name))).1 ≡ s' = ap (λ x. x.1) q in
      read_version_at (get s (path, name)) s b e (ap (λ x. x.0) q) h
      ∙ ap (λ t. version_in (get t (path, name))) (sym (read_state s (get s (path, name))) ∙ left);
  replace_any = λ path name o s s' r q.
      let left : (replace_at (path, name) o s (get s (path, name))).1 ≡ s' = ap (λ x. x.1) q in
      rw (← left) (replace_any_at s path name o (get s (path, name)));
  replace_success = λ path name o s s' status b q good.
      let left : (replace_at (path, name) o s (get s (path, name))).1 ≡ s' = ap (λ x. x.1) q in
      rw (← left)
        (replace_success_at s path name o (get s (path, name)) status b (ap (λ x. x.0) q) good);
  replace_current = λ path name o s s' status b q current.
      replace_current_at s (path, name) o (get s (path, name)) status b (ap (λ x. x.0) q) current;
}
