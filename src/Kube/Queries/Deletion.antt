-- ===== src/Kube/Queries/Deletion.antt =====
-- What `deleteAllByLabel` of the client leaves of a collection.
use vercel_clone.Prelude.{
  ℕ, ◌≡◌, refl, ◌⊎◌, inl, inr, Bool, true, false, not, ◌&&◌, ◌||◌, none, some, List, [], ◌∷◌,
  nat_eq, ◌==◌, Bool-cases, Option-cases, eq_refl, arith,
}
use vercel_clone.Prelude.Text.{Text, codes, text_key}
use vercel_clone.Prelude.Result.{Result, ok, err}
use vercel_clone.Kube.{Server, list, remove, is_success, collection}
use vercel_clone.Kube.Contents.{Unchanged, answers}
use vercel_clone.Kube.Queries.{
  delete_resource, delete_names, list_resource_names, rooted, delete_all_by_label,
}
use vercel_clone.Kube.Queries

abbrev pub is_member : Text → List Text → Bool
is_member n [] = false
is_member n (x ∷ xs) = n == x || is_member n xs

-- At most the one name of the one collection is no longer there.
abbrev pub Ended : (Text → Text → Bool) → (Text → Text → Bool) → Text → Text → Type 0
Ended before after path name =
    (p n : Text) → after p n ≡ (before p n && not (p == path && n == name))

-- The objects that are there and not being deleted, and the names that a label selector picks. Any
-- request may be refused or get lost, and one that got lost may have been served. A DELETE that answers
-- with 2xx has at least begun, and one that answers with 404 has found nothing.
pub record Deletions (S : Server) : Type 0 where
  pub is_live : S.State → Text → Text → Bool
  pub selects : S.State → Text → Text → Text → Bool
  pub list_any :
      (path selector : Text) (s s' : S.State) (r : Result (ℕ × S.Body))
      → S.serve (list path selector) s ≡ (r, s')
      → Unchanged (is_live s) (is_live s')
  pub list_success :
      (path selector : Text) (s s' : S.State) (b : S.Body) (names : List Text)
      → S.serve (list path selector) s ≡ (ok (200, b), s')
      → S.decode_names b ≡ some names
      → (n : Text) → is_member n names ≡ selects s path selector n
  pub remove_any :
      (path name : Text) (s s' : S.State) (r : Result (ℕ × S.Body))
      → S.serve (remove path name) s ≡ (r, s')
      → Unchanged (is_live s) (is_live s') ⊎ Ended (is_live s) (is_live s') path name
  pub remove_success :
      (path name : Text) (s s' : S.State) (status : ℕ) (b : S.Body)
      → S.serve (remove path name) s ≡ (ok (status, b), s')
      → (is_success status || nat_eq status 404) ≡ true
      → Ended (is_live s) (is_live s') path name

-- 200 or 404.
abbrev pub is_gone : ℕ → Bool
is_gone status = nat_eq status 404 || nat_eq status 200

module _ {S : Server} (D : Deletions S) where
  -- Some of what is picked may be gone, and nothing else.
  abbrev pub Thinned : (Text → Bool) → Text → S.State → S.State → Type 0
  Thinned picked path s s' =
      (p n : Text)
      → (D.is_live s' p n ≡ D.is_live s p n)
        ⊎ (((p == path && picked n) ≡ true) × (D.is_live s' p n ≡ false))

  -- All that is picked is gone, and nothing else.
  abbrev pub Cleared : (Text → Bool) → Text → S.State → S.State → Type 0
  Cleared picked path s s' =
      (p n : Text) → D.is_live s' p n ≡ (D.is_live s p n && not (p == path && picked n))

  -- The DELETE of a name that is picked is not answered with 200 or 404.
  abbrev pub IsKept : (Text → Bool) → Text → Type 0
  IsKept picked path =
      (name : Text) × (s : S.State) × (picked name ≡ true)
      × (answers is_gone (S.serve (remove path name) s).0 ≡ false)

  abbrev pub Clears : (Text → Bool) → Text → S.State → Result (Unit {0}) × S.State → Type 0
  Clears picked path s (r, s') =
      ((r ≡ ok tt) × Cleared picked path s s')
      ⊎ (((e : Text) × (r ≡ err e)) × IsKept picked path × Thinned picked path s s')

  partial_first :
      (path name : Text) (names : List Text) (s s' : S.State) (r : Result (ℕ × S.Body))
      → S.serve (remove path name) s ≡ (r, s')
      → Thinned (λ n. is_member n (name ∷ names)) path s s'
  partial_first path name names s s' r q p n = elim (D.remove_any path name s s' r q) [
    | inl u ↦ inl (u p n)
    | inr gone ↦
        one_gone (p == path) (n == name) (is_member n names) (D.is_live s p n) (D.is_live s' p n)
          (gone p n)
  ]
    where
      one_gone :
          (a b c x y : Bool)
          → y ≡ (x && not (a && b))
          → (y ≡ x) ⊎ (((a && (b || c)) ≡ true) × (y ≡ false))
      one_gone a b c x y h = ground (arith, h)

  cleared_both :
      (a b c x y z : Bool)
      → y ≡ (x && not (a && b))
      → z ≡ (y && not (a && c))
      → z ≡ (x && not (a && (b || c)))
  cleared_both a b c x y z h k = ground (arith, h, k)

  thinned_both :
      (a b c x y z : Bool)
      → y ≡ (x && not (a && b))
      → (z ≡ y) ⊎ (((a && c) ≡ true) × (z ≡ false))
      → (z ≡ x) ⊎ (((a && (b || c)) ≡ true) × (z ≡ false))
  thinned_both a b c x y z h k = ground (arith, h, k)

  delete_names_next :
      (path name : Text) (names : List Text) (s s1 : S.State)
      → Ended (D.is_live s) (D.is_live s1) path name
      → (out : Result (Unit {0}) × S.State) → Clears (λ n. is_member n names) path s1 out
      → Clears (λ n. is_member n (name ∷ names)) path s out
  delete_names_next path name names s s1 gone (r, s') (inl (done, after)) = inl (
    done,
    λ p n.
        cleared_both (p == path) (n == name) (is_member n names) (D.is_live s p n)
          (D.is_live s1 p n) (D.is_live s' p n) (gone p n) (after p n),
  )
  delete_names_next path name names s s1 gone (r, s') (inr (failed, (x, t, picked, kept), after)) =
      inr (
        failed,
        (x, t, (ground (arith, picked)), kept),
        λ p n.
            thinned_both (p == path) (n == name) (is_member n names) (D.is_live s p n)
              (D.is_live s1 p n) (D.is_live s' p n) (gone p n) (after p n),
      )

  nothing_picked : (a x : Bool) → x ≡ (x && not (a && false))
  nothing_picked a x = ground arith

  delete_first :
      (path name : Text) (names : List Text) (s s1 : S.State) (r : Result (ℕ × S.Body))
      → S.serve (remove path name) s ≡ (r, s1)
      → Clears (λ n. is_member n names) path s1 (delete_names S path names s1)
      → Clears
          (λ n. is_member n (name ∷ names))
          path
          s
          (Queries.go_on S (Queries.deletion_answer S r, s1) (delete_names S path names))
  unfolding Queries.go_on Queries.deletion_answer
  delete_first path name names s s1 (err e) q rest = inr (
    (e, refl),
    (name, s, rw (eq_refl name) refl, rw q refl),
    partial_first path name names s s1 (err e) q,
  )
  delete_first path name names s s1 (ok (status, b)) q rest =
      elim (Bool-cases (nat_eq status 404)) [
        | inl absent ↦ rw absent (
            delete_names_next path name names s s1
              (D.remove_success path name s s1 status b q (ground (arith, absent)))
              (delete_names S path names s1) rest)
        | inr there ↦ elim (Bool-cases (nat_eq status 200)) [
          | inl done ↦
              rw (there, done)
                (delete_names_next path name names s s1
                  (D.remove_success path name s s1 status b q (ground (arith, done)))
                  (delete_names S path names s1) rest)
          | inr kept ↦
              rw (there, kept)
                (inr (
                  (codes "delete resource", refl),
                  (name, s, rw (eq_refl name) refl, rw q (rw (there, kept) refl)),
                  partial_first path name names s s1 (ok (status, b)) q,
                ))
        ]
      ]

  delete_names_lem :
      (path : Text) (names : List Text) (s : S.State)
      → Clears (λ n. is_member n names) path s (delete_names S path names s)
  unfolding delete_names delete_resource
  delete_names_lem path [] s = inl (refl, λ p n. nothing_picked (p == path) (D.is_live s p n))
  delete_names_lem path (name ∷ names) s =
      delete_first path name names s (S.serve (remove path name) s).1
        (S.serve (remove path name) s).0 refl
        (delete_names_lem path names (S.serve (remove path name) s).1)

  same_names :
      (f g : Text → Bool) (path : Text) (s s1 : S.State) (out : Result (Unit {0}) × S.State)
      → ((n : Text) → f n ≡ g n)
      → Unchanged (D.is_live s) (D.is_live s1)
      → Clears f path s1 out
      → Clears g path s out
  same_names f g path s s1 (r, s') same still (inl (done, after)) =
      inl (done, λ p n. rw (← same n, ← still p n) (after p n))
  same_names f g path s s1 (r, s') same still (inr (failed, (x, t, picked, kept), after)) =
      inr
        (failed, (x, t, rw (← same x) picked, kept), λ p n. rw (← same n, ← still p n) (after p n))

  -- The list is not answered with 200 and a list.
  abbrev pub IsUnlisted : Text → Text → S.State → Type 0
  IsUnlisted path selector s =
      (answers (λ c. nat_eq c 200) (S.serve (list path selector) s).0 ≡ false)
      ⊎ ((b : S.Body) × ((S.serve (list path selector) s).0 ≡ ok (200, b))
          × (S.decode_names b ≡ none))

  -- All that the selector picks is gone, or there is an error for a request that failed, and nothing
  -- is gone but some of what it picks.
  abbrev pub ClearsSelected : Text → Text → S.State → Result (Unit {0}) × S.State → Type 0
  ClearsSelected path selector s (r, s') =
      Clears (D.selects s path selector) path s (r, s')
      ⊎ (((e : Text) × (r ≡ err e))
          × IsUnlisted path selector s
          × Unchanged (D.is_live s) (D.is_live s'))

  listed_lem :
      (path selector : Text) (s s1 : S.State) (r : Result (ℕ × S.Body))
      → S.serve (list path selector) s ≡ (r, s1)
      → ClearsSelected path selector s (Queries.delete_listed S path (Queries.names_answer S r, s1))
  unfolding Queries.names_answer Queries.delete_listed Queries.decoded_names
  listed_lem path selector s s1 (err e) q =
      inr ((e, refl), inl (rw q refl), D.list_any path selector s s1 (err e) q)
  listed_lem path selector s s1 (ok (status, b)) q =
      let still = D.list_any path selector s s1 (ok (status, b)) q in
      elim (Bool-cases (nat_eq status 200)) [
        | inr off ↦ rw off (inr ((codes "list resources", refl), inl (rw q off), still))
        | inl good ↦
            let is_200 : status ≡ 200 = ground (arith, good) in
            elim (Option-cases (S.decode_names b)) [
              | inl bad ↦
                  rw (good, bad)
                    (inr ((codes "decode list", refl), inr (b, rw (q, is_200) refl, bad), still))
              | inr (names, decoded) ↦
                  rw (good, decoded)
                    (inl (
                      same_names (λ n. is_member n names) (D.selects s path selector) path s s1
                        (delete_names S path names s1)
                        (D.list_success path selector s s1 b names (rw (q, is_200) refl) decoded)
                        still (delete_names_lem path names s1)))
            ]
      ]

  -- Whatever the server answers: either every object that the selector picks from the collection is no
  -- longer there or is being deleted, and nothing else is; or `deleteAllByLabel` reports an error, for
  -- a list that could not be read or a DELETE that was not answered with 200 or 404, and then nothing is
  -- deleted but some of what the selector picks.
  pub delete_all_by_label-ClearsSelected :
      (ns api resource selector : Text) (s : S.State)
      → ClearsSelected
          (collection S (rooted api) ns resource)
          selector
          s
          (delete_all_by_label S ns api resource selector s)
  unfolding delete_all_by_label list_resource_names
  delete_all_by_label-ClearsSelected ns api resource selector s =
      let path = collection S (rooted api) ns resource in
      listed_lem path selector s (S.serve (list path selector) s).1
        (S.serve (list path selector) s).0 refl
