-- ===== src/Prelude/Table.antt =====
-- A SQL table as the list of its rows, with the statements that the store runs on it.
use mathlib.Core.Path.{subst}
use vercel_clone.Prelude.{
  ℕ, suc, ◌+◌, ◌≤◌, ◌≡◌, refl, ap, ◌⊎◌, inl, inr, ◌++◌, Bool, true, false, List, [], ◌∷◌, Option,
  none, some, arith, Bool-cases, if◌then◌else◌, length, All, is_some,
}

module _ {ℓ} {A : Type ℓ} where
  -- UPDATE … SET change WHERE test.
  abbrev pub update : (A → Bool) → (A → A) → List A → List A
  update test change [] = []
  update test change (x ∷ xs) = (if test x then change x else x) ∷ update test change xs

  -- SELECT … WHERE test LIMIT 1.
  abbrev pub find : (A → Bool) → List A → Option A
  find test [] = none
  find test (x ∷ xs) = if test x then some x else find test xs

  -- The number of rows that a statement affects.
  abbrev pub count : (A → Bool) → List A → ℕ
  count test [] = 0
  count test (x ∷ xs) = if test x then suc (count test xs) else count test xs

  -- DELETE … WHERE test.
  abbrev pub delete : (A → Bool) → List A → List A
  delete test [] = []
  delete test (x ∷ xs) = let rest = delete test xs in if test x then rest else x ∷ rest

  pub length-update :
      (test : A → Bool) (change : A → A) (xs : List A) → length (update test change xs) ≡ length xs
  length-update test change [] = refl
  length-update test change (x ∷ xs) = ap suc (length-update test change xs)

  pub update-none :
      (test : A → Bool) (change : A → A) (xs : List A)
      → count test xs ≡ 0
      → update test change xs ≡ xs
  update-none test change [] h = refl
  update-none test change (x ∷ xs) h = elim (Bool-cases (test x)) [
    | inl e ↦ absurd (let h' : suc (count test xs) ≡ 0 = rw e at h in omega arith)
    | inr e ↦ rw e (ap (λ r. x ∷ r) (update-none test change xs (rw e at h)))
  ]

  pub find_sound : (test : A → Bool) (xs : List A) (x : A) → find test xs ≡ some x → test x ≡ true
  find_sound test [] x h = ground arith
  find_sound test (y ∷ xs) x h = elim (Bool-cases (test y)) [
    | inl e ↦ ground arith
    | inr e ↦ find_sound test xs x (rw e at h)
  ]

  pub count-append :
      (test : A → Bool) (xs ys : List A) → count test (xs ++ ys) ≡ count test xs + count test ys
  count-append test [] ys = omega arith
  count-append test (x ∷ xs) ys = ground (arith, count-append test xs ys)

  pub count-delete_le :
      (test other : A → Bool) (xs : List A) → count test (delete other xs) ≤ count test xs
  count-delete_le test other [] = omega arith
  count-delete_le test other (x ∷ xs) = ground (arith, count-delete_le test other xs)

  pub count-absent :
      (test : A → Bool) (xs : List A) → is_some (find test xs) ≡ false → count test xs ≡ 0
  count-absent test [] h = refl
  count-absent test (x ∷ xs) h = elim (Bool-cases (test x)) [
    | inl e ↦ ground arith
    | inr e ↦ rw e (count-absent test xs (rw e at h))
  ]

  -- An update that does not touch what a test reads.
  pub count-update :
      (test other : A → Bool) (change : A → A)
      → ((x : A) → test (change x) ≡ test x)
      → (xs : List A) → count test (update other change xs) ≡ count test xs
  count-update test other change same [] = refl
  count-update test other change same (x ∷ xs) = elim (Bool-cases (other x)) [
    | inl e ↦ rw (e, same x, count-update test other change same xs) refl
    | inr e ↦ rw (e, count-update test other change same xs) refl
  ]

  -- One row more, where no row passed the test if that one does.
  pub count-append_one :
      (test : A → Bool) (xs : List A) (y : A)
      → count test xs ≤ 1
      → (test y ≡ false) ⊎ (count test xs ≡ 0)
      → count test (xs ++ y ∷ []) ≤ 1
  count-append_one test xs y h (inl other) =
      rw (count-append test xs (y ∷ []), other) (omega (arith, h))
  count-append_one test xs y h (inr zero) = elim (Bool-cases (test y)) [
    | inl e ↦ rw (count-append test xs (y ∷ []), zero, e) (omega arith)
    | inr e ↦ rw (count-append test xs (y ∷ []), zero, e) (omega arith)
  ]

  pub find-append_new :
      (test : A → Bool) (xs : List A) (y : A)
      → count test xs ≡ 0
      → test y ≡ true
      → find test (xs ++ y ∷ []) ≡ some y
  find-append_new test [] y h t = rw t refl
  find-append_new test (x ∷ xs) y h t = elim (Bool-cases (test x)) [
    | inl e ↦ absurd (let h' : suc (count test xs) ≡ 0 = rw e at h in omega (arith, h'))
    | inr e ↦ rw e (find-append_new test xs y (rw e at h) t)
  ]

  pub count_tail : (test : A → Bool) (y : A) (xs : List A) → count test xs ≤ count test (y ∷ xs)
  count_tail test y xs = ground arith

  count_more : (test : A → Bool) (y : A) (xs : List A) → 1 ≤ count test xs → 1 ≤ count test (y ∷ xs)
  count_more test y xs h = ground (arith, h)

  pub count-find :
      (test other : A → Bool) (xs : List A) (x : A)
      → find test xs ≡ some x
      → other x ≡ true
      → 1 ≤ count other xs
  count-find test other [] x h t = absurd (ground (arith, h))
  count-find test other (y ∷ xs) x h t = elim (Bool-cases (test y)) [
    | inl e ↦ let same : y ≡ x = ground (arith, rw e at h) in rw (same, t) (omega arith)
    | inr e ↦ count_more other y xs (count-find test other xs x (rw e at h) t)
  ]

module _ {ℓ κ} {A : Type ℓ} (P : A → Type κ) where
  pub All-update :
      (test : A → Bool) (change : A → A)
      → ((x : A) → test x ≡ true → P x → P (change x))
      → (xs : List A) → All P xs
      → All P (update test change xs)
  All-update test change keeps [] h = h
  All-update test change keeps (x ∷ xs) (hx, hxs) = elim (Bool-cases (test x)) [
    | inl e ↦ rw e (keeps x e hx, All-update test change keeps xs hxs)
    | inr e ↦ rw e (hx, All-update test change keeps xs hxs)
  ]

  pub All-delete : (test : A → Bool) (xs : List A) → All P xs → All P (delete test xs)
  All-delete test [] h = h
  All-delete test (x ∷ xs) (hx, hxs) = elim (Bool-cases (test x)) [
    | inl e ↦ rw e (All-delete test xs hxs)
    | inr e ↦ rw e (hx, All-delete test xs hxs)
  ]

  pub All-find : (test : A → Bool) (xs : List A) (x : A) → All P xs → find test xs ≡ some x → P x
  All-find test [] x h e = absurd (ground arith)
  All-find test (y ∷ xs) x (hy, hs) e = elim (Bool-cases (test y)) [
    | inl t ↦ let same : y ≡ x = ground arith in subst P same hy
    | inr t ↦ All-find test xs x hs (rw t at e)
  ]
