-- ===== src/Prelude/Sort.antt =====
-- ORDER BY, as a stable insertion of one row after the other.
use vercel_clone.Prelude.{
  ◌≡◌, refl, inl, inr, Bool, List, [], ◌∷◌, arith, Bool-cases, if◌then◌else◌,
}
use vercel_clone.Prelude.Table.{count}

module _ {ℓ} {A : Type ℓ} (before : A → A → Bool) where
  -- A row goes before the first one that it precedes.
  abbrev pub insert_by : A → List A → List A
  insert_by x [] = x ∷ []
  insert_by x (y ∷ ys) = let rest = insert_by x ys in if before x y then x ∷ y ∷ ys else y ∷ rest

  abbrev pub insert_all : List A → List A → List A
  insert_all acc [] = acc
  insert_all acc (x ∷ xs) = insert_all (insert_by x acc) xs

  abbrev pub sort_by : List A → List A
  sort_by xs = insert_all [] xs

  count-insert_by :
      (test : A → Bool) (x : A) (ys : List A) → count test (insert_by x ys) ≡ count test (x ∷ ys)
  count-insert_by test x [] = refl
  count-insert_by test x (y ∷ ys) = elim (Bool-cases (before x y)) [
    | inl e ↦ rw e refl
    | inr e ↦ rw e (swapped (count-insert_by test x ys))
  ]
    where
      swapped :
          count test (insert_by x ys) ≡ count test (x ∷ ys)
          → count test (y ∷ insert_by x ys) ≡ count test (x ∷ y ∷ ys)
      swapped h = ground (arith, h)
