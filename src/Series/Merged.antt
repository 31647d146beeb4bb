-- ===== src/Series/Merged.antt =====
-- The merged points of a project: one for each time, in ascending order.
use mathlib.Core.List.{reverse, reverse-cons}
use vercel_clone.Prelude.{
  ℕ, ◌≤◌, ◌<◌, ◌≡◌, ◌≢◌, refl, sym, ap, inl, inr, Bool, false, List, [], ◌∷◌, ◌++◌, arith, ltb,
  ltb→lt, ltb→le, ℕ_eq, nat_eq, nat_eq_iff, Bool-cases, All, All-append,
}
use vercel_clone.Prelude.Text.{Text}
use vercel_clone.Prelude.Dict.{Dict, get, put}
use vercel_clone.Series

abbrev pub IsAscending : List ℕ → Type 0
IsAscending [] = Unit
IsAscending (x ∷ xs) = All (λ y. x < y) xs × IsAscending xs

abbrev pub IsDescending : List ℕ → Type 0
IsDescending [] = Unit
IsDescending (x ∷ xs) = All (λ y. y < x) xs × IsDescending xs

abbrev pub IsDistinct : List ℕ → Type 0
IsDistinct [] = Unit
IsDistinct (x ∷ xs) = All (λ y. x ≢ y) xs × IsDistinct xs

All-move_left :
    (P : ℕ → Type 0) (x : ℕ) (ys : List ℕ) → P x → All P ys → All P (Series.move_left x ys)
All-move_left P x [] px h = (px, tt)
All-move_left P x (y ∷ ys) px (py, h) = elim (Bool-cases (ltb x y)) [
  | inl e ↦ rw e (py, All-move_left P x ys px h)
  | inr e ↦ rw e (px, (py, h))
]

All-below : (x y : ℕ) (ys : List ℕ) → y < x → All (λ z. z < y) ys → All (λ z. z < x) ys
All-below x y [] h hs = tt
All-below x y (z ∷ ys) h (hz, hs) = (omega (arith, h, hz), All-below x y ys h hs)

move_left-IsDescending :
    (x : ℕ) (ys : List ℕ)
    → All (λ y. x ≢ y) ys
    → IsDescending ys
    → IsDescending (Series.move_left x ys)
move_left-IsDescending x [] new h = (tt, tt)
move_left-IsDescending x (y ∷ ys) (nx, new) (below, h) = elim (Bool-cases (ltb x y)) [
  | inl e ↦
      rw e (All-move_left (λ z. z < y) x ys (ltb→lt x y e) below, move_left-IsDescending x ys new h)
  | inr e ↦
      let less : y < x = above (ltb→le x y e) nx in
      rw e ((less, All-below x y ys less below), (below, h))
]
  where
    above : {a b : ℕ} → b ≤ a → a ≢ b → b < a
    above {a} {b} h n = ground (arith, h, n)

IsAscending-append :
    (xs : List ℕ) (y : ℕ) → IsAscending xs → All (λ x. x < y) xs → IsAscending (xs ++ y ∷ [])
IsAscending-append [] y h below = (tt, tt)
IsAscending-append (x ∷ xs) y (hx, h) (b, below) =
    (All-append (λ z. x < z) xs (y ∷ []) hx (b, tt), IsAscending-append xs y h below)

All-reversed : (P : ℕ → Type 0) (xs : List ℕ) → All P xs → All P (reverse xs)
All-reversed P [] h = h
All-reversed P (x ∷ xs) (px, h) =
    rw (reverse-cons x xs) (All-append P (reverse xs) (x ∷ []) (All-reversed P xs h) (px, tt))

reverse-IsAscending : (xs : List ℕ) → IsDescending xs → IsAscending (reverse xs)
reverse-IsAscending [] h = tt
reverse-IsAscending (x ∷ xs) (below, h) = rw (reverse-cons x xs) (
    IsAscending-append (reverse xs) x (reverse-IsAscending xs h)
      (All-reversed (λ y. y < x) xs below))

-- No element of the rest is in the part that is sorted.
abbrev IsApart : List ℕ → List ℕ → Type 0
IsApart sorted = All (λ x. All (λ y. x ≢ y) sorted)

flipped : (x : ℕ) (xs : List ℕ) → All (λ y. x ≢ y) xs → All (λ y. y ≢ x) xs
flipped x [] h = tt
flipped x (y ∷ xs) (hy, h) = ((λ e. hy (sym e)), flipped x xs h)

IsApart-move_left :
    (x : ℕ) (sorted xs : List ℕ)
    → All (λ y. y ≢ x) xs
    → IsApart sorted xs
    → IsApart (Series.move_left x sorted) xs
IsApart-move_left x sorted [] new h = tt
IsApart-move_left x sorted (y ∷ xs) (ny, new) (hy, h) =
    (All-move_left (λ z. y ≢ z) x sorted ny hy, IsApart-move_left x sorted xs new h)

sort_from-IsAscending :
    (sorted xs : List ℕ)
    → IsDescending sorted
    → IsDistinct xs
    → IsApart sorted xs
    → IsAscending (Series.sort_from sorted xs)
sort_from-IsAscending sorted [] h d a = reverse-IsAscending sorted h
sort_from-IsAscending sorted (x ∷ xs) h (dx, d) (ax, a) =
    sort_from-IsAscending (Series.move_left x sorted) xs (move_left-IsDescending x sorted ax h) d
      (IsApart-move_left x sorted xs (flipped x xs dx) a)

keys-put :
    {V : Type 0} (P : ℕ → Type 0) (m : Dict ℕ V) (k : ℕ) (v : V)
    → P k
    → All P (Series.keys m)
    → All P (Series.keys (put m k v))
keys-put P [] k v pk h = (pk, tt)
keys-put P ((j, w) ∷ m) k v pk (pj, h) = elim (Bool-cases (nat_eq j k)) [
  | inl e ↦ rw e (pk, h)
  | inr e ↦ rw e (pj, keys-put P m k v pk h)
]

differs : (j k : ℕ) → nat_eq j k ≡ false → j ≢ k
differs j k e = ground (arith, e)

put-IsDistinct :
    {V : Type 0} (m : Dict ℕ V) (k : ℕ) (v : V)
    → IsDistinct (Series.keys m)
    → IsDistinct (Series.keys (put m k v))
put-IsDistinct [] k v h = (tt, tt)
put-IsDistinct ((j, w) ∷ m) k v (hj, h) = elim (Bool-cases (nat_eq j k)) [
  | inl e ↦ let same : j ≡ k = (nat_eq_iff j k).0 e in rw e (rw same at hj, h)
  | inr e ↦ rw e (keys-put (λ y. j ≢ y) m k v (differs j k e) hj, put-IsDistinct m k v h)
]

merge_points-IsDistinct :
    (merged : Dict ℕ (Dict Text ℕ)) (ps : List Series.SeriesPoint)
    → IsDistinct (Series.keys merged)
    → IsDistinct (Series.keys (Series.merge_points merged ps))
merge_points-IsDistinct merged [] h = h
merge_points-IsDistinct merged (p ∷ ps) h =
    merge_points-IsDistinct
      (put merged p.t (Series.add_counts (Series.or_empty (get merged p.t)) p.counts)) ps
      (put-IsDistinct merged p.t (Series.add_counts (Series.or_empty (get merged p.t)) p.counts) h)

merge_buffers-IsDistinct :
    (matches : Text → Bool) (merged : Dict ℕ (Dict Text ℕ)) (m : Dict Text Series.ServiceBuffer)
    → IsDistinct (Series.keys merged)
    → IsDistinct (Series.keys (Series.merge_buffers matches merged m))
merge_buffers-IsDistinct matches merged [] h = h
merge_buffers-IsDistinct matches merged ((name, buf) ∷ m) h = elim (Bool-cases (matches name)) [
  | inl e ↦ rw e (
      merge_buffers-IsDistinct matches (Series.merge_points merged buf.points) m
        (merge_points-IsDistinct merged buf.points h))
  | inr e ↦ rw e (merge_buffers-IsDistinct matches merged m h)
]

abbrev pub times : List Series.SeriesPoint → List ℕ
times [] = []
times (p ∷ ps) = p.t ∷ times ps

times-points_at :
    (merged : Dict ℕ (Dict Text ℕ)) (ts : List ℕ) → times (Series.points_at merged ts) ≡ ts
times-points_at merged [] = refl
times-points_at merged (t ∷ ts) = ap (λ r. t ∷ r) (times-points_at merged ts)

nothing_near : (xs : List ℕ) → IsApart [] xs
nothing_near [] = tt
nothing_near (x ∷ xs) = (tt, nothing_near xs)

-- The merged points of the services that match have strictly ascending times, whatever the buffers
-- hold.
pub points_for_services-IsAscending :
    (matches : Text → Bool) (m : Dict Text Series.ServiceBuffer)
    → IsAscending (times (Series.points_for_services matches m))
unfolding Series.points_for_services Series.sort_int64_asc
points_for_services-IsAscending matches m =
    let merged = Series.merge_buffers matches [] m in
    rw (times-points_at merged (Series.sort_from [] (Series.keys merged))) (
      sort_from-IsAscending [] (Series.keys merged) tt (merge_buffers-IsDistinct matches [] m tt)
        (nothing_near (Series.keys merged)))
