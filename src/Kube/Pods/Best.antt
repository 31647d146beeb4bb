-- ===== src/Kube/Pods/Best.antt =====
-- Which pod `findTenantPod` takes.
use vercel_clone.Prelude.{
  ◌≤◌, ◌≢◌, ◌==◌, eq_of_==, eq_refl, if◌then◌else◌, ℕ, ◌≡◌, ◌⊎◌, refl, inl, inr, Bool, true, false,
  Option, none, some, List, [], ◌∷◌, nat_eq, ltb, ◌&&◌, ◌||◌, is_some, Bool-cases, All, arith,
}
use vercel_clone.Kube.{PodItem}
use vercel_clone.Prelude.Text.{Text, codes, text_key}
use vercel_clone.Kube.Pods.{best_pod, is_later, rank}

-- The pod stands in the list.
abbrev pub Has : PodItem → List PodItem → Type 0
Has b [] = ⊥
Has b (p ∷ ps) = (b ≡ p) ⊎ Has b ps

-- A pod that terminates, or that is not preferred to `b`.
abbrev pub IsBehind : PodItem → PodItem → Type 0
IsBehind b p = (is_some p.deletion_timestamp ≡ true) ⊎ (is_later p b ≡ false)

abbrev IsTop : List PodItem → Option PodItem → Type 0
IsTop ps none = All (λ p. is_some p.deletion_timestamp ≡ true) ps
IsTop ps (some b) = Has b ps × (is_some b.deletion_timestamp ≡ false) × All (IsBehind b) ps

above : ℕ → ℕ → ℕ → ℕ → Bool
above r t r' t' = ltb r' r || nat_eq r r' && ltb t' t

above_self : (r t : ℕ) → above r t r t ≡ false
unfolding above
above_self r t = ground arith

-- What is preferred to `b` is not behind what `b` is behind.
above_trans :
    (r t r1 t1 r2 t2 : ℕ)
    → above r t r1 t1 ≡ true
    → above r t r2 t2 ≡ false
    → above r1 t1 r2 t2 ≡ false
unfolding above
above_trans r t r1 t1 r2 t2 h k = ground arith

above_weak :
    (r t r1 t1 r2 t2 : ℕ)
    → above r t r1 t1 ≡ false
    → above r1 t1 r2 t2 ≡ false
    → above r t r2 t2 ≡ false
unfolding above
above_weak r t r1 t1 r2 t2 h k = ground arith

later_self : (b : PodItem) → is_later b b ≡ false
later_self b = unfold above in above_self (rank b) b.creation_timestamp

later_trans : (p b c : PodItem) → is_later p b ≡ true → is_later p c ≡ false → is_later b c ≡ false
later_trans p b c h k =
    unfold above in
    above_trans (rank p) p.creation_timestamp (rank b) b.creation_timestamp (rank c)
      c.creation_timestamp h k

behind_trans :
    (p b c : PodItem) → is_later p b ≡ false → is_later b c ≡ false → is_later p c ≡ false
behind_trans p b c h k =
    unfold above in
    above_weak (rank p) p.creation_timestamp (rank b) b.creation_timestamp (rank c)
      c.creation_timestamp h k

skip_gone :
    (p : PodItem) (ps : List PodItem) (o : Option PodItem)
    → is_some p.deletion_timestamp ≡ true
    → IsTop ps o
    → IsTop (p ∷ ps) o
skip_gone p ps none gone all = (gone, all)
skip_gone p ps (some b) gone (has, live, rest) = (inr has, live, (inl gone, rest))

-- The loop behind a first candidate.
abbrev Improves : PodItem → List PodItem → Type 0
Improves b ps =
    (r : PodItem) × (best_pod (some b) ps ≡ some r)
    × ((r ≡ b) ⊎ Has r ps)
    × (is_some r.deletion_timestamp ≡ false)
    × (is_later b r ≡ false)
    × All (IsBehind r) ps

best_pod-Improves :
    (b : PodItem) (ps : List PodItem) → is_some b.deletion_timestamp ≡ false → Improves b ps
unfolding best_pod
best_pod-Improves b [] live = (b, refl, inl refl, live, later_self b, tt)
best_pod-Improves b (p ∷ ps) live = elim (Bool-cases (is_some p.deletion_timestamp)) [
  | inl gone ↦
      let (r, found, which, alive, first, rest) = best_pod-Improves b ps live in
      (r, rw gone found, further which, alive, first, (inl gone, rest))
  | inr here ↦ elim (Bool-cases (is_later p b)) [
    | inl better ↦
        let (r, found, which, alive, first, rest) = best_pod-Improves p ps here in
        (
          r,
          rw (here, better) found,
          inr which,
          alive,
          later_trans p b r better first,
          (inr first, rest),
        )
    | inr worse ↦
        let (r, found, which, alive, first, rest) = best_pod-Improves b ps live in
        (
          r,
          rw (here, worse) found,
          further which,
          alive,
          first,
          (inr (behind_trans p b r worse first), rest),
        )
  ]
]
  where
    further : {r : PodItem} → (r ≡ b) ⊎ Has r ps → (r ≡ b) ⊎ Has r (p ∷ ps)
    further (inl e) = inl e
    further (inr h) = inr (inr h)

best_pod-IsTop : (ps : List PodItem) → IsTop ps (best_pod none ps)
unfolding best_pod
best_pod-IsTop [] = tt
best_pod-IsTop (p ∷ ps) = elim (Bool-cases (is_some p.deletion_timestamp)) [
  | inl gone ↦ rw gone (skip_gone p ps (best_pod none ps) gone (best_pod-IsTop ps))
  | inr here ↦
      let (r, found, which, alive, first, rest) = best_pod-Improves p ps here in
      rw here (rw found (which, alive, (inr first, rest)))
]

-- No better than `b`: not Running unless `b` is, not Pending unless `b` is or runs, and no later than a
-- `b` of the same phase, or a `b` of another phase than those two.
pub record IsNoBetter (p b : PodItem) : Type 0 where
  pub if_running : p.phase ≡ codes "Running" → b.phase ≡ codes "Running"
  pub if_pending :
      p.phase ≡ codes "Pending" → (b.phase ≡ codes "Running") ⊎ (b.phase ≡ codes "Pending")
  pub if_same : p.phase ≡ b.phase → p.creation_timestamp ≤ b.creation_timestamp
  pub if_other :
      b.phase ≢ codes "Running"
      → b.phase ≢ codes "Pending"
      → p.creation_timestamp ≤ b.creation_timestamp

-- The pod is one of the list that does not terminate, and of those none is better.
abbrev pub IsBest : List PodItem → Option PodItem → Type 0
IsBest ps none = All (λ p. is_some p.deletion_timestamp ≡ true) ps
IsBest ps (some b) =
    Has b ps
    × (is_some b.deletion_timestamp ≡ false)
    × All (λ p. (is_some p.deletion_timestamp ≡ true) ⊎ IsNoBetter p b) ps

-- `above` on the classes of two phases.
abbrev class : Bool → Bool → ℕ
class running pending = if running then 2 else if pending then 1 else 0

class_running :
    (r w r' w' : Bool) (t t' : ℕ)
    → above (class r w) t (class r' w') t' ≡ false
    → r ≡ true
    → r' ≡ true
unfolding above
class_running r w true w' t t' h e = refl
class_running r w false true t t' h e = absurd (ground (arith, h, e))
class_running r w false false t t' h e = absurd (ground (arith, h, e))

class_pending :
    (r w r' w' : Bool) (t t' : ℕ)
    → above (class r w) t (class r' w') t' ≡ false
    → w ≡ true
    → (r' ≡ true) ⊎ (w' ≡ true)
unfolding above
class_pending r w true w' t t' h e = inl refl
class_pending r w false true t t' h e = inr refl
class_pending true w false false t t' h e = absurd (ground (arith, h, e))
class_pending false w false false t t' h e = absurd (ground (arith, h, e))

class_same : (r w : Bool) (t t' : ℕ) → above (class r w) t (class r w) t' ≡ false → t ≤ t'
unfolding above
class_same true w t t' h = ground (arith, h)
class_same false true t t' h = ground (arith, h)
class_same false false t t' h = ground (arith, h)

class_other : (r w : Bool) (t t' : ℕ) → above (class r w) t (class false false) t' ≡ false → t ≤ t'
unfolding above
class_other true w t t' h = absurd (ground (arith, h))
class_other false true t t' h = absurd (ground (arith, h))
class_other false false t t' h = ground (arith, h)

later_class :
    (p b : PodItem)
    → is_later p b ≡ false
    → above
        (class (p.phase == codes "Running") (p.phase == codes "Pending"))
        p.creation_timestamp
        (class (b.phase == codes "Running") (b.phase == codes "Pending"))
        b.creation_timestamp
      ≡ false
unfolding above
later_class p b h = h

unequal : (s t : Text) → s ≢ t → (s == t) ≡ false
unequal s t ne = elim (Bool-cases (s == t)) [ inl e ↦ absurd (ne (eq_of_== e)) | inr e ↦ e ]

later-IsNoBetter : (p b : PodItem) → is_later p b ≡ false → IsNoBetter p b
later-IsNoBetter p b h =
    let k = later_class p b h in
    record {
      if_running = λ e. eq_of_== (class_running _ _ _ _ _ _ k (rw e (eq_refl (codes "Running"))));
      if_pending = λ e. elim (class_pending _ _ _ _ _ _ k (rw e (eq_refl (codes "Pending")))) [
        | inl r ↦ inl (eq_of_== r)
        | inr w ↦ inr (eq_of_== w)
      ];
      if_same =
          λ e. class_same (b.phase == codes "Running") (b.phase == codes "Pending") _ _ (rw e at k);
      if_other = λ r w. class_other _ _ _ _ (rw (unequal b.phase _ r, unequal b.phase _ w) at k);
    }

behind-IsNoBetter :
    (b : PodItem) (ps : List PodItem)
    → All (IsBehind b) ps
    → All (λ p. (is_some p.deletion_timestamp ≡ true) ⊎ IsNoBetter p b) ps
behind-IsNoBetter b [] h = tt
behind-IsNoBetter b (p ∷ ps) (inl gone, hs) = (inl gone, behind-IsNoBetter b ps hs)
behind-IsNoBetter b (p ∷ ps) (inr k, hs) = (inr (later-IsNoBetter p b k), behind-IsNoBetter b ps hs)

top-IsBest : (ps : List PodItem) (o : Option PodItem) → IsTop ps o → IsBest ps o
top-IsBest ps none h = h
top-IsBest ps (some b) (has, live, rest) = (has, live, behind-IsNoBetter b ps rest)

-- The pod that `findTenantPod` takes is one of the list and not terminating, and no pod that is not
-- terminating is better: a running one before a pending one before all else, and then the later one. It
-- takes none only if all of them terminate.
pub best_pod-IsBest : (ps : List PodItem) → IsBest ps (best_pod none ps)
best_pod-IsBest ps = top-IsBest ps (best_pod none ps) (best_pod-IsTop ps)
