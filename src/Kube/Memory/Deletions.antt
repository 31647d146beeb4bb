-- ===== src/Kube/Memory/Deletions.antt =====
-- The server in memory meets what Deletions assumes of the real one.
use vercel_clone.Prelude.{
  ◌≡◌, refl, sym, ap, ◌∙◌, inl, inr, not, ◌&&◌, none, some, List, ◌==◌, is_some, Bool-cases,
  Option-cases, arith,
}
use vercel_clone.Prelude.Text.{Text, text_key}
use vercel_clone.Prelude.Dict.{get, remove, get-remove}
use vercel_clone.Kube.Queries.Deletion.{Deletions, Ended, is_member}
use vercel_clone.Kube.Memory.Laws.{body_in}
use vercel_clone.Kube.Memory.{same_path_iff, path_key, State, names_in, selected, remove_at, memory}

live_removed :
    (s : State) (path name p n : Text)
    → is_some (get (remove s (path, name)) (p, n))
      ≡ (is_some (get s (p, n)) && not (p == path && n == name))
live_removed s path name p n =
    ap is_some (get-remove s (path, name) (p, n)) ∙ (elim (Bool-cases (p == path && n == name)) [
      | inl e ↦ rw e (ground arith)
      | inr e ↦ rw e (ground arith)
    ])

live_absent :
    (s : State) (path name p n : Text)
    → get s (path, name) ≡ none
    → is_some (get s (p, n)) ≡ (is_some (get s (p, n)) && not (p == path && n == name))
live_absent s path name p n h = elim (Bool-cases (p == path && n == name)) [
  | inr e ↦ rw e (ground arith)
  | inl e ↦
      let k : (path, name) ≡ (p, n) = (same_path_iff (path, name) (p, n)).0 e in
      rw e (rw (← k) (rw h refl))
]

pub remove_ends :
    (s : State) (path name : Text)
    → Ended
        (λ p n. is_some (get s (p, n)))
        (λ p n. is_some (get (remove_at (path, name) s (get s (path, name))).1 (p, n)))
        path
        name
remove_ends s path name p n = elim (Option-cases (get s (path, name))) [
  | inl e ↦ rw e (live_absent s path name p n e)
  | inr (w, e) ↦ rw e (live_removed s path name p n)
]

pub listed_same : (xs ys : List Text) → some xs ≡ some ys → xs ≡ ys
listed_same xs ys h = cc h

abbrev pub memory_deletions : Deletions memory
memory_deletions = record {
  is_live = λ s path name. is_some (get s (path, name));
  selects = λ s path selector name. is_member name (selected path selector s);
  list_any = λ path selector s s' r q p n. ap (λ t. is_some (get t.1 (p, n))) (sym q);
  list_success = λ path selector s s' b names q h n.
      let answered : some (selected path selector s) ≡ some names =
        ap (λ t. names_in (body_in t.0)) q ∙ h in
      ap (is_member n) (sym (listed_same (selected path selector s) names answered));
  remove_any = λ path name s s' r q.
      let left : (remove_at (path, name) s (get s (path, name))).1 ≡ s' = ap (λ x. x.1) q in
      inr (rw (← left) (remove_ends s path name));
  remove_success = λ path name s s' status b q good.
      let left : (remove_at (path, name) s (get s (path, name))).1 ≡ s' = ap (λ x. x.1) q in
      rw (← left) (remove_ends s path name);
}
