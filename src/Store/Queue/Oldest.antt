-- ===== src/Store/Queue/Oldest.antt =====
-- The queued row that `ClaimNextQueued` picks: ORDER BY created_at LIMIT 1.
use mathlib.Core.List.{Memᴰ}
use mathlib.Core.Path.{subst}
use vercel_clone.Prelude.{
  ◌≤◌, ◌≡◌, refl, ◌≢◌, ap, sym, ◌∙◌, ◌⊎◌, inl, inr, Option, none, some, List, [], ◌∷◌, arith, All,
  Option-cases, if◌then◌else◌,
}
use vercel_clone.Prelude.Text.{text_key}
use vercel_clone.Store.{queued, Deployment}
use vercel_clone.Store.Queue.{Tie, is_queued, older, oldest_queued}

abbrev pub IsOldest : Deployment → Deployment → Type 0
IsOldest d e = e.status ≡ queued → d.created_at ≤ e.created_at

module _ (first : Tie) where
  pick : Deployment → Option Deployment → Option Deployment
  pick x rest = if is_queued x.status then older first x rest else rest

  pick_cases :
      (x : Deployment) (rest : Option Deployment) (d : Deployment)
      → pick x rest ≡ some d
      → ((x.status ≡ queued) × (x ≡ d)) ⊎ (rest ≡ some d)
  unfolding pick
  pick_cases x none d h = ground arith
  pick_cases x (some r) d h = ground arith

  pick_least :
      (x : Deployment) (rest : Option Deployment) (d : Deployment)
      → pick x rest ≡ some d
      → ((x.status ≡ queued) → d.created_at ≤ x.created_at)
        × ((r : Deployment) → rest ≡ some r → d.created_at ≤ r.created_at)
  unfolding pick
  pick_least x none d h = (λ q. ground arith, λ r e. cc)
  pick_least x (some r) d h = (λ q. ground arith, λ r' e. ground arith)

  pick-none :
      (x : Deployment) (rest : Option Deployment)
      → pick x rest ≡ none
      → (x.status ≢ queued) × (rest ≡ none)
  unfolding pick
  pick-none x none h = ground arith
  pick-none x (some r) h = absurd (ground arith)

  oldest-pick :
      (x : Deployment) (ds : List Deployment)
      → oldest_queued first (x ∷ ds) ≡ pick x (oldest_queued first ds)
  unfolding pick
  oldest-pick x ds = refl

  module _ {κ} (P : Deployment → Type κ) where
    pub All-oldest :
        (ds : List Deployment) (d : Deployment) → All P ds → oldest_queued first ds ≡ some d → P d
    All-oldest [] d h e = absurd (ground arith)
    All-oldest (x ∷ ds) d (hx, hds) e =
        elim (pick_cases x (oldest_queued first ds) d (rw (oldest-pick x ds) at e)) [
          | inl (q, same) ↦ subst P same hx
          | inr r ↦ All-oldest ds d hds r
        ]

  pub oldest-queued :
      (ds : List Deployment) (d : Deployment) → oldest_queued first ds ≡ some d → d.status ≡ queued
  oldest-queued [] d e = absurd (ground arith)
  oldest-queued (x ∷ ds) d e =
      elim (pick_cases x (oldest_queued first ds) d (rw (oldest-pick x ds) at e)) [
        | inl (q, same) ↦ ap (λ y. y.status) (sym same) ∙ q
        | inr r ↦ oldest-queued ds d r
      ]

  pub oldest-mem :
      (ds : List Deployment) (d : Deployment) → oldest_queued first ds ≡ some d → Memᴰ d ds
  oldest-mem [] d e = absurd (ground arith)
  oldest-mem (x ∷ ds) d e =
      elim (pick_cases x (oldest_queued first ds) d (rw (oldest-pick x ds) at e)) [
        | inl (q, same) ↦ Memᴰ.head (sym same)
        | inr r ↦ Memᴰ.tail (oldest-mem ds d r)
      ]

  pub none-unqueued :
      (ds : List Deployment) → oldest_queued first ds ≡ none → All (λ e. e.status ≢ queued) ds
  none-unqueued [] h = tt
  none-unqueued (x ∷ ds) h =
      let (a, b) = pick-none x (oldest_queued first ds) (rw (oldest-pick x ds) at h) in
      (a, none-unqueued ds b)

  weaken :
      (d r : Deployment)
      → d.created_at ≤ r.created_at
      → (ds : List Deployment) → All (IsOldest r) ds
      → All (IsOldest d) ds
  weaken d r h [] k = tt
  weaken d r h (x ∷ ds) (kx, ks) = ((λ q. omega (arith, kx q)), weaken d r h ds ks)

  vacuous :
      (d : Deployment) (ds : List Deployment)
      → All (λ e. e.status ≢ queued) ds
      → All (IsOldest d) ds
  vacuous d [] h = tt
  vacuous d (x ∷ ds) (hx, hs) = ((λ q. absurd (hx q)), vacuous d ds hs)

  pub oldest_queued-IsOldest :
      (ds : List Deployment) (d : Deployment)
      → oldest_queued first ds ≡ some d
      → All (IsOldest d) ds
  oldest_queued-IsOldest [] d e = tt
  oldest_queued-IsOldest (x ∷ ds) d e =
      let (sooner, rest) = pick_least x (oldest_queued first ds) d (rw (oldest-pick x ds) at e) in
      (
        sooner,
        elim (Option-cases (oldest_queued first ds)) [
          | inl n ↦ vacuous d ds (none-unqueued ds n)
          | inr (r, s) ↦ weaken d r (rest r s) ds (oldest_queued-IsOldest ds r s)
        ],
      )
