-- ===== src/Scale/Stopped.antt =====
-- What the Deployments of a project are scaled to.
use mathlib.Core.Path.{subst}
use vercel_clone.Prelude.{
  ℕ, ◌≡◌, ◌⊎◌, refl, sym, ◌∙◌, inl, inr, Bool, true, false, ◌&&◌, Option, none, some, List, [], ◌∷◌,
  ◌==◌, Bool-cases, All, eq_refl, arith, if◌then◌else◌, length,
}
use vercel_clone.Prelude.Text.{Text, codes, text_key}
use vercel_clone.Prelude.Result.{Result, ok, err, Result-cases}
use vercel_clone.Store.{Project, User, Database}
use vercel_clone.Store.Accounts.{
  Reply, allowed, bad_request, unauthorized, not_found, authorise_project,
}
use vercel_clone.Tenant.{tenant_namespace_for}
use vercel_clone.Http.{Answer, done, refused, with_project}
use vercel_clone.Domains.Handlers.{tenant_login}
use vercel_clone.Kube.{Server, DeploymentScale}
use vercel_clone.Kube.Queries.{list_deployments, patch_deployment_scale, get_deployment_scale}
use vercel_clone.Kube.Queries.Scaling.{
  Replicas, deployments, list_deployments-replicas, get_deployment_scale-replicas,
  patch_deployment_scale-replicas,
}
use vercel_clone.Scale
use vercel_clone.Scale.{
  ScaleState, selector, sum_scales, fanout_scale, read_project_scale, handle_project_scale,
  no_scale, add_scale,
}

module _ {S : Server} (R : Replicas S) where
  -- The replicas of a name at a state.
  abbrev at : Text → S.State → Text → Option ℕ
  at ns s n = R.replicas s (deployments S ns) n

  collected_none :
      (name : Text) (r : Result (Unit {0})) (errs : List Text)
      → Scale.collected S name r errs ≡ []
      → (r ≡ ok tt) × (errs ≡ [])
  unfolding Scale.collected
  collected_none name (ok _) errs h = (refl, h)
  collected_none name (err e) errs h = absurd (ground (arith, h))

  either_way : (b : Bool) (k : ℕ) (o : Option ℕ) → o ≡ some k → (if b then some k else o) ≡ some k
  either_way true k o h = refl
  either_way false k o h = h

  -- What has the replicas keeps them through the calls.
  fanout_scale_keeps :
      (ns : Text) (names : List Text) (k : ℕ) (n : Text) (s : S.State)
      → (fanout_scale S ns names k s).0 ≡ []
      → at ns s n ≡ some k
      → at ns (fanout_scale S ns names k s).1 n ≡ some k
  unfolding fanout_scale
  fanout_scale_keeps ns [] k n s h has = has
  fanout_scale_keeps ns (m ∷ names) k n s h has =
      let s1 = (patch_deployment_scale S ns m k s).1 in
      let (patched, rest) =
        collected_none m (patch_deployment_scale S ns m k s).0 (fanout_scale S ns names k s1).0 h in
      fanout_scale_keeps ns names k n s1 rest (
        patch_deployment_scale-replicas R ns m k s patched (deployments S ns) n
        ∙ either_way (deployments S ns == deployments S ns && n == m) k (at ns s n) has)

  fanout_scale-All :
      (ns : Text) (names : List Text) (k : ℕ) (s : S.State)
      → (fanout_scale S ns names k s).0 ≡ []
      → All (λ n. at ns (fanout_scale S ns names k s).1 n ≡ some k) names
  unfolding fanout_scale
  fanout_scale-All ns [] k s h = tt
  fanout_scale-All ns (m ∷ names) k s h =
      let s1 = (patch_deployment_scale S ns m k s).1 in
      let (patched, rest) =
        collected_none m (patch_deployment_scale S ns m k s).0 (fanout_scale S ns names k s1).0 h in
      (
        fanout_scale_keeps ns names k m s1 rest (
            patch_deployment_scale-replicas R ns m k s patched (deployments S ns) m
            ∙ rw (eq_refl (deployments S ns), eq_refl m) refl),
        fanout_scale-All ns names k s1 rest,
      )

  sum_scales-replicas :
      (ns : Text) (names : List Text) (total : DeploymentScale) (s : S.State)
      → R.replicas (sum_scales S ns names total s).1 ≡ R.replicas s
  unfolding sum_scales
  sum_scales-replicas ns [] total s = refl
  sum_scales-replicas ns (n ∷ names) total s =
      elim (Result-cases (get_deployment_scale S ns n s).0) [
        | inl (e, h) ↦ rw (h, Scale.and_on) (get_deployment_scale-replicas R ns n s)
        | inr (d, h) ↦
            rw (h, Scale.and_on)
              (sum_scales-replicas ns names (add_scale d total) (get_deployment_scale S ns n s).1
                ∙ get_deployment_scale-replicas R ns n s)
      ]

  summed-replicas :
      (p : Project) (n : ℕ) (out : Result DeploymentScale × S.State)
      → R.replicas (Scale.summed S p n out).1 ≡ R.replicas out.1
  unfolding Scale.summed
  summed-replicas p n (err e, s) = refl
  summed-replicas p n (ok total, s) = refl

  listed-replicas :
      (ns : Text) (p : Project) (out : Result (List Text) × S.State)
      → R.replicas (Scale.scale_listed S ns p out).1 ≡ R.replicas out.1
  unfolding Scale.scale_listed
  listed-replicas ns p (err e, s) = refl
  listed-replicas ns p (ok names, s) =
      summed-replicas p (length names) (sum_scales S ns names no_scale s)
      ∙ sum_scales-replicas ns names no_scale s

  read_project_scale-replicas :
      (login : Text) (p : Project) (s : S.State)
      → R.replicas (read_project_scale S login p s).1 ≡ R.replicas s
  unfolding read_project_scale
  read_project_scale-replicas login p s = elim (Bool-cases (login == [])) [
    | inl e ↦ rw e refl
    | inr e ↦
        let ns = tenant_namespace_for login in
        rw e (
          listed-replicas ns p (list_deployments S ns (selector p) s)
          ∙ list_deployments-replicas R ns (selector p) s)
  ]

  -- The replicas that an action asks for.
  abbrev pub asked : Text → Option ℕ
  asked action =
      if action == codes "start" then some 1 else if action == codes "stop" then some 0 else none

  -- What an action leaves: only a 500 may have changed something.
  abbrev pub Scales :
      Text → Option User → Text → Database → S.State → Answer ScaleState × S.State → Type 0
  Scales id u action db s (refused code, s') = (code ≡ 500) ⊎ (R.replicas s' ≡ R.replicas s)
  Scales id u action db s (done r, s') =
      (p : Project) × (k : ℕ) × (names : List Text) × (authorise_project id u db ≡ allowed p)
      × (asked action ≡ some k)
      × ((list_deployments S (tenant_namespace_for (tenant_login p db)) (selector p) s).0
          ≡ ok names)
      × All (λ n. at (tenant_namespace_for (tenant_login p db)) s' n ≡ some k) names

  module _ (id : Text) (u : Option User) (action : Text) (db : Database) (s : S.State) (p : Project)
      (k : ℕ) (let_in : authorise_project id u db ≡ allowed p)
      (wanted : asked action ≡ some k) where
    abbrev ns : Text
    ns = tenant_namespace_for (tenant_login p db)

    answered-Scales :
        (names : List Text) (n : ℕ) (out : Result ScaleState × S.State) (s1 : S.State)
        → R.replicas out.1 ≡ R.replicas s1
        → (list_deployments S ns (selector p) s).0 ≡ ok names
        → All (λ m. at ns s1 m ≡ some k) names
        → Scales id u action db s (Scale.answer_scaled S p k n out)
    unfolding Scale.answer_scaled
    answered-Scales names n (ok r, s') s1 same listed all = (
      p,
      k,
      names,
      let_in,
      wanted,
      listed,
      subst (λ f. All (λ m. f (deployments S ns) m ≡ some k) names) (sym same) all,
    )
    answered-Scales names n (err e, s') s1 same listed all = (
      p,
      k,
      names,
      let_in,
      wanted,
      listed,
      subst (λ f. All (λ m. f (deployments S ns) m ≡ some k) names) (sym same) all,
    )

    fanned-Scales :
        (names : List Text) (n : ℕ) (out : List Text × S.State)
        → (list_deployments S ns (selector p) s).0 ≡ ok names
        → (out.0 ≡ [] → All (λ m. at ns out.1 m ≡ some k) names)
        → Scales id u action db s (Scale.fanned_out S (tenant_login p db) p k n out)
    unfolding Scale.fanned_out
    fanned-Scales names n ([], s1) listed all =
        answered-Scales names n (read_project_scale S (tenant_login p db) p s1) s1
          (read_project_scale-replicas (tenant_login p db) p s1) listed (all refl)
    fanned-Scales names n (e ∷ errs, s1) listed all = inl refl

    names-Scales :
        (out : Result (List Text) × S.State)
        → out.0 ≡ (list_deployments S ns (selector p) s).0
        → R.replicas out.1 ≡ R.replicas s
        → Scales id u action db s (Scale.scale_names S (tenant_login p db) p k out)
    unfolding Scale.scale_names
    names-Scales (err e, s1) listed same = inl refl
    names-Scales (ok [], s1) listed same = inr same
    names-Scales (ok (m ∷ names), s1) listed same =
        fanned-Scales (m ∷ names) (length (m ∷ names)) (fanout_scale S ns (m ∷ names) k s1)
          (sym listed) (λ h. fanout_scale-All ns (m ∷ names) k s1 h)

    to-Scales : Scales id u action db s (Scale.scale_to S (tenant_login p db) p k s)
    unfolding Scale.scale_to
    to-Scales = elim (Bool-cases (tenant_login p db == [])) [
      | inl e ↦ rw e (inr refl)
      | inr e ↦ rw e (
          names-Scales (list_deployments S ns (selector p) s) refl
            (list_deployments-replicas R ns (selector p) s))
    ]

  action-Scales :
      (id : Text) (u : Option User) (action : Text) (db : Database) (s : S.State)
      (r : Reply Project)
      → authorise_project id u db ≡ r
      → Scales id u action db s
          (with_project r s (λ p. Scale.scale_action S (tenant_login p db) p (some action) s))
  unfolding Scale.scale_action
  action-Scales id u action db s bad_request h = inr refl
  action-Scales id u action db s unauthorized h = inr refl
  action-Scales id u action db s not_found h = inr refl
  action-Scales id u action db s (allowed p) h = elim (Bool-cases (action == codes "start")) [
    | inl e ↦ rw e (to-Scales id u action db s p 1 h (rw e refl))
    | inr e ↦ elim (Bool-cases (action == codes "stop")) [
      | inl f ↦ rw (e, f) (to-Scales id u action db s p 0 h (rw (e, f) refl))
      | inr f ↦ rw (e, f) (inr refl)
    ]
  ]

  -- After an action that succeeds, each Deployment that the API lists for the project in the namespace
  -- of its tenant has the replicas of the action, one for a start and none for a stop; and
  -- the user may see the project. A refusal other than 500 has scaled nothing.
  pub handle_project_scale-Scales :
      (id : Text) (u : Option User) (action : Text) (db : Database) (s : S.State)
      → Scales id u action db s (handle_project_scale S id u (some action) db s)
  unfolding handle_project_scale
  handle_project_scale-Scales id u action db s =
      action-Scales id u action db s (authorise_project id u db) refl
