-- ===== src/Builder/Private.antt =====
-- Everything that `runOne` does before the production alias is private to the deployment.
use vercel_clone.Prelude.{
  ◌≡◌, refl, inl, inr, Bool, true, false, ◌==◌, Option, none, some, List, [], ◌∷◌, ◌++◌, arith, ap,
  length, length-append, Bool-cases, eq_of_==,
}
use vercel_clone.Prelude.Text.{Text, codes, text_key}
use vercel_clone.Store.Queue.{ClaimedDeployment}
use vercel_clone.Tenant.{tenant_namespace_for}
use vercel_clone.Builder.Effects.{Effect, Env, World, JobPhase, call}
use vercel_clone.Builder.Triples.{Keeps}
use vercel_clone.Builder.Keeping.{
  Calls, Accepts, accept-Calls, then_Keeps, pure-Keeps, raise-Keeps, lift-Keeps, read-Keeps,
  wrap-Keeps, quietly-Keeps, call-Keeps, write-Calls, if-Keeps,
}
use vercel_clone.Builder.Confined.{Private}
use vercel_clone.Builder

longer_host : (s t y z : Text) → ((((s ++ codes "-") ++ t) ++ y) ++ z == (s ++ y) ++ z) ≡ false
longer_host s t y z = elim (Bool-cases ((((s ++ codes "-") ++ t) ++ y) ++ z == (s ++ y) ++ z)) [
  | inl same ↦ absurd (
      omega (
        arith,
        ap length (eq_of_== {a = (((s ++ codes "-") ++ t) ++ y) ++ z} {b = (s ++ y) ++ z} same),
        length-append (((s ++ codes "-") ++ t) ++ y) z,
        length-append ((s ++ codes "-") ++ t) y,
        length-append (s ++ codes "-") t,
        length-append s (codes "-"),
        length-append (s ++ y) z,
        length-append s y,
      ))
  | inr differ ↦ differ
]

preview_host-private :
    (c : ClaimedDeployment) → (Builder.preview_host c == Builder.production_host c) ≡ false
preview_host-private c =
    longer_host c.slug (Builder.short c.commit_sha) (codes ".") Builder.tenant_host_zone

-- Everything before the alias is private, so it keeps what private calls keep.
module _ (env : Env) (c : ClaimedDeployment) (I : World → Type 0)
    (allow : (e : Effect) → Private c e → Accepts I e) where
  Private-call : (e : Effect) → Private c e → Keeps I (call env e)
  Private-call e h = call-Keeps env e (allow e h)

  pub post_status-Keeps : (s d t : Text) → Keeps I (Builder.post_status env s d t)
  unfolding Builder.post_status
  post_status-Keeps s d t = quietly-Keeps (Private-call _ (tt, refl))

  make_job-Keeps :
      (p : Option JobPhase) → Keeps I (Builder.make_job env (Builder.build_job_input c) p)
  unfolding Builder.make_job Builder.create_job
  make_job-Keeps none = wrap-Keeps _ (Private-call _ (refl, refl))
  make_job-Keeps (some p) =
      if-Keeps _
        (then_Keeps (Private-call _ ((refl, refl), refl))
          (λ _. wrap-Keeps _ (Private-call _ (refl, refl))))
        pure-Keeps

  ensure_build_job-Keeps : Keeps I (Builder.ensure_build_job env (Builder.build_job_input c))
  unfolding Builder.ensure_build_job
  ensure_build_job-Keeps =
      then_Keeps (Private-call _ ((refl, refl), refl)) (λ _. then_Keeps read-Keeps make_job-Keeps)

  pub build_image-Keeps : Keeps I (Builder.build_image env c)
  unfolding Builder.build_image
  build_image-Keeps = then_Keeps (post_status-Keeps _ _ _) (λ _.
      then_Keeps (wrap-Keeps _ (Private-call _ (refl, refl))) (λ _.
        then_Keeps (wrap-Keeps _ (Private-call _ (inr (refl, refl), refl))) (λ _.
          then_Keeps (wrap-Keeps _ ensure_build_job-Keeps)
            (λ _. then_Keeps read-Keeps (λ _. lift-Keeps)))))

  abbrev pub ns : Text
  ns = tenant_namespace_for c.tenant_login

  apply_policies-Keeps : (ps : List (Text × Text)) → Keeps I (Builder.apply_policies env ns ps)
  unfolding Builder.apply_policies
  apply_policies-Keeps [] = pure-Keeps
  apply_policies-Keeps (p ∷ ps) =
      then_Keeps (wrap-Keeps _ (Private-call _ (inl refl, refl))) (λ _. apply_policies-Keeps ps)

  copy_pull_secret-Keeps : (b : Option Text) → Keeps I (Builder.copy_pull_secret env ns b)
  unfolding Builder.copy_pull_secret
  copy_pull_secret-Keeps none = raise-Keeps
  copy_pull_secret-Keeps (some b) = Private-call _ (inl refl, refl)

  pub ensure_tenant-Keeps : Keeps I (Builder.ensure_tenant env ns)
  unfolding Builder.ensure_tenant Builder.mirror_registry_pull_secret
  ensure_tenant-Keeps = then_Keeps (wrap-Keeps _ (Private-call _ (inr (refl, refl), refl))) (λ _.
      then_Keeps (wrap-Keeps _ (Private-call _ (inl refl, refl))) (λ _.
        then_Keeps (wrap-Keeps _ (Private-call _ (inl refl, refl))) (λ _.
          then_Keeps (apply_policies-Keeps _) (λ _.
            wrap-Keeps _
              (then_Keeps (Private-call _ (refl, refl)) (λ _. copy_pull_secret-Keeps _))))))

  apply_env-Keeps : (b : Bool) → Keeps I (Builder.apply_env env c ns b)
  unfolding Builder.apply_env
  apply_env-Keeps false = pure-Keeps
  apply_env-Keeps true = wrap-Keeps _ (Private-call _ (inl refl, refl))

  pub apply_tenant_objects-Keeps : Keeps I (Builder.apply_tenant_objects env c ns)
  unfolding Builder.apply_tenant_objects
  apply_tenant_objects-Keeps = then_Keeps (quietly-Keeps (Private-call _ (refl, refl))) (λ found.
      then_Keeps (quietly-Keeps (Private-call _ (refl, refl))) (λ has_env.
        then_Keeps (apply_env-Keeps has_env) (λ _.
          then_Keeps (wrap-Keeps _ (Private-call _ (refl, refl))) (λ _.
            then_Keeps (wrap-Keeps _ (Private-call _ (refl, refl)))
              (λ _. wrap-Keeps _ (Private-call _ (refl, preview_host-private c)))))))

  pub require_tenant-Keeps : (login : Text) → Keeps I (Builder.require_tenant env c login)
  unfolding Builder.require_tenant
  require_tenant-Keeps [] = raise-Keeps
  require_tenant-Keeps (_ ∷ _) = pure-Keeps

module _ (env : Env) (c : ClaimedDeployment) (P : Effect → Type 0)
    (allow : (e : Effect) → Private c e → P e) where
  accept : (e : Effect) → Private c e → Accepts (Calls P) e
  accept e h = accept-Calls P e (allow e h)

  pub deploy-Calls : Keeps (Calls P) (Builder.deploy env c)
  unfolding Builder.deploy
  deploy-Calls = then_Keeps (wrap-Keeps _ (write-Calls _ _ _ (allow _ (refl, refl)))) (λ _.
      then_Keeps (require_tenant-Keeps env c _ accept _) (λ _.
        then_Keeps (wrap-Keeps _ (ensure_tenant-Keeps env c _ accept)) (λ _.
          then_Keeps (apply_tenant_objects-Keeps env c _ accept)
            (λ _. wrap-Keeps _ (write-Calls _ _ _ (allow _ (refl, refl)))))))

  pub build_image-Calls : Keeps (Calls P) (Builder.build_image env c)
  build_image-Calls = build_image-Keeps env c _ accept

  pub post_status-Calls : (s d t : Text) → Keeps (Calls P) (Builder.post_status env s d t)
  post_status-Calls = post_status-Keeps env c _ accept
