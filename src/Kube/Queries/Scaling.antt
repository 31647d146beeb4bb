-- ===== src/Kube/Queries/Scaling.antt =====
-- The replicas of the Deployments in the API server, under the client's calls.
use vercel_clone.Prelude.{
  ℕ, ◌≡◌, ap, inl, inr, ◌&&◌, Option, some, ◌==◌, nat_eq, nat_eq_iff, Bool-cases, arith,
  if◌then◌else◌,
}
use vercel_clone.Prelude.Text.{Text, codes, text_key}
use vercel_clone.Prelude.Result.{Result, ok, err}
use vercel_clone.Kube.{Server, read, list, write_scale, collection}
use vercel_clone.Kube.Queries
use vercel_clone.Kube.Queries.{list_deployments, patch_deployment_scale, get_deployment_scale}

-- What a server keeps of the replicas: reading changes none, and a write that is answered with 200
-- sets those of its name.
pub record Replicas (S : Server) : Type 0 where
  pub replicas : S.State → Text → Text → Option ℕ
  pub read_keeps :
      (path name : Text) (s : S.State) → replicas (S.serve (read path name) s).1 ≡ replicas s
  pub list_keeps :
      (path selector : Text) (s : S.State)
      → replicas (S.serve (list path selector) s).1 ≡ replicas s
  pub written :
      (path name : Text) (k : ℕ) (s : S.State) (b : S.Body)
      → (S.serve (write_scale path name k) s).0 ≡ ok (200, b)
      → (p n : Text)
      → replicas (S.serve (write_scale path name k) s).1 p n
        ≡ (if p == path && n == name then some k else replicas s p n)

abbrev pub deployments : Server → Text → Text
deployments S ns = collection S (codes "/apis/apps/v1") ns (codes "deployments")

module _ {S : Server} (R : Replicas S) where
  pub list_deployments-replicas :
      (ns selector : Text) (s : S.State)
      → R.replicas (list_deployments S ns selector s).1 ≡ R.replicas s
  unfolding list_deployments
  list_deployments-replicas ns selector s = R.list_keeps (deployments S ns) selector s

  pub get_deployment_scale-replicas :
      (ns name : Text) (s : S.State)
      → R.replicas (get_deployment_scale S ns name s).1 ≡ R.replicas s
  unfolding get_deployment_scale
  get_deployment_scale-replicas ns name s = R.read_keeps (deployments S ns) name s

  scaled_ok :
      (r : Result (ℕ × S.Body)) → Queries.scaled S r ≡ ok tt → (b : S.Body) × (r ≡ ok (200, b))
  unfolding Queries.scaled
  scaled_ok (err e) h = absurd (ground (arith, h))
  scaled_ok (ok (status, b)) h = elim (Bool-cases (nat_eq status 200)) [
    | inl e ↦ (b, ap (λ n. ok (n, b)) ((nat_eq_iff status 200).0 e))
    | inr e ↦ absurd (let h' : err (codes "scale deployment") ≡ ok tt = rw e at h in cc)
  ]

  pub patch_deployment_scale-replicas :
      (ns name : Text) (k : ℕ) (s : S.State)
      → (patch_deployment_scale S ns name k s).0 ≡ ok tt
      → (p n : Text)
      → R.replicas (patch_deployment_scale S ns name k s).1 p n
        ≡ (if p == deployments S ns && n == name then some k else R.replicas s p n)
  unfolding patch_deployment_scale
  patch_deployment_scale-replicas ns name k s h p n =
      let (b, served) = scaled_ok (S.serve (write_scale (deployments S ns) name k) s).0 h in
      R.written (deployments S ns) name k s b served p n
