-- ===== src/Builder/Publish.antt =====
-- What `runOne` does once the deployment is ready: alias, custom domains, clean-up and the last
-- commit status.
use vercel_clone.Prelude.{refl, Bool, true, false, List, [], ◌∷◌}
use vercel_clone.Prelude.Text.{Text}
use vercel_clone.Store.Queue.{ClaimedDeployment}
use vercel_clone.Builder.Effects.{Effect, Env, World}
use vercel_clone.Builder.Triples.{
  Triple, Keeps, Anywhere, write-Triple, then_Triple, pure-Triple, if-Triple, quietly-succeeds,
}
use vercel_clone.Builder.Keeping.{
  Accepts, then_Keeps, pure-Keeps, quietly-Keeps, call-Keeps, if-Keeps,
}
use vercel_clone.Builder.Confined.{Confined}
use vercel_clone.Builder.Private.{post_status-Keeps}
use vercel_clone.Tenant.{tenant_namespace_for}
use vercel_clone.Builder

-- Publishing only succeeds: after `mark_ready` no error makes the deployment fail.
module _ (env : Env) (c : ClaimedDeployment) {E : World → Type 0} where
  post_status-succeeds :
      {P : World → Type 0} (s d t : Text)
      → Triple P (Builder.post_status env s d t) (λ _. Anywhere) E
  unfolding Builder.post_status
  post_status-succeeds s d t = quietly-succeeds _

  move_pointer-succeeds :
      (b : Bool) → Triple Anywhere (Builder.move_pointer env c b) (λ _. Anywhere) E
  unfolding Builder.move_pointer
  move_pointer-succeeds false = pure-Triple (λ w h. tt)
  move_pointer-succeeds true =
      then_Triple (λ _. Anywhere) (quietly-succeeds _) (λ _. pure-Triple (λ w h. tt))

  apply_domains-succeeds :
      (ns : Text) (hs : List Text)
      → Triple Anywhere (Builder.apply_domains env c ns hs) (λ _. Anywhere) E
  unfolding Builder.apply_domains
  apply_domains-succeeds ns [] = pure-Triple (λ w h. tt)
  apply_domains-succeeds ns (h ∷ hs) =
      then_Triple (λ _. Anywhere) (quietly-succeeds _) (λ _. apply_domains-succeeds ns hs)

  apply_listed-succeeds :
      (ns : Text) (b : Bool) → Triple Anywhere (Builder.apply_listed env c ns b) (λ _. Anywhere) E
  unfolding Builder.apply_listed
  apply_listed-succeeds ns false = pure-Triple (λ w h. tt)
  apply_listed-succeeds ns true = apply_domains-succeeds ns _

  promote-succeeds :
      {P : World → Type 0} (ns : Text) → Triple P (Builder.promote env c ns) (λ _. Anywhere) E
  unfolding Builder.promote
  promote-succeeds ns =
      then_Triple (λ _. Anywhere) (quietly-succeeds _)
        (λ moved.
          then_Triple (λ _. Anywhere) (move_pointer-succeeds moved)
            (λ url.
              then_Triple (λ _. Anywhere) (quietly-succeeds _)
                (λ listed.
                  then_Triple (λ _. Anywhere) (apply_listed-succeeds ns listed)
                    (λ _.
                      then_Triple (λ _. Anywhere) (quietly-succeeds _)
                        (λ _.
                          then_Triple (λ _. Anywhere) (quietly-succeeds _)
                            (λ _. pure-Triple (λ w h. tt)))))))

  pub publish-succeeds : {P : World → Type 0} → Triple P (Builder.publish env c) (λ _. Anywhere) E
  unfolding Builder.publish
  publish-succeeds =
      then_Triple (λ _. Anywhere)
        (if-Triple (Builder.is_production c) (λ _. promote-succeeds _)
          (λ _. pure-Triple (λ w h. tt)))
        (λ url.
          then_Triple (λ _. Anywhere) (post_status-succeeds _ _ _) (λ _. pure-Triple (λ w h. tt)))

-- Whatever the calls confined to the deployment and the statement on the project keep.
module _ (env : Env) (c : ClaimedDeployment) (I : World → Type 0)
    (allow : (e : Effect) → Confined c e → Accepts I e)
    (pointer : (w : World)
      → I w
      → I (record {
        db = Builder.set_production c.project_id c.deployment_id w.db;
        trace = Effect.set_production_deployment c.project_id c.deployment_id ∷ w.trace;
      })) where
  abbrev ns : Text
  ns = tenant_namespace_for c.tenant_login

  move_pointer-Keeps : (b : Bool) → Keeps I (Builder.move_pointer env c b)
  unfolding Builder.move_pointer
  move_pointer-Keeps false = pure-Keeps
  move_pointer-Keeps true =
      then_Keeps
        (quietly-Keeps
          (write-Triple _ _ _ (λ w now h. pointer w h) (λ w h. allow _ (refl, refl) w h)))
        (λ _. pure-Keeps)

  apply_domains-Keeps : (hs : List Text) → Keeps I (Builder.apply_domains env c ns hs)
  unfolding Builder.apply_domains
  apply_domains-Keeps [] = pure-Keeps
  apply_domains-Keeps (h ∷ hs) =
      then_Keeps (quietly-Keeps (call-Keeps _ _ (allow _ refl))) (λ _. apply_domains-Keeps hs)

  apply_listed-Keeps : (b : Bool) → Keeps I (Builder.apply_listed env c ns b)
  unfolding Builder.apply_listed
  apply_listed-Keeps false = pure-Keeps
  apply_listed-Keeps true = apply_domains-Keeps _

  promote-Keeps : Keeps I (Builder.promote env c ns)
  unfolding Builder.promote
  promote-Keeps = then_Keeps (quietly-Keeps (call-Keeps _ _ (allow _ refl))) (λ moved.
      then_Keeps (move_pointer-Keeps moved) (λ url.
        then_Keeps (quietly-Keeps (call-Keeps _ _ (allow _ refl))) (λ listed.
          then_Keeps (apply_listed-Keeps listed) (λ _.
            then_Keeps (quietly-Keeps (call-Keeps _ _ (allow _ refl))) (λ _.
              then_Keeps (quietly-Keeps (call-Keeps _ _ (allow _ refl))) (λ _. pure-Keeps))))))

  pub publish-Keeps : Keeps I (Builder.publish env c)
  unfolding Builder.publish
  publish-Keeps =
      then_Keeps (if-Keeps (Builder.is_production c) promote-Keeps pure-Keeps)
        (λ url. then_Keeps (post_status-Keeps env c I (λ e h. allow e h.0) _ _ _) (λ _. pure-Keeps))
