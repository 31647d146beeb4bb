-- ===== src/Builder/Keeping.antt =====
-- Invariants of actions, above all that every call satisfies a predicate.
use vercel_clone.Prelude.{ℕ, Bool, ◌∷◌, All, if◌then◌else◌}
use vercel_clone.Prelude.Text.{Text}
use vercel_clone.Prelude.Result.{Result, ok, err}
use vercel_clone.Store.{Database}
use vercel_clone.Builder.Effects.{
  Effect, Env, World, Action, pure, raise, lift, ◌>>=◌, quietly, wrap, call, write,
}
use vercel_clone.Builder.Triples.{
  Outcome, Keeps, then_Triple, pure-Triple, raise-Triple, read-Triple, lift-Triple, wrap-Triple,
  quietly-Triple, call-Triple, write-Triple, if-Triple,
}

abbrev pub Calls : (Effect → Type 0) → World → Type 0
Calls P w = All P w.trace

-- The call may be made anywhere.
abbrev pub Accepts : (World → Type 0) → Effect → Type 0
Accepts I e = (w : World) → I w → I (record w { trace = e ∷ w.trace })

module _ {I : World → Type 0} where
  pub then_Keeps :
      {A B : Type 0} {m : Action A} {f : A → Action B}
      → Keeps I m
      → ((a : A) → Keeps I (f a))
      → Keeps I (m >>= f)
  then_Keeps first next = then_Triple (λ _. I) first next

  pub pure-Keeps : {A : Type 0} {a : A} → Keeps I (pure a)
  pure-Keeps = pure-Triple (λ w h. h)

  pub raise-Keeps : {A : Type 0} {e : Text} → Keeps {A = A} I (raise e)
  raise-Keeps = raise-Triple (λ w h. h)

  pub lift-Keeps : {A : Type 0} {r : Result A} → Keeps I (lift r)
  lift-Keeps {r} = lift-Triple r (λ a e w h. h) (λ w h. h)

  pub read-Keeps : {A : Type 0} {f : World → A} → Keeps I (λ w. (ok (f w), w))
  read-Keeps = read-Triple (λ w h. h)

  pub wrap-Keeps : {A : Type 0} (s : Text) {m : Action A} → Keeps I m → Keeps I (wrap s m)
  wrap-Keeps s h = wrap-Triple s h

  pub quietly-Keeps : {m : Action (Unit {0})} → Keeps I m → Keeps I (quietly m)
  quietly-Keeps h = quietly-Triple h

  pub call-Keeps : (env : Env) (e : Effect) → Accepts I e → Keeps I (call env e)
  call-Keeps env e p = call-Triple env e p p

  pub if-Keeps :
      {A : Type 0} (b : Bool) {m n : Action A}
      → Keeps I m
      → Keeps I n
      → Keeps I (if b then m else n)
  if-Keeps b hm hn = if-Triple b (λ _. hm) (λ _. hn)

pub accept-Calls : (P : Effect → Type 0) (e : Effect) → P e → Accepts (Calls P) e
accept-Calls P e p w h = (p, h)

pub call-Calls : {P : Effect → Type 0} (env : Env) (e : Effect) → P e → Keeps (Calls P) (call env e)
call-Calls env e p = call-Triple env e (λ w h. (p, h)) (λ w h. (p, h))

pub write-Calls :
    {P : Effect → Type 0} (env : Env) (e : Effect) (f : ℕ → Database → Database)
    → P e
    → Keeps (Calls P) (write env e f)
write-Calls env e f p = write-Triple env e f (λ w now h. (p, h)) (λ w h. (p, h))

Outcome-Calls :
    {A : Type 0} (P : Effect → Type 0) (r : Result A) (w : World)
    → Outcome (λ _. Calls P) (Calls P) (r, w)
    → Calls P w
Outcome-Calls P (ok _) w h = h
Outcome-Calls P (err _) w h = h

pub Keeps-Calls :
    {A : Type 0} {P : Effect → Type 0} {m : Action A}
    → Keeps (Calls P) m
    → (w : World) → Calls P w
    → Calls P (m w).1
Keeps-Calls {P} {m} k w h = Outcome-Calls P (m w).0 (m w).1 (k.runs w h)
