-- ===== src/Builder/Triples.antt =====
-- Reasoning about actions of the builder: a triple says where an action leads, on success and on an
-- error, from the worlds that satisfy a predicate.
use vercel_clone.Prelude.{
  ℕ, ◌≡◌, refl, Bool, true, false, ◌∷◌, Bool-cases, Option-cases, inl, inr, if◌then◌else◌,
}
use vercel_clone.Prelude.Text.{Text}
use vercel_clone.Prelude.Result.{Result, ok, err}
use vercel_clone.Store.{Database}
use vercel_clone.Builder.Effects.{
  Effect, Env, World, Action, pure, raise, lift, continue, ◌>>=◌, quietly, continue_quietly, wrap,
  add_context, call, write,
}

abbrev pub Outcome :
    {A : Type 0} → (A → World → Type 0) → (World → Type 0) → Result A × World → Type 0
Outcome Q E (ok a, w) = Q a w
Outcome Q E (err _, w) = E w

pub record Triple {A : Type 0} (P : World → Type 0) (m : Action A) (Q : A → World → Type 0)
    (E : World → Type 0) : Type 0 where
  pub runs : (w : World) → P w → Outcome Q E (m w)

-- The action keeps an invariant, whether it succeeds or not.
abbrev pub Keeps : {A : Type 0} → (World → Type 0) → Action A → Type 0
Keeps I m = Triple I m (λ _. I) I

continue-Outcome :
    {A B : Type 0} (Q : A → World → Type 0) (R : B → World → Type 0) (E : World → Type 0)
    (f : A → Action B)
    → ((a : A) → Triple (Q a) (f a) R E)
    → (r : Result A) (w : World) → Outcome Q E (r, w)
    → Outcome R E (continue r f w)
continue-Outcome Q R E f next (ok a) w h = (next a).runs w h
continue-Outcome Q R E f next (err e) w h = h

pub then_Triple :
    {A B : Type 0} {P : World → Type 0} (Q : A → World → Type 0) {R : B → World → Type 0}
    {E : World → Type 0} {m : Action A} {f : A → Action B}
    → Triple P m Q E
    → ((a : A) → Triple (Q a) (f a) R E)
    → Triple P (m >>= f) R E
unfolding ◌>>=◌
then_Triple {P} Q {R} {E} {m} {f} first next = record {
  runs = λ w p. continue-Outcome Q R E f next (m w).0 (m w).1 (first.runs w p);
}

wrapped :
    {A : Type 0} (Q : A → World → Type 0) (E : World → Type 0) (s : Text) (r : Result A) (w : World)
    → Outcome Q E (r, w)
    → Outcome Q E (add_context s r, w)
wrapped Q E s (ok a) w h = h
wrapped Q E s (err e) w h = h

module _ {A : Type 0} {P : World → Type 0} {Q : A → World → Type 0} {E : World → Type 0} where
  pub pure-Triple : {a : A} → ((w : World) → P w → Q a w) → Triple P (pure a) Q E
  pure-Triple h = record { runs = h }

  pub raise-Triple : {e : Text} → ((w : World) → P w → E w) → Triple P (raise e) Q E
  raise-Triple h = record { runs = h }

  -- Reading of the world.
  pub read-Triple :
      {f : World → A} → ((w : World) → P w → Q (f w) w) → Triple P (λ w. (ok (f w), w)) Q E
  read-Triple h = record { runs = h }

  pub lift-Triple :
      (r : Result A)
      → ((a : A) → r ≡ ok a → (w : World) → P w → Q a w)
      → ((w : World) → P w → E w)
      → Triple P (lift r) Q E
  lift-Triple (ok a) good bad = record { runs = good a refl }
  lift-Triple (err e) good bad = record { runs = bad }

  pub wrap-Triple : (s : Text) {m : Action A} → Triple P m Q E → Triple P (wrap s m) Q E
  unfolding wrap
  wrap-Triple s {m} h = record { runs = λ w p. wrapped Q E s (m w).0 (m w).1 (h.runs w p) }

  pub if-Triple :
      (b : Bool) {m n : Action A}
      → (b ≡ true → Triple P m Q E)
      → (b ≡ false → Triple P n Q E)
      → Triple P (if b then m else n) Q E
  if-Triple b kept dropped = elim (Bool-cases b) [
    | inl e ↦ rw e (kept e)
    | inr e ↦ rw e (dropped e)
  ]

-- A logged error goes on from where the action failed.
settled :
    (Q : Bool → World → Type 0) (E : World → Type 0) (r : Result (Unit {0})) (w : World)
    → Outcome (λ _. Q true) (Q false) (r, w)
    → Outcome Q E (continue_quietly (r, w))
settled Q E (ok _) w h = h
settled Q E (err _) w h = h

pub quietly-Triple :
    {P : World → Type 0} {Q : Bool → World → Type 0} {E : World → Type 0} {m : Action (Unit {0})}
    → Triple P m (λ _. Q true) (Q false)
    → Triple P (quietly m) Q E
unfolding quietly
quietly-Triple {Q} {E} {m} h = record { runs = λ w p. settled Q E (m w).0 (m w).1 (h.runs w p) }

module _ {P Q E : World → Type 0} (env : Env) (e : Effect) where
  pub call-Triple :
      ((w : World) → P w → Q (record w { trace = e ∷ w.trace }))
      → ((w : World) → P w → E (record w { trace = e ∷ w.trace }))
      → Triple P (call env e) (λ _. Q) E
  unfolding call
  call-Triple good bad = record {
    runs = λ w p. elim (Option-cases (env.fails w.trace e)) [
      | inl fine ↦ rw fine (good w p)
      | inr (m, broken) ↦ rw broken (bad w p)
    ];
  }

  -- A failed statement changes no row.
  pub write-Triple :
      (f : ℕ → Database → Database)
      → ((w : World) (now : ℕ) → P w → Q (record { db = f now w.db; trace = e ∷ w.trace }))
      → ((w : World) → P w → E (record w { trace = e ∷ w.trace }))
      → Triple P (write env e f) (λ _. Q) E
  unfolding write
  write-Triple f good bad = record {
    runs = λ w p. elim (Option-cases (env.fails w.trace e)) [
      | inl fine ↦ rw fine (good w (env.now w.trace) p)
      | inr (m, broken) ↦ rw broken (bad w p)
    ];
  }

abbrev pub Anywhere : World → Type 0
Anywhere _ = Unit

Outcome-Anywhere : {A : Type 0} (r : Result A) (w : World) → Outcome (λ _. Anywhere) Anywhere (r, w)
Outcome-Anywhere (ok a) w = tt
Outcome-Anywhere (err e) w = tt

-- An action whose errors are logged succeeds.
pub quietly-succeeds :
    {P E : World → Type 0} (m : Action (Unit {0})) → Triple P (quietly m) (λ _. Anywhere) E
quietly-succeeds m = quietly-Triple (record { runs = λ w p. Outcome-Anywhere (m w).0 (m w).1 })

pub any-Triple :
    {A : Type 0} {P : World → Type 0} (m : Action A) → Triple P m (λ _. Anywhere) Anywhere
any-Triple m = record { runs = λ w p. Outcome-Anywhere (m w).0 (m w).1 }

-- Two triples of one action hold together, and their conclusions may be weakened.
both_outcomes :
    {A : Type 0} {Q S R : A → World → Type 0} {E F G : World → Type 0}
    → ((a : A) (w : World) → Q a w → S a w → R a w)
    → ((w : World) → E w → F w → G w)
    → (r : Result A) (w : World) → Outcome Q E (r, w)
    → Outcome S F (r, w)
    → Outcome R G (r, w)
both_outcomes good bad (ok a) w h k = good a w h k
both_outcomes good bad (err e) w h k = bad w h k

pub both_Triple :
    {A : Type 0} {P : World → Type 0} {Q S R : A → World → Type 0} {E F G : World → Type 0}
    {m : Action A}
    → ((a : A) (w : World) → Q a w → S a w → R a w)
    → ((w : World) → E w → F w → G w)
    → Triple P m Q E
    → Triple P m S F
    → Triple P m R G
both_Triple {Q} {S} {R} {E} {F} {G} {m} good bad h k = record {
  runs = λ w p.
      both_outcomes {Q = Q} {S = S} {R = R} {E = E} {F = F} {G = G} good bad (m w).0 (m w).1
        (h.runs w p) (k.runs w p);
}

-- A stronger start and a weaker end.
pub from_Triple :
    {A : Type 0} {P P' : World → Type 0} {Q : A → World → Type 0} {E : World → Type 0}
    {m : Action A}
    → ((w : World) → P' w → P w)
    → Triple P m Q E
    → Triple P' m Q E
from_Triple start h = record { runs = λ w p. h.runs w (start w p) }

pub weaken-Triple :
    {A : Type 0} {P : World → Type 0} {Q R : A → World → Type 0} {E G : World → Type 0}
    {m : Action A}
    → ((a : A) (w : World) → Q a w → R a w)
    → ((w : World) → E w → G w)
    → Triple P m Q E
    → Triple P m R G
weaken-Triple good bad h =
    both_Triple {S = λ _. Anywhere} {F = Anywhere} (λ a w q _. good a w q) (λ w e _. bad w e) h
      (any-Triple _)

-- A fact that holds at the start is at hand for the whole action.
pub with_fact :
    {A : Type 0} {F : Type 0} {P : World → Type 0} {Q : A → World → Type 0} {E : World → Type 0}
    {m : Action A}
    → (F → Triple P m Q E)
    → Triple (λ w. F × P w) m Q E
with_fact h = record { runs = λ w p. (h p.0).runs w p.1 }

-- The two ends of an outcome.
pub at_ok :
    {A : Type 0} (Q E : World → Type 0) (o : Result A × World) {a : A}
    → o.0 ≡ ok a
    → Outcome (λ _. Q) E o
    → Q o.1
at_ok Q E (ok b, w) h q = q
at_ok Q E (err e, w) h q = cc

pub at_err :
    {A : Type 0} (Q E : World → Type 0) (o : Result A × World) {e : Text}
    → o.0 ≡ err e
    → Outcome (λ _. Q) E o
    → E o.1
at_err Q E (ok a, w) h q = cc
at_err Q E (err e, w) h q = q
