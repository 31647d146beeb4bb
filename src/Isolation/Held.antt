-- ===== src/Isolation/Held.antt =====
-- What the calls of `ensureTenant` make the API server hold, and what they leave held.
use mathlib.Core.Path.{subst}
use vercel_clone.Prelude.{
  ◌≡◌, refl, sym, ap, ◌∙◌, ◌⊎◌, inl, inr, Bool, false, ◌&&◌, Option, none, some, List, [], ◌∷◌,
  ◌==◌, All, eq_refl, if◌then◌else◌,
}
use vercel_clone.Prelude.Text.{Text, codes, text_key}
use vercel_clone.Prelude.Result.{Result, ok, err, Result-cases}
use vercel_clone.Prelude.Dict.{Dict, get}
use vercel_clone.Prelude.Json.{Fields, str, obj, get_field}
use vercel_clone.Kube.{Server, read, apply}
use vercel_clone.Kube.Contents.{Contents, Unchanged, Written, IsRefused, Applies}
use vercel_clone.Kube.Contents.Applied.{apply_refines}
use vercel_clone.Kube.Queries.{get_secret_data}
use vercel_clone.Isolation
use vercel_clone.Isolation.{
  Planned, registry_secret, docker_config_manifest, secrets, tenant_objects, apply_each,
  mirror_registry_pull_secret, ensure_tenant,
}

-- An object with its own name in its metadata.
pub record IsNamed (o : Planned) : Type 0 where
  pub fields : Fields
  pub metadata : Fields
  pub body_is : o.body ≡ obj fields
  pub metadata_is : get_field (codes "metadata") fields ≡ some (obj metadata)
  pub name_is : get_field (codes "name") metadata ≡ some (str o.name)

abbrev is_at : Planned → Planned → Bool
is_at o x = o.path == x.path && o.name == x.name

-- Another object than each of these.
abbrev pub IsFresh : Planned → List Planned → Type 0
IsFresh o [] = Unit
IsFresh o (x ∷ xs) = (is_at o x ≡ false) × IsFresh o xs

abbrev pub AreApart : List Planned → Type 0
AreApart [] = Unit
AreApart (o ∷ os) = IsFresh o os × AreApart os

module _ {S : Server} (C : Contents S) where
  -- The server holds the object.
  abbrev pub Holds : S.State → Planned → Type 0
  Holds s o = C.contents s o.path o.name ≡ some (C.spec o.body)

  apply-Holds_other :
      (o x : Planned) (s s' : S.State)
      → ((p n : Text)
          → C.contents s' p n
            ≡ (if p == x.path && n == x.name then some (C.spec x.body) else C.contents s p n))
      → is_at o x ≡ false
      → Holds s o
      → Holds s' o
  apply-Holds_other o x s s' after apart h =
      after o.path o.name
      ∙ ap (λ b. if b then some (C.spec x.body) else C.contents s o.path o.name) apart
      ∙ h

  apply-Holds :
      (o : Planned) (s s' : S.State)
      → ((p n : Text)
          → C.contents s' p n
            ≡ (if p == o.path && n == o.name then some (C.spec o.body) else C.contents s p n))
      → Holds s' o
  apply-Holds o s s' after = after o.path o.name ∙ rw (eq_refl o.path, eq_refl o.name) refl

  -- What an `apply` does to the map, and what it says of it.
  apply_lem :
      (o : Planned) (s : S.State)
      → IsNamed o
      → Applies C o.path o.name o.body s (apply S o.path o.name o.body s)
  apply_lem o s named =
      rw named.body_is (
        apply_refines C o.path o.name named.fields named.metadata s named.metadata_is named.name_is)

  map_change :
      (o : Planned) (s : S.State) (out : Result (Unit {0}) × S.State)
      → Applies C o.path o.name o.body s out
      → Unchanged (C.contents s) (C.contents out.1)
        ⊎ Written (C.contents s) (C.contents out.1) o.path o.name (C.spec o.body)
  map_change o s (r, s') (inl (done, w)) = inr w
  map_change o s (r, s') (inr (failed, refused, either)) = either

  apply_keeps :
      (o x : Planned) (s : S.State)
      → IsNamed x
      → is_at o x ≡ false
      → Holds s o
      → Holds (apply S x.path x.name x.body s).1 o
  apply_keeps o x s named apart h =
      elim (map_change x s (apply S x.path x.name x.body s) (apply_lem x s named)) [
        | inl same ↦ same o.path o.name ∙ h
        | inr w ↦ apply-Holds_other o x s (apply S x.path x.name x.body s).1 w apart h
      ]

  -- One of the objects was refused, after those before it were applied.
  abbrev pub IsRefusedOf : List Planned → S.State → Type 0
  IsRefusedOf [] s = ⊥
  IsRefusedOf (o ∷ os) s =
      IsRefused S o.path o.name o.body s
      ⊎ (((apply S o.path o.name o.body s).0 ≡ ok tt)
          × IsRefusedOf os (apply S o.path o.name o.body s).1)

  apply_each_step :
      (o : Planned) (os : List Planned) (s : S.State) (u : Unit {0})
      → (apply S o.path o.name o.body s).0 ≡ ok u
      → apply_each S (o ∷ os) s ≡ apply_each S os (apply S o.path o.name o.body s).1
  unfolding apply_each Isolation.and_then_call
  apply_each_step o os s u done =
      ap (λ r. Isolation.and_then_call S (r, (apply S o.path o.name o.body s).1) (apply_each S os))
        done

  apply_each_stop :
      (o : Planned) (os : List Planned) (s : S.State) (e : Text)
      → (apply S o.path o.name o.body s).0 ≡ err e
      → apply_each S (o ∷ os) s ≡ (err e, (apply S o.path o.name o.body s).1)
  unfolding apply_each Isolation.and_then_call
  apply_each_stop o os s e failed =
      ap (λ r. Isolation.and_then_call S (r, (apply S o.path o.name o.body s).1) (apply_each S os))
        failed

  -- What is held stays.
  apply_each_keeps :
      (o : Planned) (os : List Planned) (s : S.State)
      → All IsNamed os
      → IsFresh o os
      → Holds s o
      → Holds (apply_each S os s).1 o
  unfolding apply_each Isolation.and_then_call
  apply_each_keeps o [] s named fresh h = h
  apply_each_keeps o (x ∷ os) s (nx, named) (fx, fresh) h =
      let kept = apply_keeps o x s nx fx h in
      elim (Result-cases (apply S x.path x.name x.body s).0) [
        | inl (e, failed) ↦
            subst (λ out. Holds out.1 o) (sym (apply_each_stop x os s e failed)) kept
        | inr (u, done) ↦
            subst (λ out. Holds out.1 o) (sym (apply_each_step x os s u done))
              (apply_each_keeps o os (apply S x.path x.name x.body s).1 named fresh kept)
      ]

  -- All is applied and held, or one object was refused.
  abbrev pub Settles : List Planned → S.State → Result (Unit {0}) × S.State → Type 0
  Settles os s (r, s') =
      ((r ≡ ok tt) × All (Holds s') os) ⊎ (((e : Text) × (r ≡ err e)) × IsRefusedOf os s)

  later_object :
      (o : Planned) (os : List Planned) (s : S.State) (u : Unit {0})
      → (apply S o.path o.name o.body s).0 ≡ ok u
      → (Holds (apply S o.path o.name o.body s).1 o
          → Holds (apply_each S os (apply S o.path o.name o.body s).1).1 o)
      → Holds (apply S o.path o.name o.body s).1 o
      → (out : Result (Unit {0}) × S.State)
      → out ≡ apply_each S os (apply S o.path o.name o.body s).1
      → Settles os (apply S o.path o.name o.body s).1 out
      → Settles (o ∷ os) s out
  later_object o os s u done stays held (r, s') e (inl (fine, all)) =
      inl (fine, (subst (λ t. Holds t.1 o) (sym e) (stays held), all))
  later_object o os s u done stays held (r, s') e (inr (failed, refused)) =
      inr (failed, inr (done, refused))

  first_object :
      (o : Planned) (os : List Planned) (s : S.State) (out : Result (Unit {0}) × S.State)
      → out ≡ apply S o.path o.name o.body s
      → Applies C o.path o.name o.body s out
      → (Holds (apply S o.path o.name o.body s).1 o
          → Holds (apply_each S os (apply S o.path o.name o.body s).1).1 o)
      → Settles os
          (apply S o.path o.name o.body s).1
          (apply_each S os (apply S o.path o.name o.body s).1)
      → Settles (o ∷ os) s (apply_each S (o ∷ os) s)
  first_object o os s (r, s1) e (inl (done, w)) stays rest =
      let ok_there = ap (λ t. t.0) (sym e) ∙ done in
      subst (Settles (o ∷ os) s) (sym (apply_each_step o os s tt ok_there)) (
        later_object o os s tt ok_there stays (subst (λ t. Holds t.1 o) e (apply-Holds o s s1 w))
          (apply_each S os (apply S o.path o.name o.body s).1) refl rest)
  first_object o os s (r, s1) e (inr ((why, failed), refused, either)) stays rest =
      subst (Settles (o ∷ os) s) (sym (apply_each_stop o os s why (ap (λ t. t.0) (sym e) ∙ failed)))
        (inr ((why, refl), inl refused))

  pub apply_each-Settles :
      (os : List Planned) (s : S.State)
      → All IsNamed os
      → AreApart os
      → Settles os s (apply_each S os s)
  unfolding apply_each
  apply_each-Settles [] s named apart = inl (refl, tt)
  apply_each-Settles (o ∷ os) s (first, named) (fresh, apart) =
      first_object o os s (apply S o.path o.name o.body s) refl (apply_lem o s first)
        (apply_each_keeps o os (apply S o.path o.name o.body s).1 named fresh)
        (apply_each-Settles os (apply S o.path o.name o.body s).1 named apart)

  config_keeps :
      (ns : Text) (o : Planned) (config : Option Text) (s : S.State)
      → (o.path == secrets S ns && o.name == registry_secret) ≡ false
      → Holds s o
      → Holds (Isolation.mirror_config S ns config s).1 o
  unfolding Isolation.mirror_config
  config_keeps ns o none s apart h = h
  config_keeps ns o (some []) s apart h = h
  config_keeps ns o (some (c ∷ cs)) s apart h =
      let secret : Planned = record {
        path = secrets S ns;
        name = registry_secret;
        body = docker_config_manifest ns registry_secret (S.encode_base64 (c ∷ cs));
      } in
      apply_keeps o secret s
        (record { fields = _; metadata = _; body_is = refl; metadata_is = refl; name_is = refl })
        apart h

  data_keeps :
      (ns : Text) (o : Planned) (r : Result (Option (Dict Text Text))) (s : S.State)
      → (o.path == secrets S ns && o.name == registry_secret) ≡ false
      → Holds s o
      → Holds (Isolation.mirror_data S ns (r, s)).1 o
  unfolding Isolation.mirror_data
  data_keeps ns o (err e) s apart h = h
  data_keeps ns o (ok none) s apart h = h
  data_keeps ns o (ok (some m)) s apart h =
      config_keeps ns o (get m (codes ".dockerconfigjson")) s apart h

  mirror_keeps :
      (ns : Text) (o : Planned) (s : S.State)
      → (o.path == secrets S ns && o.name == registry_secret) ≡ false
      → Holds s o
      → Holds (mirror_registry_pull_secret S ns s).1 o
  unfolding mirror_registry_pull_secret get_secret_data
  mirror_keeps ns o s apart h =
      data_keeps ns o (get_secret_data S (codes "paas-system") registry_secret s).0
        (get_secret_data S (codes "paas-system") registry_secret s).1 apart
        (C.read_any (secrets S (codes "paas-system")) registry_secret s
            (S.serve (read (secrets S (codes "paas-system")) registry_secret) s).1
            (S.serve (read (secrets S (codes "paas-system")) registry_secret) s).0 refl o.path
            o.name
          ∙ h)

  pub mirror_keeps_All :
      (ns : Text) (os : List Planned) (s : S.State)
      → All (λ o. (o.path == secrets S ns && o.name == registry_secret) ≡ false) os
      → All (Holds s) os
      → All (Holds (mirror_registry_pull_secret S ns s).1) os
  mirror_keeps_All ns [] s apart h = tt
  mirror_keeps_All ns (o ∷ os) s (a, apart) (h, hs) =
      (mirror_keeps ns o s a h, mirror_keeps_All ns os s apart hs)
