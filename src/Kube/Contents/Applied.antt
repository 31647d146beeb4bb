-- ===== src/Kube/Contents/Applied.antt =====
-- The proof that `apply` is a write, for every answer of the server.
use vercel_clone.Prelude.{
  ◌≡◌, refl, ap, ◌∙◌, inl, inr, Bool, ◌&&◌, Option, some, ℕ, nat_eq, ◌==◌, Bool-cases, Option-cases,
  arith, if◌then◌else◌,
}
use vercel_clone.Prelude.Text.{Text, codes, text_key}
use vercel_clone.Prelude.Result.{Result, ok, err}
use vercel_clone.Prelude.Json.{
  Json, str, obj, Fields, get_field, set_field, get_field-set_field_self,
}
use vercel_clone.Kube.{Server, create, read, replace, is_success, set_version, version_of, apply}
use vercel_clone.Kube
use vercel_clone.Kube.Contents.{
  Unchanged, Written, Contents, IsRefused, not_created, not_read, not_decoded, not_replaced,
  answers, is_settled, Applies,
}

-- The version that is set is the version that is read.
version_of-set_version :
    (rv : Text) (fs md : Fields)
    → get_field (codes "metadata") fs ≡ some (obj md)
    → version_of (set_version rv (obj fs)) ≡ rv
unfolding version_of set_version
version_of-set_version rv fs md h =
    rw (h, Kube.metadata_set)
      (rw
        (get_field-set_field_self (codes "metadata")
          (obj (set_field (codes "resourceVersion") (str rv) md)) fs)
        (rw (get_field-set_field_self (codes "resourceVersion") (str rv) md) refl))

module _ {S : Server} (C : Contents S) (path name : Text) (fs md : Fields) (s : S.State) where
  -- What was written after nothing changed.
  two_steps :
      (a b c : Text → Text → Option C.Spec) (v : C.Spec)
      → Unchanged a b
      → Written b c path name v
      → Written a c path name v
  two_steps a b c v same w p n =
      w p n ∙ ap (λ x. if p == path && n == name then some v else x) (same p n)

  without_version :
      (a b : Text → Text → Option C.Spec) (rv : Text) (o : Json)
      → Written a b path name (C.spec (set_version rv o))
      → Written a b path name (C.spec o)
  without_version a b rv o w p n =
      w p n ∙ ap (λ v. if p == path && n == name then some v else a p n) (C.spec-set_version rv o)

  replaced_lem :
      (rv : Text) (s2 s3 : S.State) (r : Result (ℕ × S.Body))
      → S.serve (replace path name (set_version rv (obj fs))) s2 ≡ (r, s3)
      → version_of (set_version rv (obj fs)) ≡ C.version s2 path name
      → Unchanged (C.contents s) (C.contents s2)
      → (answers is_settled r ≡ Bool.false → IsRefused S path name (obj fs) s)
      → Applies C path name (obj fs) s (Kube.replaced S (r, s3))
  unfolding Kube.replaced
  replaced_lem rv s2 s3 (err e) q current same refuse = inr (
    (e, refl),
    refuse refl,
    elim (C.replace_any path name (set_version rv (obj fs)) s2 s3 (err e) q) [
      | inl u ↦ inl (λ p n. u p n ∙ same p n)
      | inr w ↦ inr (
          two_steps (C.contents s) (C.contents s2) (C.contents s3) (C.spec (obj fs)) same
            (without_version (C.contents s2) (C.contents s3) rv (obj fs) w))
    ],
  )
  replaced_lem rv s2 s3 (ok (status, b)) q current same refuse =
      let o = set_version rv (obj fs) in
      elim (Bool-cases (is_success status)) [
        | inl e ↦ rw e (
            inl (
              refl,
              two_steps (C.contents s) (C.contents s2) (C.contents s3) (C.spec (obj fs)) same (
                  without_version (C.contents s2) (C.contents s3) rv (obj fs)
                    (C.replace_success path name o s2 s3 status b q e)),
            ))
        | inr e ↦
            let free = C.replace_current path name o s2 s3 status b q current in
            rw e (
              inr (
                (codes "update", refl),
                refuse (rw (e, free) refl),
                elim (C.replace_any path name o s2 s3 (ok (status, b)) q) [
                  | inl u ↦ inl (λ p n. u p n ∙ same p n)
                  | inr w ↦ inr (
                      two_steps (C.contents s) (C.contents s2) (C.contents s3) (C.spec (obj fs))
                        same (without_version (C.contents s2) (C.contents s3) rv (obj fs) w))
                ],
              ))
      ]

  current_lem :
      (b : S.Body) (s1 s2 : S.State) (r : Result (ℕ × S.Body))
      → S.serve (create path (obj fs)) s ≡ (ok (409, b), s1)
      → S.serve (read path name) s1 ≡ (r, s2)
      → get_field (codes "metadata") fs ≡ some (obj md)
      → Applies C path name (obj fs) s (Kube.current S path name (obj fs) (r, s2))
  unfolding Kube.current Kube.versioned
  current_lem b s1 s2 (err e) q1 q2 hm =
      let same1 = C.create_conflict path (obj fs) s s1 b q1 in
      let same2 = C.read_any path name s1 s2 (err e) q2 in
      inr ((e, refl), not_read (rw q1 (rw q2 refl)), inl (λ p n. same2 p n ∙ same1 p n))
  current_lem b s1 s2 (ok (status, b2)) q1 q2 hm =
      let same1 = C.create_conflict path (obj fs) s s1 b q1 in
      let same2 = C.read_any path name s1 s2 (ok (status, b2)) q2 in
      let same : Unchanged (C.contents s) (C.contents s2) = λ p n. same2 p n ∙ same1 p n in
      elim (Bool-cases (nat_eq status 200)) [
        | inr e ↦ rw e (inr ((codes "get", refl), not_read (rw q1 (rw q2 e)), inl same))
        | inl e ↦
            let is_200 : status ≡ 200 = ground (arith, e) in
            elim (Option-cases (S.decode_object b2)) [
              | inl none_there ↦
                  rw (e, none_there)
                    (inr (
                      (codes "decode existing", refl),
                      not_decoded b2 (rw q1 (rw (q2, is_200) refl)) none_there,
                      inl same,
                    ))
              | inr (found, decoded) ↦
                  let q2' : S.serve (read path name) s1 ≡ (ok (200, b2), s2) =
                    rw (q2, is_200) refl in
                  rw (e, decoded)
                    (replaced_lem (version_of found) s2
                      (S.serve (replace path name (set_version (version_of found) (obj fs))) s2).1
                      (S.serve (replace path name (set_version (version_of found) (obj fs))) s2).0
                      refl
                      (version_of-set_version (version_of found) fs md hm
                        ∙ C.read_success path name s1 s2 b2 found q2' decoded)
                      same
                      (λ refused.
                        not_replaced b2 found (rw q1 (rw q2' refl)) decoded
                          (rw q1 (rw q2' refused))))
            ]
      ]

  created_lem :
      (s1 : S.State) (r : Result (ℕ × S.Body))
      → S.serve (create path (obj fs)) s ≡ (r, s1)
      → get_field (codes "metadata") fs ≡ some (obj md)
      → get_field (codes "name") md ≡ some (str name)
      → Applies C path name (obj fs) s (Kube.created S path name (obj fs) (r, s1))
  unfolding Kube.created
  created_lem s1 (err e) q hm hn =
      inr ((e, refl), not_created (rw q refl), C.create_any path name fs md s s1 (err e) hm hn q)
  created_lem s1 (ok (status, b)) q hm hn = elim (Bool-cases (is_success status)) [
    | inl e ↦ rw e (inl (refl, C.create_success path name fs md s s1 status b hm hn q e))
    | inr e ↦ elim (Bool-cases (nat_eq status 409)) [
      | inr other ↦
          rw (e, other)
            (inr (
              (codes "create", refl),
              not_created (rw q (rw (e, other) refl)),
              C.create_any path name fs md s s1 (ok (status, b)) hm hn q,
            ))
      | inl conflict ↦
          let is_409 : status ≡ 409 = ground (arith, conflict) in
          rw (e, conflict)
            (current_lem b s1 (S.serve (read path name) s1).1 (S.serve (read path name) s1).0
              (rw (q, is_409) refl) refl hm)
    ]
  ]

-- Whatever the server answers, with an object that has its name in its metadata: `apply` has no error
-- and the object is what the server keeps under its name, with all else as it was, whether there was an
-- object before or not; or the server refused one of its requests, other than by a conflict of versions,
-- and then `apply` reports an error and has at most written the object.
pub apply_refines :
    {S : Server} (C : Contents S) (path name : Text) (fs md : Fields) (s : S.State)
    → get_field (codes "metadata") fs ≡ some (obj md)
    → get_field (codes "name") md ≡ some (str name)
    → Applies C path name (obj fs) s (apply S path name (obj fs) s)
unfolding apply
apply_refines {S} C path name fs md s hm hn =
    created_lem C path name fs md s (S.serve (create path (obj fs)) s).1
      (S.serve (create path (obj fs)) s).0 refl hm hn
