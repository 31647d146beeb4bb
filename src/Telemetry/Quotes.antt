-- ===== src/Telemetry/Quotes.antt =====
-- Labels in quotes are split where they were joined.
use vercel_clone.Prelude.{
  ℕ, ◌≡◌, refl, sym, ap, ◌∙◌, Bool, true, false, ◌&&◌, List, [], ◌∷◌, ◌++◌, ◌==◌, nat_eq, All,
  if◌then◌else◌,
}
use vercel_clone.Prelude.Text.{Text, text_key}
use vercel_clone.Prelude.Split.{Lacks}
use vercel_clone.Telemetry

-- A key and a value, as Prometheus prints them: key="value".
abbrev pub show_label : Text × Text → Text
show_label (key, v) = key ++ b'=' ∷ b'"' ∷ (v ++ b'"' ∷ [])

abbrev pub show_all : List (Text × Text) → List Text
show_all [] = []
show_all (l ∷ ls) = show_label l ∷ show_all ls

abbrev pub join_labels : List Text → Text
join_labels [] = []
join_labels (l ∷ []) = l
join_labels (l ∷ m ∷ ls) = l ++ b',' ∷ join_labels (m ∷ ls)

-- No quote in the value; no quote and no comma in the key.
abbrev pub IsPlain : Text × Text → Type 0
IsPlain (key, v) = Lacks b'"' key × Lacks b',' key × Lacks b'"' v

++_assoc : (a b c : Text) → (a ++ b) ++ c ≡ a ++ (b ++ c)
++_assoc [] b c = refl
++_assoc (x ∷ a) b c = ap (λ s. x ∷ s) (++_assoc a b c)

++_nil : (a : Text) → a ++ [] ≡ a
++_nil [] = refl
++_nil (x ∷ a) = ap (λ s. x ∷ s) (++_nil a)

read_key :
    (cur key rest : Text)
    → Lacks b'"' key
    → Lacks b',' key
    → Telemetry.split_labels_from false cur (key ++ rest)
      ≡ Telemetry.split_labels_from false (cur ++ key) rest
read_key cur [] rest q c = rw (++_nil cur) refl
read_key cur (x ∷ key) rest (qx, qs) (cx, cs) =
    rw (qx, cx)
      (read_key (cur ++ x ∷ []) key rest qs cs
        ∙ ap (λ s. Telemetry.split_labels_from false s rest) (++_assoc cur (x ∷ []) key))

and_false : (b : Bool) → (b && false) ≡ false
and_false true = refl
and_false false = refl

read_value :
    (cur v rest : Text)
    → Lacks b'"' v
    → Telemetry.split_labels_from true cur (v ++ rest)
      ≡ Telemetry.split_labels_from true (cur ++ v) rest
read_value cur [] rest q = rw (++_nil cur) refl
read_value cur (x ∷ v) rest (qx, qs) =
    rw (qx, and_false (nat_eq x b','))
      (read_value (cur ++ x ∷ []) v rest qs
        ∙ ap (λ s. Telemetry.split_labels_from true s rest) (++_assoc cur (x ∷ []) v))

-- The bytes of a label, read one after the other.
label_read :
    (cur key v : Text)
    → ((((cur ++ key) ++ b'=' ∷ []) ++ b'"' ∷ []) ++ v) ++ b'"' ∷ [] ≡ cur ++ show_label (key, v)
label_read cur key v =
    ++_assoc (((cur ++ key) ++ b'=' ∷ []) ++ b'"' ∷ []) v (b'"' ∷ [])
    ∙ ++_assoc ((cur ++ key) ++ b'=' ∷ []) (b'"' ∷ []) (v ++ b'"' ∷ [])
    ∙ ++_assoc (cur ++ key) (b'=' ∷ []) (b'"' ∷ (v ++ b'"' ∷ []))
    ∙ ++_assoc cur key (b'=' ∷ b'"' ∷ (v ++ b'"' ∷ []))

filled : (a : Text) (x : ℕ) (b : Text) → ((a ++ x ∷ b) == []) ≡ false
filled [] x b = refl
filled (y ∷ a) x b = refl

-- One label, with what follows it.
read_label :
    (key v cur rest : Text)
    → IsPlain (key, v)
    → Telemetry.split_labels_from false cur (show_label (key, v) ++ rest)
      ≡ Telemetry.split_labels_from false (cur ++ show_label (key, v)) rest
read_label key v cur rest (kq, kc, vq) =
    ap (Telemetry.split_labels_from false cur) (++_assoc key (b'=' ∷ b'"' ∷ (v ++ b'"' ∷ [])) rest)
    ∙ read_key cur key (b'=' ∷ b'"' ∷ ((v ++ b'"' ∷ []) ++ rest)) kq kc
    ∙ ap (Telemetry.split_labels_from true (((cur ++ key) ++ b'=' ∷ []) ++ b'"' ∷ []))
        (++_assoc v (b'"' ∷ []) rest)
    ∙ read_value (((cur ++ key) ++ b'=' ∷ []) ++ b'"' ∷ []) v (b'"' ∷ rest) vq
    ∙ ap (λ s. Telemetry.split_labels_from false s rest) (label_read cur key v)

-- Joined with commas, labels of the form key="value" are split into the same labels again, where no
-- value has a quote and no key has a quote or a comma; the values may have commas.
pub split_labels-join_labels :
    (ls : List (Text × Text))
    → All IsPlain ls
    → Telemetry.split_labels (join_labels (show_all ls)) ≡ show_all ls
unfolding Telemetry.split_labels
split_labels-join_labels [] h = refl
split_labels-join_labels ((key, v) ∷ []) (h, _) =
    ap (Telemetry.split_labels_from false []) (sym (++_nil (show_label (key, v))))
    ∙ read_label key v [] [] h
    ∙ ap (λ b. if b then [] else show_label (key, v) ∷ [])
        (filled key b'=' (b'"' ∷ (v ++ b'"' ∷ [])))
split_labels-join_labels ((key, v) ∷ m ∷ ls) (h, hs) =
    read_label key v [] (b',' ∷ join_labels (show_all (m ∷ ls))) h
    ∙ ap (λ r. show_label (key, v) ∷ r) (split_labels-join_labels (m ∷ ls) hs)
