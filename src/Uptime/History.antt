-- ===== src/Uptime/History.antt =====
-- What the tracker keeps.
use vercel_clone.Prelude.{
  ℕ, zero, suc, ◌-◌, ◌≡◌, ◌≢◌, ◌≤◌, refl, inl, inr, some, List, [], ◌∷◌, ◌++◌, ltb, length, drop,
  arith, eq_refl, Bool-cases, ◌∙◌, length-append, length-drop, ltb→le,
}
use vercel_clone.Prelude.Text.{Text, text_key}
use vercel_clone.Prelude.Dict.{Dict, get, get-put}
use vercel_clone.Uptime.{
  UptimeSample, uptime_history_len, snapshot, newest, record_sample, last_ok, summarize_uptime,
}

length-newest : (h : List UptimeSample) → length (newest h) ≤ 48
length-newest h = elim (Bool-cases (ltb uptime_history_len (length h))) [
  | inl long ↦ rw long (omega (arith, length-drop (length h - 48) h))
  | inr short ↦ rw short (ltb→le 48 (length h) short)
]

drop-snoc :
    (n : ℕ) (h : List UptimeSample) (s : UptimeSample)
    → n ≤ length h
    → last_ok (drop n (h ++ s ∷ [])) ≡ s.is_ok
drop-snoc zero [] s le = refl
drop-snoc zero (_ ∷ []) s le = refl
drop-snoc zero (_ ∷ t ∷ h) s le = drop-snoc 0 (t ∷ h) s (omega arith)
drop-snoc (suc n) [] s le = absurd (omega arith)
drop-snoc (suc n) (_ ∷ h) s le = drop-snoc n h s (omega (arith, le))

newest-last : (h : List UptimeSample) (s : UptimeSample) → last_ok (newest (h ++ s ∷ [])) ≡ s.is_ok
newest-last h s = elim (Bool-cases (ltb uptime_history_len (length (h ++ s ∷ [])))) [
  | inl long ↦
      rw long (drop-snoc (length (h ++ s ∷ []) - 48) h s (omega (arith, length-append h (s ∷ []))))
  | inr short ↦ rw short (drop-snoc 0 h s (omega arith))
]

summary-last : (h : List UptimeSample) → (summarize_uptime h).last_ok ≡ last_ok h
unfolding summarize_uptime
summary-last [] = refl
summary-last (_ ∷ _) = refl

-- After a probe of a project, that project's history has at most 48 samples, its summary says
-- whether this probe was in order, and the history of any other project is as it was.
pub record_sample_lem :
    (project other : Text) (s : UptimeSample) (m : Dict Text (List UptimeSample))
    → project ≢ []
    → project ≢ other
    → (length (snapshot (record_sample project s m) project) ≤ 48)
      × ((summarize_uptime (snapshot (record_sample project s m) project)).last_ok ≡ s.is_ok)
      × (snapshot (record_sample project s m) other ≡ snapshot m other)
unfolding snapshot record_sample
record_sample_lem project other s m named differs =
    let h = newest (snapshot m project ++ s ∷ []) in
    let stored : get (record_sample project s m) project ≡ some h =
      ground (arith, get-put m project project h, eq_refl project, text_key.same_iff project []) in
    (
      rw stored (length-newest (snapshot m project ++ s ∷ [])),
      rw stored (summary-last h ∙ newest-last (snapshot m project) s),
      ground (
        arith,
        get-put m project other h,
        text_key.same_iff project other,
        text_key.same_iff project [],
      ),
    )
