-- ===== src/Webhook/Deliveries.antt =====
-- What a delivery does at most once, and what it may do at all.
use vercel_clone.Prelude.{
  ℕ, ◌≡◌, ◌≢◌, refl, inl, inr, true, false, [], ◌∷◌, ◌==◌, arith, ltb, length, Bool-cases, eq_refl,
}
use vercel_clone.Prelude.Text.{Text, text_key}
use vercel_clone.Store.{Database}
use vercel_clone.Webhook.{
  Envelope, GithubRepo, PullRequest, Outside, Request, Response, bad_request, invalid_signature,
  internal_error, accepted,
}
use vercel_clone.Webhook.Kept.{dispatch-SameDeliveries}
use vercel_clone.Webhook

Recorded : Text → Database → Type 0
Recorded d db = (d ≢ []) × (Webhook.is_recorded d db.webhook_deliveries ≡ true)

module _ (out : Outside) (now : ℕ) (max_projects : ℕ) where
  module _ (secret : Text) where
    -- A request whose signature does not verify changes nothing, whatever it asks for.
    pub unsigned_unchanged :
        (r : Request) (db : Database)
        → Webhook.verify_signature out now max_projects secret r.signature r.body ≡ false
        → (Webhook.handle_github_webhook out now max_projects secret r db).1 ≡ db
    unfolding Webhook.handle_github_webhook
    unsigned_unchanged r db bad = elim (Bool-cases (ltb Webhook.max_body_bytes (length r.body))) [
      | inl long ↦ rw long refl
      | inr short ↦ rw (short, bad) refl
    ]

    -- A delivery on record changes nothing.
    Recorded-unchanged :
        (r : Request) (db : Database)
        → Recorded r.delivery db
        → (Webhook.handle_github_webhook out now max_projects secret r db).1 ≡ db
    unfolding Webhook.handle_github_webhook Webhook.answer Webhook.record_delivery Recorded
    Recorded-unchanged r db (named, h) = ground (arith, text_key.same_iff r.delivery [], h)

    -- A delivery that is dealt with for the first time is on record afterwards.
    Recorded-after :
        (r : Request) (db : Database)
        → ltb Webhook.max_body_bytes (length r.body) ≡ false
        → Webhook.verify_signature out now max_projects secret r.signature r.body ≡ true
        → (r.delivery == []) ≡ false
        → out.is_json r.body ≡ true
        → Webhook.is_recorded r.delivery db.webhook_deliveries ≡ false
        → Recorded r.delivery (Webhook.handle_github_webhook out now max_projects secret r db).1
    unfolding Webhook.handle_github_webhook Webhook.answer Webhook.record_delivery Recorded
    Recorded-after r db short signed named json fresh =
        rw (short, signed, named, json, fresh)
          (
            (λ empty. ground (arith, text_key.same_iff r.delivery [])),
            rw
                (
                  (dispatch-SameDeliveries out now max_projects r.event r.body (out.envelope r.body)
                      r.delivery
                      (record db { webhook_deliveries = r.delivery ∷ db.webhook_deliveries })).same,
                  eq_refl r.delivery,
                )
                refl,
          )

-- A request that GitHub delivers again, at whatever time, changes nothing the second time.
pub handle_twice :
    (out : Outside) (now now' : ℕ) (max_projects : ℕ) (secret : Text) (r : Request) (db : Database)
    → let once = (Webhook.handle_github_webhook out now max_projects secret r db).1 in
      (Webhook.handle_github_webhook out now' max_projects secret r once).1 ≡ once
unfolding Webhook.handle_github_webhook Webhook.answer Webhook.record_delivery
    Webhook.verify_signature
handle_twice out now now' max_projects secret r db =
    elim (Bool-cases (ltb Webhook.max_body_bytes (length r.body))) [
      | inl long ↦ rw long refl
      | inr short ↦
          elim (Bool-cases
            (Webhook.verify_signature out now max_projects secret r.signature r.body)) [
              | inr unsigned ↦ rw (short, unsigned) refl
              | inl signed ↦ elim (Bool-cases (r.delivery == [])) [
                | inl empty ↦ rw (short, signed, empty) refl
                | inr named ↦ elim (Bool-cases (out.is_json r.body)) [
                  | inr text ↦ rw (short, signed, named, text) refl
                  | inl json ↦
                      elim (Bool-cases (Webhook.is_recorded r.delivery db.webhook_deliveries)) [
                        | inl known ↦ rw (short, signed, named, json, known) (rw known refl)
                        | inr fresh ↦ Recorded-unchanged out now' max_projects secret r _ (
                            Recorded-after out now max_projects secret r db short signed named json
                              fresh)
                      ]
                ]
              ]
            ]
    ]
