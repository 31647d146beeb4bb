-- ===== src/Auth/State.antt =====
-- The signed state of the OAuth round trip.
use vercel_clone.Prelude.{
  ℕ, ◌+◌, ◌<◌, ◌≡◌, refl, ap, some, [], ◌∷◌, ◌++◌, arith, ltb, All, eq_refl, if◌then◌else◌,
}
use vercel_clone.Prelude.Text.{Text, codes, text_key, split_byte}
use vercel_clone.Prelude.Numerals.{
  decimal, hex_encode, hex_decode-hex_encode, hex_encode-Lacks, decimal-Lacks,
}
use vercel_clone.Prelude.Split.{split_byte-append, split_byte_whole}
use vercel_clone.Prelude.Result.{ok, err}
use vercel_clone.Auth

++_assoc : (a b c : Text) → (a ++ b) ++ c ≡ a ++ (b ++ c)
++_assoc [] b c = refl
++_assoc (x ∷ a) b c = ap (λ s. x ∷ s) (++_assoc a b c)

split_state :
    (nonce : Text) (expiry : ℕ) (signature : Text)
    → split_byte b'.' ((hex_encode nonce ++ b'.' ∷ decimal expiry) ++ b'.' ∷ hex_encode signature)
      ≡ hex_encode nonce ∷ decimal expiry ∷ hex_encode signature ∷ []
split_state nonce expiry signature =
    rw
      (
        ++_assoc (hex_encode nonce) (b'.' ∷ decimal expiry) (b'.' ∷ hex_encode signature),
        split_byte-append b'.' (hex_encode nonce) (decimal expiry ++ b'.' ∷ hex_encode signature)
            refl (hex_encode-Lacks b'.' nonce (ground arith)),
        split_byte-append b'.' (decimal expiry) (hex_encode signature) refl
            (decimal-Lacks b'.' expiry refl),
        split_byte_whole b'.' (hex_encode signature)
            (hex_encode-Lacks b'.' signature (ground arith)),
      )
      refl

-- Where HMAC gives bytes and `Sscan` reads what `%d` prints, the state that is signed for a while is
-- accepted under the same secret until that time has passed, and is expired from then on.
pub verify_state-sign_state :
    (crypto : Auth.Crypto) (secret nonce : Text) (ttl now later : ℕ)
    → All (λ c. c < 256) (crypto.mac secret (hex_encode nonce ++ b'.' ∷ decimal (now + ttl)))
    → crypto.scan (decimal (now + ttl)) ≡ some (now + ttl)
    → Auth.verify_state crypto secret later (Auth.sign_state crypto secret nonce ttl now)
      ≡ (if ltb (now + ttl) later then err (codes "state expired") else ok tt)
unfolding Auth.verify_state Auth.sign_state Auth.check_parts Auth.check_signature Auth.check_expiry
verify_state-sign_state crypto secret nonce ttl now later bytes scans =
    let signature = crypto.mac secret (hex_encode nonce ++ b'.' ∷ decimal (now + ttl)) in
    rw
      (
        split_state nonce (now + ttl) signature,
        hex_decode-hex_encode signature bytes,
        eq_refl signature,
        scans,
      )
      refl
