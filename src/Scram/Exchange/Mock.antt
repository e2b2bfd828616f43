-- ===== src/Scram/Exchange/Mock.antt =====
-- The unknown-user exchange of src/scram_verifier.rs: it fails, and shows nothing of why.
use pywire.Base.{
  ℕ, ◌<◌, ◌^◌, ◌≡◌, refl, true, false, Option, none, some, ◌∷◌, ◌++◌, arith, String, Text, codes,
  length, take, length-take, ok, err, inl, inr, Bool-cases, Option-cases,
}
use pywire.Error.PgWire.{PgWireResult, invalid_password}
use pywire.Scram.Crypto.{Bytes, Crypto, IsLawful}
use pywire.Scram.Split.{rsplit_once}
use pywire.Scram.Utf8.{is_utf8}
use pywire.Scram.Verifier.RoundTrip.{IsValid}
use pywire.Scram.Exchange.{Exchange, check_proof, check_message, verify, mock_verifier}

-- The result of a real exchange, with success replaced by the error of a wrong password.
abbrev pub refused : String → PgWireResult Text → PgWireResult Text
refused user (ok out) = err (invalid_password user)
refused user (err e) = err e

module _ (crypto : Crypto) (e : Exchange) where
  check_proof-mock :
      (signed : Text) (proof : Bytes)
      → check_proof crypto (record e { mock = true }) signed proof
        ≡ refused e.user (check_proof crypto (record e { mock = false }) signed proof)
  unfolding check_proof
  check_proof-mock signed proof = ground arith

  check_message-mock :
      (signed text : Text) (found : Option Text × Option Text)
      → check_message crypto (record e { mock = true }) signed text found
        ≡ refused e.user (check_message crypto (record e { mock = false }) signed text found)
  unfolding check_message
  check_message-mock signed text (none, _) = refl
  check_message-mock signed text (some _, none) = refl
  check_message-mock signed text (some cb, some nonce) = elim (Option-cases (crypto.decode text)) [
    | inl bad ↦ rw bad (ground arith)
    | inr (proof, d) ↦ rw d (ground (arith, check_proof-mock signed proof))
  ]

  -- On every message the exchange with the mock flag gives what the exchange without it gives, the
  -- same error in the same place, except that success becomes the error of a wrong password. So a
  -- mock never succeeds, and no error tells an unknown user from a known one.
  pub verify-mock :
      (message : Bytes)
      → verify crypto (record e { mock = true }) message
        ≡ refused e.user (verify crypto (record e { mock = false }) message)
  unfolding verify
  verify-mock message = elim (Bool-cases (is_utf8 message)) [
    | inr bad ↦ rw bad refl
    | inl good ↦ rw good (elim (Option-cases (rsplit_once (codes ",p=") message)) [
      | inl none_found ↦ rw none_found refl
      | inr ((signed, text), r) ↦ rw r (check_message-mock signed text _)
    ])
  ]

-- With a positive count that fits 32 bits the mock verifier passes every check that a stored one
-- has to pass, and has 16 bytes of salt.
pub mock_verifier-IsValid :
    (crypto : Crypto) (secret : Bytes) (user : Text) (iterations : ℕ)
    → IsLawful crypto
    → 0 < iterations
    → iterations < 2 ^ 32
    → IsValid (mock_verifier crypto secret user iterations)
      × (length (mock_verifier crypto secret user iterations).salt ≡ 16)
unfolding mock_verifier
mock_verifier-IsValid crypto secret user iterations laws positive fits =
    let salt = crypto.hmac_sha256 secret (codes "salt" ++ (0 ∷ user)) in
    let key_32 = laws.length-hmac secret (codes "key" ++ (0 ∷ user)) in
    let salt_16 : length (take 16 salt) ≡ 16 =
      omega (arith, length-take 16 salt, laws.length-hmac secret (codes "salt" ++ (0 ∷ user))) in
    (
      record {
        positive = positive;
        fits = fits;
        salted = omega (arith, salt_16);
        stored_key_32 = key_32;
        server_key_32 = key_32;
      },
      salt_16,
    )
