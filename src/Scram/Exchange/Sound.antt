-- ===== src/Scram/Exchange/Sound.antt =====
-- What it takes to get past `Exchange::verify` of src/scram_verifier.rs.
use pywire.Base.{
  ◌≡◌, false, Option, none, some, List, ◌∷◌, ◌++◌, arith, Text, codes, length, text_eq→≡, ok, inl,
  inr, Bool-cases, Option-cases,
}
use pywire.Scram.Crypto.{Bytes, Crypto}
use pywire.Scram.Split.{rsplit_once, split}
use pywire.Scram.Split.Laws.{rsplit_once-eq_some}
use pywire.Scram.Utf8.{is_utf8}
use pywire.Scram.ClientFirst.{attributes}
use pywire.Scram.ClientFirst.Grammar.{attributes-eq_some}
use pywire.Scram.Exchange.{Exchange, xor, auth_message, check_proof, check_message, verify}

-- What a message that was accepted holds: it echoes the channel binding and the nonce, and its proof,
-- undone by the signature of all that stands before it, hashes to the stored key.
pub record Proves (crypto : Crypto) (e : Exchange) (message : Bytes) (out : Text) : Type 0 where
  pub signed : Text
  pub proof_text : Text
  pub proof : Bytes
  pub rest : List Text
  pub message_eq : message ≡ signed ++ (codes ",p=" ++ proof_text)
  pub echoes :
      split b',' signed ≡ (codes "c=" ++ e.channel_binding) ∷ (codes "r=" ++ e.nonce) ∷ rest
  pub decoded : crypto.decode proof_text ≡ some proof
  pub proof_32 : length proof ≡ 32
  pub knows_key :
      crypto.sha256
        (xor proof (crypto.hmac_sha256 e.verifier.stored_key (auth_message crypto e signed)))
      ≡ e.verifier.stored_key
  pub out_eq :
      out
      ≡ codes "v="
        ++ crypto.encode (crypto.hmac_sha256 e.verifier.server_key (auth_message crypto e signed))
  pub real : e.mock ≡ false

module _ (crypto : Crypto) (e : Exchange) where
  check_proof-ok :
      (signed : Text) (proof : Bytes) (out : Text)
      → check_proof crypto e signed proof ≡ ok out
      → (e.mock ≡ false)
        × (crypto.sha256
              (xor proof (crypto.hmac_sha256 e.verifier.stored_key (auth_message crypto e signed)))
            ≡ e.verifier.stored_key)
        × (out
            ≡ codes "v="
              ++ crypto.encode
                  (crypto.hmac_sha256 e.verifier.server_key (auth_message crypto e signed)))
  unfolding check_proof
  check_proof-ok signed proof out h =
      let sound =
        text_eq→≡
          (crypto.sha256
            (xor proof (crypto.hmac_sha256 e.verifier.stored_key (auth_message crypto e signed))))
          e.verifier.stored_key in
      (ground arith, sound (ground arith), ground arith)

  check_message-ok :
      (signed text : Text) (found : Option Text × Option Text) (out : Text)
      → check_message crypto e signed text found ≡ ok out
      → (found ≡ (some e.channel_binding, some e.nonce))
        × ((proof : Bytes) × (crypto.decode text ≡ some proof)
            × (length proof ≡ 32)
            × (check_proof crypto e signed proof ≡ ok out))
  unfolding check_message
  check_message-ok signed text (none, _) out h = absurd (ground arith)
  check_message-ok signed text (some _, none) out h = absurd (ground arith)
  check_message-ok signed text (some cb, some nonce) out h =
      elim (Option-cases (crypto.decode text)) [
        | inl e' ↦ absurd (ground arith)
        | inr (proof, d) ↦ (
          ground (arith, text_eq→≡ cb e.channel_binding, text_eq→≡ nonce e.nonce),
          (proof, d, ground arith, ground arith),
        )
      ]

  proves :
      (message signed text : Text) (out : Text)
      → rsplit_once (codes ",p=") message ≡ some (signed, text)
      → check_message crypto e signed text
          (attributes (codes "c=") (codes "r=") (split b',' signed))
        ≡ ok out
      → Proves crypto e message out
  proves message signed text out r h =
      let (found, (proof, d, len, checked)) = check_message-ok signed text _ out h in
      let (real, knows, out_eq) = check_proof-ok signed proof out checked in
      let (rest, parts) =
        attributes-eq_some (codes "c=") (codes "r=") (split b',' signed) e.channel_binding e.nonce
          found in
      record {
        signed = signed;
        proof_text = text;
        proof = proof;
        rest = rest;
        message_eq = rsplit_once-eq_some (codes ",p=") message signed text r;
        echoes = parts;
        decoded = d;
        proof_32 = len;
        knows_key = knows;
        out_eq = out_eq;
        real = real;
      }

  -- Nobody is authenticated without the key: an accepted message comes from a real verifier, echoes
  -- the channel binding and the nonce of this exchange, and carries a proof of 32 bytes which the
  -- signature of exactly the bytes before it turns into a value that hashes to the stored key.
  pub verify-Proves :
      (message : Bytes) (out : Text)
      → verify crypto e message ≡ ok out
      → Proves crypto e message out
  unfolding verify
  verify-Proves message out h = elim (Bool-cases (is_utf8 message)) [
    | inr bad ↦ absurd (ground arith)
    | inl good ↦ elim (Option-cases (rsplit_once (codes ",p=") message)) [
      | inl e' ↦ absurd (ground arith)
      | inr ((signed, text), r) ↦ proves message signed text out r (ground arith)
    ]
  ]
