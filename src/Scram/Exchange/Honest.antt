-- ===== src/Scram/Exchange/Honest.antt =====
-- `Exchange::verify` of src/scram_verifier.rs accepts the client that knows the key.
use pywire.Base.{
  ◌≡◌, refl, sym, ◌∙◌, true, false, some, ◌∷◌, ◌++◌, Text, codes, length, text_eq_refl, ok,
}
use pywire.Scram.Crypto.{Bytes, IsBytes, Crypto, IsLawful}
use pywire.Scram.Split.Laws.{Lacks, rsplit_once-append, split-append, split-Lacks}
use pywire.Scram.Utf8.{is_utf8}
use pywire.Scram.Exchange.{Exchange, xor, auth_message, check_proof, check_message, verify}
use pywire.Scram.Exchange.Xor.{xor_twice, length-xor, xor-IsBytes}

-- The attributes of the final message that the client signs.
abbrev pub without_proof : Exchange → Text
without_proof e = (codes "c=" ++ e.channel_binding) ++ (b',' ∷ (codes "r=" ++ e.nonce))

module _ (crypto : Crypto) where
  -- `ClientProof := ClientKey XOR HMAC(StoredKey, AuthMessage)`
  abbrev pub client_proof : Exchange → Bytes → Bytes
  client_proof e client_key =
      xor client_key
        (crypto.hmac_sha256 e.verifier.stored_key (auth_message crypto e (without_proof e)))

  -- The client-final-message of a client that holds `client_key`.
  abbrev pub client_final : Exchange → Bytes → Bytes
  client_final e client_key =
      without_proof e ++ (b',' ∷ (codes "p=" ++ crypto.encode (client_proof e client_key)))

  -- `"v=" base64(HMAC(ServerKey, AuthMessage))`
  abbrev pub server_final : Exchange → Text → Text
  server_final e signed =
      codes "v="
      ++ crypto.encode (crypto.hmac_sha256 e.verifier.server_key (auth_message crypto e signed))

  module _ (laws : IsLawful crypto) where
    check_proof-client_proof :
        (e : Exchange) (client_key : Bytes)
        → e.mock ≡ false
        → IsBytes client_key
        → length client_key ≡ 32
        → crypto.sha256 client_key ≡ e.verifier.stored_key
        → check_proof crypto e (without_proof e) (client_proof e client_key)
          ≡ ok (server_final e (without_proof e))
    unfolding check_proof
    check_proof-client_proof e client_key real bytes len knows =
        let signature =
          crypto.hmac_sha256 e.verifier.stored_key (auth_message crypto e (without_proof e)) in
        rw
          (
            xor_twice client_key signature (len ∙ sym (laws.length-hmac _ _)) bytes
                (laws.hmac_bytes _ _),
            knows,
            text_eq_refl e.verifier.stored_key,
            real,
          )
          refl

    check_message-client_proof :
        (e : Exchange) (client_key : Bytes)
        → e.mock ≡ false
        → IsBytes client_key
        → length client_key ≡ 32
        → crypto.sha256 client_key ≡ e.verifier.stored_key
        → check_message crypto e
            (without_proof e)
            (crypto.encode (client_proof e client_key))
            (some e.channel_binding, some e.nonce)
          ≡ ok (server_final e (without_proof e))
    unfolding check_message
    check_message-client_proof e client_key real bytes len knows =
        let signature =
          crypto.hmac_sha256 e.verifier.stored_key (auth_message crypto e (without_proof e)) in
        rw
          (
            text_eq_refl e.channel_binding,
            text_eq_refl e.nonce,
            laws.decode-encode (client_proof e client_key)
                (xor-IsBytes client_key signature bytes (laws.hmac_bytes _ _)),
            length-xor client_key signature (len ∙ sym (laws.length-hmac _ _)),
            len,
          )
          (check_proof-client_proof e client_key real bytes len knows)

    -- Whatever the exchange, a message that echoes its channel binding and nonce and proves
    -- knowledge of the key behind the stored one is accepted, and answered with the server's proof.
    pub verify-client_final :
        (e : Exchange) (client_key : Bytes)
        → e.mock ≡ false
        → Lacks b',' e.channel_binding
        → Lacks b',' e.nonce
        → IsBytes client_key
        → length client_key ≡ 32
        → crypto.sha256 client_key ≡ e.verifier.stored_key
        → is_utf8 (client_final e client_key) ≡ true
        → verify crypto e (client_final e client_key) ≡ ok (server_final e (without_proof e))
    unfolding verify
    verify-client_final e client_key real cb nonce bytes len knows text =
        rw
          (
            text,
            rsplit_once-append b',' (codes "p=") (without_proof e)
                (crypto.encode (client_proof e client_key)) (refl, (refl, tt))
                (laws.encode-Lacks_comma _),
            split-append b',' (codes "c=" ++ e.channel_binding) (codes "r=" ++ e.nonce)
                (refl, (refl, cb)),
            split-Lacks b',' (codes "r=" ++ e.nonce) (refl, (refl, nonce)),
          )
          (check_message-client_proof e client_key real bytes len knows)
