-- ===== src/Scram/Exchange/Client.antt =====
-- A client of RFC 5802, by its own messages, against `Exchange` of src/scram_verifier.rs.
use mathlib.Core.List.{append_assoc}
use pywire.Base.{
  ℕ, ◌≡◌, ◌<◌, ◌^◌, refl, sym, ap, subst, ◌∙◌, true, false, Option, none, some, List, [], ◌∷◌, ◌++◌,
  arith, String, Text, codes, length, ok,
}
use pywire.Scram.Crypto.{Bytes, IsBytes, Crypto, IsLawful}
use pywire.Scram.Split.{strip_prefix, split}
use pywire.Scram.Split.Laws.{Lacks, Lacks-append, split-append, split-Lacks, strip_prefix-append}
use pywire.Scram.Decimal.{parse_u32, format_u32, parse_u32-format_u32, format_u32-Lacks}
use pywire.Scram.Utf8.{is_utf8}
use pywire.Scram.Verifier.{Verifier}
use pywire.Scram.ClientFirst.{ClientFirst, is_authzid, parse}
use pywire.Scram.ClientFirst.Grammar.{gs2, bare_message, parse-gs2}
use pywire.Scram.Exchange.{Exchange, xor, auth_message, verify, new}
use pywire.Scram.Exchange.Honest.{without_proof, client_final, verify-client_final}

-- What a client keeps of its first message, and the channel-binding data that it sees.
pub record Client : Type 0 where
  pub gs2_header : Text
  pub bare : Text
  pub nonce : Text
  pub cbind_data : Bytes

-- The client computes with the same base64 and hashes, and derives its key from its password with
-- the salt and the count.
module _ (crypto : Crypto) (derive : Bytes → ℕ → Bytes) where
  abbrev pub decoded : Text → Option Bytes → Option ℕ → Option (Text × Bytes × ℕ)
  decoded nonce (some salt) (some iterations) = some (nonce, salt, iterations)
  decoded nonce (some salt) none = none
  decoded nonce none _ = none

  abbrev pub read_values : Option Text → Option Text → Option Text → Option (Text × Bytes × ℕ)
  read_values (some nonce) (some salt) (some iterations) =
      decoded nonce (crypto.decode salt) (parse_u32 iterations)
  read_values (some nonce) (some salt) none = none
  read_values (some nonce) none _ = none
  read_values none _ _ = none

  -- The nonce, the salt and the count of a server-first-message, from its attributes.
  abbrev pub read_attributes : List Text → Option (Text × Bytes × ℕ)
  read_attributes (r ∷ s ∷ i ∷ []) =
      read_values (strip_prefix (codes "r=") r) (strip_prefix (codes "s=") s)
        (strip_prefix (codes "i=") i)
  read_attributes _ = none

  -- What the client signs: its channel binding and the nonce of the server-first-message.
  abbrev pub signed : Client → Text → Text
  signed k nonce =
      (codes "c=" ++ crypto.encode (k.gs2_header ++ k.cbind_data)) ++ (b',' ∷ (codes "r=" ++ nonce))

  -- `AuthMessage := client-first-message-bare + "," + server-first-message + "," +
  -- client-final-message-without-proof`
  abbrev pub message_of : Client → Text → Text → Text
  message_of k server_first nonce = k.bare ++ (b',' ∷ (server_first ++ (b',' ∷ signed k nonce)))

  abbrev pub final_message : Client → Text → Text → Bytes → Text
  final_message k server_first nonce client_key =
      signed k nonce
      ++ (b','
          ∷ (codes "p="
              ++ crypto.encode (
                  xor client_key (
                    crypto.hmac_sha256 (crypto.sha256 client_key)
                      (message_of k server_first nonce)))))

  abbrev pub final_if : Client → Text → Text → Bytes → Option Text → Option Text
  final_if k server_first nonce client_key none = none
  final_if k server_first nonce client_key (some server_nonce) =
      some (final_message k server_first nonce client_key)

  abbrev pub answer_read : Client → Text → Option (Text × Bytes × ℕ) → Option Text
  answer_read k server_first none = none
  answer_read k server_first (some (nonce, salt, iterations)) =
      final_if k server_first nonce (derive salt iterations) (strip_prefix k.nonce nonce)

  -- The client-final-message for a server-first-message, if it can be read and begins with the
  -- client's nonce.
  abbrev pub answer : Client → Text → Option Text
  answer k server_first = answer_read k server_first (read_attributes (split b',' server_first))

  -- The proof of the server that the client expects.
  abbrev pub expected : Client → Text → Text → Bytes → Text
  expected k server_first nonce server_key =
      codes "v=" ++ crypto.encode (crypto.hmac_sha256 server_key (message_of k server_first nonce))

  module _ (laws : IsLawful crypto) where
    read_server_first :
        (nonce : Text) (salt : Bytes) (iterations : ℕ)
        → Lacks b',' nonce
        → IsBytes salt
        → iterations < 2 ^ 32
        → read_attributes (
            split b',' (
              codes "r="
              ++ (nonce
                  ++ (codes ",s="
                      ++ (crypto.encode salt ++ (codes ",i=" ++ format_u32 iterations))))))
          ≡ some (nonce, salt, iterations)
    unfolding strip_prefix
    read_server_first nonce salt iterations hn bytes fits = rw (
      split-append b',' (codes "r=" ++ nonce)
          (codes "s=" ++ (crypto.encode salt ++ (codes ",i=" ++ format_u32 iterations)))
          (refl, (refl, hn)),
      split-append b',' (codes "s=" ++ crypto.encode salt) (codes "i=" ++ format_u32 iterations)
          (refl, (refl, laws.encode-Lacks_comma salt)),
      split-Lacks b',' (codes "i=" ++ format_u32 iterations)
          (refl, (refl, format_u32-Lacks b',' iterations refl)),
      laws.decode-encode salt bytes,
      parse_u32-format_u32 iterations fits,
    )

    module _ (flag authzid name nonce : Text) (exts : List Text) (cbind_data : Bytes) where
      -- The client that sends the message of these parts.
      abbrev pub client : Client
      client = record {
        gs2_header = gs2 flag authzid;
        bare = bare_message name nonce exts;
        nonce = nonce;
        cbind_data = cbind_data;
      }

      abbrev first_of : ClientFirst
      first_of = record {
        cbind_flag = flag;
        gs2_header = gs2 flag authzid;
        bare = bare_message name nonce exts;
        nonce = nonce;
      }

      module _ (random : Bytes) (user : String) (verifier : Verifier) (client_key : Bytes) where
        abbrev made : Exchange
        made = new crypto first_of cbind_data (crypto.encode random) user verifier false

        abbrev both : Text
        both = nonce ++ crypto.encode random

        -- What is accepted from the client, in whatever exchange.
        abbrev pub LetsIn : Exchange → Type 0
        LetsIn e =
            (answer client e.server_first
              ≡ some (final_message client e.server_first both client_key))
            × (verify crypto e (final_message client e.server_first both client_key)
                ≡ ok (expected client e.server_first both verifier.server_key))

        message_of-made :
            auth_message crypto made (without_proof made) ≡ message_of client made.server_first both
        unfolding new
        message_of-made = append_assoc (bare_message name nonce exts) (b',' ∷ made.server_first) _

        final_message-made :
            crypto.sha256 client_key ≡ verifier.stored_key
            → final_message client made.server_first both client_key
              ≡ client_final crypto made client_key
        unfolding new
        final_message-made knows =
            ap
              (λ (m : Bytes × Text).
                signed client both
                ++ (b','
                    ∷ (codes "p=" ++ crypto.encode (xor client_key (crypto.hmac_sha256 m.0 m.1)))))
              (λ i. (knows i, sym message_of-made i))

        answers :
            Lacks b',' nonce
            → IsBytes verifier.salt
            → verifier.iterations < 2 ^ 32
            → derive verifier.salt verifier.iterations ≡ client_key
            → answer client made.server_first
              ≡ some (final_message client made.server_first both client_key)
        unfolding new
        answers hn bytes fits derived =
            rw
              (
                read_server_first both verifier.salt verifier.iterations
                    (Lacks-append b',' nonce (crypto.encode random) hn
                      (laws.encode-Lacks_comma random))
                    bytes fits,
                derived,
                strip_prefix-append nonce (crypto.encode random),
              )
              refl

        verifies :
            Lacks b',' nonce
            → IsBytes client_key
            → length client_key ≡ 32
            → crypto.sha256 client_key ≡ verifier.stored_key
            → is_utf8 (final_message client made.server_first both client_key) ≡ true
            → verify crypto made (final_message client made.server_first both client_key)
              ≡ ok (expected client made.server_first both verifier.server_key)
        unfolding new
        verifies hn bytes len knows text =
            let same = final_message-made knows in
            subst
              (λ f.
                verify crypto made f
                ≡ ok (expected client made.server_first both verifier.server_key))
              (sym same)
              (verify-client_final crypto laws made client_key refl (laws.encode-Lacks_comma _)
                  (Lacks-append b',' nonce (crypto.encode random) hn
                    (laws.encode-Lacks_comma random))
                  bytes len knows (subst (λ f. is_utf8 f ≡ true) same text)
                ∙ ap
                    (λ m.
                      ok (codes "v=" ++ crypto.encode (crypto.hmac_sha256 verifier.server_key m)))
                    message_of-made)

        -- A client that follows RFC 5802 is authenticated. It knows only its own first message, of any
        -- legal parts, the channel-binding data that the server takes too, and the server-first-message
        -- that it is sent, from which it reads the nonce, the salt and the count that it derives its key
        -- with. If that key is the one behind the stored verifier, whose salt is bytes and whose count
        -- fits 32 bits, and its final message is valid UTF-8, then it can answer, the server accepts
        -- that answer, and proves itself in turn by the message that the client expects. The server's
        -- nonce is base64 text.
        pub exchange-accepts :
            (first : ClientFirst) (e : Exchange)
            → Lacks b',' flag
            → Lacks b',' authzid
            → is_authzid authzid ≡ true
            → Lacks b',' name
            → Lacks b',' nonce
            → 0 < length nonce
            → parse (gs2 flag authzid ++ bare_message name nonce exts) ≡ ok first
            → e ≡ new crypto first cbind_data (crypto.encode random) user verifier false
            → IsBytes verifier.salt
            → verifier.iterations < 2 ^ 32
            → derive verifier.salt verifier.iterations ≡ client_key
            → IsBytes client_key
            → length client_key ≡ 32
            → crypto.sha256 client_key ≡ verifier.stored_key
            → is_utf8 (final_message client e.server_first both client_key) ≡ true
            → LetsIn e
        exchange-accepts first e hf ha authz hu hn some_nonce parsed built bs fits derived bytes len
              knows text =
            let kept : first ≡ first_of = ground (
              arith,
              parsed,
              parse-gs2 flag authzid name nonce exts hf ha authz hu hn some_nonce,
            ) in
            let same : e ≡ made =
              built
              ∙ ap (λ f. new crypto f cbind_data (crypto.encode random) user verifier false) kept in
            subst LetsIn (sym same) (
              answers hn bs fits derived,
              verifies hn bytes len knows (
                  subst
                    (λ (x : Exchange).
                      is_utf8 (final_message client x.server_first both client_key) ≡ true)
                    same text),
            )
