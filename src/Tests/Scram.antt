-- ===== src/Tests/Scram.antt =====
-- Witnesses for the theorems on src/scram_verifier.rs.
use pywire.Base.{
  ℕ, ◌≡◌, refl, Bool, true, false, Option, none, some, List, [], ◌∷◌, ◌++◌, ◌↔◌, ◌<◌, ◌^◌, arith,
  String, Text, codes, length, replicate, Result, ok, err,
}
use pywire.Scram.Certificate.{
  Crates, ecdsa_sha384, compute_cert_signature, EndPoint, compute_cert_signature-iff-EndPoint,
}
use pywire.Scram.Split.Laws.{Lacks}
use pywire.Scram.Utf8.{is_utf8}
use pywire.Scram.Verifier
use pywire.Scram.Verifier.{Verifier}
use pywire.Scram.Verifier.RoundTrip.{IsValid, render, Reads, parse-render, parse_sound}
use pywire.Scram.Decimal.{format_u32}
use pywire.Scram.ClientFirst
use pywire.Scram.ClientFirst.{ClientFirst, is_authzid}
use pywire.Scram.ClientFirst.Grammar.{Accepted, parse-gs2, parse-Accepted, gs2, bare_message}
use pywire.Scram.Negotiate.{negotiate, Agrees, negotiate-iff-Agrees, sha_256_plus, end_point}
use pywire.Scram.Exchange.{Exchange, new, verify, mock_verifier}
use pywire.Scram.Exchange.Honest.{client_final, server_final, without_proof}
use pywire.Scram.Exchange.Client.{final_message, client, LetsIn, exchange-accepts}
use pywire.Scram.Crypto.{Bytes}
use pywire.Scram.Exchange.Sound.{Proves, verify-Proves}
use pywire.Scram.Exchange.Mock.{refused, verify-mock}
use pywire.Tests.Crypto.{crypto, laws, key, replicate-IsBytes}

abbrev pub verifier : Verifier
verifier = record {
  iterations = 4096;
  salt = 1 ∷ 2 ∷ [];
  stored_key = key;
  server_key = replicate 32 9;
}

abbrev pub first_message : Text
first_message = codes "n,,n=,r=abc"

abbrev first : ClientFirst
first = record {
  cbind_flag = codes "n";
  gs2_header = codes "n,,";
  bare = codes "n=,r=abc";
  nonce = codes "abc";
}

first_parses : ClientFirst.parse first_message ≡ ok first
unfolding ClientFirst.parse
first_parses = refl

abbrev pub exchange : Exchange
exchange = new crypto first [] (crypto.encode (7 ∷ 8 ∷ [])) "user" verifier false

message_is_utf8 : is_utf8 (client_final crypto exchange key) ≡ true
unfolding is_utf8 pywire.Scram.Exchange.xor format_u32 new
message_is_utf8 = refl

accepted :
    verify crypto exchange (client_final crypto exchange key)
    ≡ ok (server_final crypto exchange (without_proof exchange))
unfolding new verify format_u32 pywire.Base.text_eq
accepted = refl

verifier-IsValid : IsValid verifier
verifier-IsValid = record {
  positive = omega arith;
  fits = omega arith;
  salted = omega arith;
  stored_key_32 = refl;
  server_key_32 = refl;
}

verify-Proves_example :
    Proves crypto exchange
      (client_final crypto exchange key)
      (server_final crypto exchange (without_proof exchange))
verify-Proves_example =
    verify-Proves crypto exchange (client_final crypto exchange key)
      (server_final crypto exchange (without_proof exchange)) accepted

verify-mock_example :
    verify crypto (record exchange { mock = true }) (client_final crypto exchange key)
    ≡ refused exchange.user
        (verify crypto (record exchange { mock = false }) (client_final crypto exchange key))
verify-mock_example = verify-mock crypto exchange (client_final crypto exchange key)

no_authzid : is_authzid [] ≡ true
unfolding is_authzid
no_authzid = refl

-- The salt and the count lead to the key, as PBKDF2 does from the password.
abbrev derive : Bytes → ℕ → Bytes
derive salt iterations = key

final_is_utf8 :
    is_utf8 (
      final_message crypto derive
        (client crypto derive laws (codes "n") [] [] (codes "abc") [] [])
        exchange.server_first
        (codes "abc" ++ crypto.encode (7 ∷ 8 ∷ []))
        key)
    ≡ true
unfolding is_utf8 pywire.Scram.Exchange.xor format_u32 new
final_is_utf8 = refl

exchange-accepts_example :
    LetsIn crypto derive laws
      (codes "n")
      []
      []
      (codes "abc")
      []
      []
      (7 ∷ 8 ∷ [])
      "user"
      verifier
      key
      exchange
exchange-accepts_example =
    exchange-accepts crypto derive laws (codes "n") [] [] (codes "abc") [] [] (7 ∷ 8 ∷ []) "user"
      verifier key first exchange (refl, tt) tt no_authzid tt (refl, (refl, (refl, tt)))
      (omega arith) first_parses refl (omega arith, (omega arith, tt)) (omega arith) refl
      (replicate-IsBytes 32 5 (omega arith)) refl refl final_is_utf8

parse-render_example : Verifier.parse crypto (render crypto verifier) ≡ ok verifier
parse-render_example =
    parse-render crypto verifier laws verifier-IsValid (omega arith, (omega arith, tt))
      (replicate-IsBytes 32 5 (omega arith)) (replicate-IsBytes 32 9 (omega arith))

read_back : Verifier.parse crypto (render crypto verifier) ≡ ok verifier
unfolding Verifier.parse render format_u32
read_back = refl

parse_sound_example : IsValid verifier × Reads crypto (render crypto verifier) verifier
parse_sound_example = parse_sound crypto (render crypto verifier) verifier read_back

negotiate-iff-Agrees_example :
    (negotiate sha_256_plus end_point (some (3 ∷ [])) ≡ ok (3 ∷ []))
    ↔ Agrees (some (3 ∷ [])) sha_256_plus end_point (3 ∷ [])
negotiate-iff-Agrees_example = negotiate-iff-Agrees sha_256_plus end_point (some (3 ∷ [])) (3 ∷ [])

parse-Accepted_example : Accepted first_message first
parse-Accepted_example = parse-Accepted first_message first first_parses

parse-gs2_example :
    ClientFirst.parse (gs2 (codes "y") [] ++ bare_message [] (codes "abc") (codes "x=1" ∷ []))
    ≡ ok (record {
      cbind_flag = codes "y";
      gs2_header = gs2 (codes "y") [];
      bare = bare_message [] (codes "abc") (codes "x=1" ∷ []);
      nonce = codes "abc";
    })
parse-gs2_example =
    parse-gs2 (codes "y") [] [] (codes "abc") (codes "x=1" ∷ []) (refl, tt) tt no_authzid tt
      (refl, (refl, (refl, tt))) (omega arith)

is_real : exchange.mock ≡ false
unfolding new
is_real = refl

binding_Lacks : Lacks b',' exchange.channel_binding
unfolding new
binding_Lacks = laws.encode-Lacks_comma (codes "n,,")

nonce_Lacks : Lacks b',' exchange.nonce
unfolding new
nonce_Lacks = (refl, (refl, (refl, laws.encode-Lacks_comma (7 ∷ 8 ∷ []))))

same_key : crypto.sha256 key ≡ exchange.verifier.stored_key
unfolding new
same_key = refl

-- A parser that takes the text itself as the certificate, and a hash that keeps all of it.
abbrev crates : Crates
crates = record {
  from_pem_multiple =
      λ pem. ok (record { signature_algorithm = some ecdsa_sha384; constructed_data = pem } ∷ []);
  digest = λ a b. b;
}

compute_cert_signature-iff-EndPoint_example :
    (compute_cert_signature crates (1 ∷ 2 ∷ []) ≡ ok (1 ∷ 2 ∷ []))
    ↔ EndPoint crates (1 ∷ 2 ∷ []) (1 ∷ 2 ∷ [])
compute_cert_signature-iff-EndPoint_example =
    compute_cert_signature-iff-EndPoint crates (1 ∷ 2 ∷ []) (1 ∷ 2 ∷ [])
