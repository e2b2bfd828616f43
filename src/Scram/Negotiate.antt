-- ===== src/Scram/Negotiate.antt =====
-- `negotiate` of src/scram_verifier.rs: channel-binding negotiation.
use pywire.Base.{
  ◌≡◌, refl, inl, inr, ◌↔◌, ◌&&◌, ◌||◌, Option, none, some, [], arith, String, Text, codes, text_eq,
  text_eq→≡, str_eq, str_eq_iff, if◌then◌else◌, Bool-cases, ok, err,
}
use pywire.Error.PgWire.{PgWireResult, invalid_scram_message, unsupported_sasl_auth_method}
use pywire.Scram.Crypto.{Bytes}

-- `SCRAM_SHA_256_METHOD` and `SCRAM_SHA_256_PLUS_METHOD` of pgwire.
abbrev pub sha_256 : String
sha_256 = "SCRAM-SHA-256"

abbrev pub sha_256_plus : String
sha_256_plus = "SCRAM-SHA-256-PLUS"

abbrev pub end_point : Text
end_point = codes "p=tls-server-end-point"

-- The arms that match a certificate, and those that match none.
unfoldable pub negotiate : String → Text → Option Bytes → PgWireResult Bytes
negotiate mechanism flag (some signature) =
    if str_eq mechanism sha_256_plus && text_eq flag end_point
    then ok signature
    else if str_eq mechanism sha_256 && text_eq flag (codes "n")
    then ok []
    else if str_eq mechanism sha_256 || str_eq mechanism sha_256_plus
    then err (invalid_scram_message "SCRAM channel binding negotiation error")
    else err (unsupported_sasl_auth_method mechanism)
negotiate mechanism flag none =
    if str_eq mechanism sha_256 && text_eq flag (codes "n")
    then ok []
    else if str_eq mechanism sha_256 && text_eq flag (codes "y")
    then ok []
    else if str_eq mechanism sha_256 || str_eq mechanism sha_256_plus
    then err (invalid_scram_message "SCRAM channel binding negotiation error")
    else err (unsupported_sasl_auth_method mechanism)

-- The three ways to agree: `p=` with PLUS where a certificate binds the channel; no support for
-- binding on the client's side; and support on the client's side only.
pub data Agrees (certificate : Option Bytes) (mechanism : String) (flag : Text) (bound : Bytes)
    : Type 0 where
  bind :
      mechanism ≡ sha_256_plus
      → flag ≡ end_point
      → certificate ≡ some bound
      → Agrees certificate mechanism flag bound
  unsupported :
      mechanism ≡ sha_256 → flag ≡ codes "n" → bound ≡ [] → Agrees certificate mechanism flag bound
  no_plus :
      mechanism ≡ sha_256
      → flag ≡ codes "y"
      → certificate ≡ none
      → bound ≡ []
      → Agrees certificate mechanism flag bound

negotiate_sound :
    (mechanism : String) (flag : Text) (certificate : Option Bytes) (bound : Bytes)
    → negotiate mechanism flag certificate ≡ ok bound
    → Agrees certificate mechanism flag bound
unfolding negotiate
negotiate_sound mechanism flag (some signature) bound h =
    elim (Bool-cases (str_eq mechanism sha_256_plus && text_eq flag end_point)) [
      | inl e ↦
          bind ((str_eq_iff mechanism sha_256_plus).0 (ground arith))
            (text_eq→≡ flag end_point (ground arith)) (ground arith)
      | inr e ↦
          unsupported ((str_eq_iff mechanism sha_256).0 (ground arith))
            (text_eq→≡ flag (codes "n") (ground arith)) (ground arith)
    ]
negotiate_sound mechanism flag none bound h =
    elim (Bool-cases (str_eq mechanism sha_256 && text_eq flag (codes "n"))) [
      | inl e ↦
          unsupported ((str_eq_iff mechanism sha_256).0 (ground arith))
            (text_eq→≡ flag (codes "n") (ground arith)) (ground arith)
      | inr e ↦
          no_plus ((str_eq_iff mechanism sha_256).0 (ground arith))
            (text_eq→≡ flag (codes "y") (ground arith)) refl (ground arith)
    ]

negotiate_complete :
    (mechanism : String) (flag : Text) (certificate : Option Bytes) (bound : Bytes)
    → Agrees certificate mechanism flag bound
    → negotiate mechanism flag certificate ≡ ok bound
unfolding negotiate text_eq
negotiate_complete mechanism flag (some signature) bound (bind m f c) = rw (m, f) (cc)
negotiate_complete mechanism flag none bound (bind m f c) = absurd (ground arith)
negotiate_complete mechanism flag (some signature) bound (unsupported m f b) = rw (m, f, b) refl
negotiate_complete mechanism flag none bound (unsupported m f b) = rw (m, f, b) refl
negotiate_complete mechanism flag (some signature) bound (no_plus m f c b) = absurd (ground arith)
negotiate_complete mechanism flag none bound (no_plus m f c b) = rw (m, f, b) refl

-- The negotiation succeeds exactly in the three cases of RFC 5802, and then with the data that the
-- client has to echo. So a client that claims the server offered no PLUS, where it did, is refused.
pub negotiate-iff-Agrees :
    (mechanism : String) (flag : Text) (certificate : Option Bytes) (bound : Bytes)
    → (negotiate mechanism flag certificate ≡ ok bound) ↔ Agrees certificate mechanism flag bound
negotiate-iff-Agrees mechanism flag certificate bound = (
  negotiate_sound mechanism flag certificate bound,
  negotiate_complete mechanism flag certificate bound,
)
