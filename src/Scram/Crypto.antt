-- ===== src/Scram/Crypto.antt =====
-- The crates that src/scram_verifier.rs computes with: `base64`, `ring` and `subtle`. Their code is
-- not in the repository; they enter as functions, and what they document as laws.
use pywire.Base.{ℕ, ◌<◌, ◌≡◌, Option, some, List, Text, length, All}
use pywire.Scram.Split.Laws.{Lacks}

abbrev pub Bytes : Type 0
Bytes = List ℕ

abbrev pub IsBytes : Bytes → Type 0
IsBytes = All (λ b. b < 256)

pub record Crypto : Type 0 where
  -- `STANDARD.encode`, `STANDARD.decode`
  pub encode : Bytes → Text
  pub decode : Text → Option Bytes
  -- `hmac::sign` with HMAC-SHA-256: the key, then the message
  pub hmac_sha256 : Bytes → Bytes → Bytes
  -- `digest::digest` with SHA-256
  pub sha256 : Bytes → Bytes

-- What the crates document. Base64 text has none of the characters that separate fields.
pub record IsLawful (k : Crypto) : Type 0 where
  pub decode-encode : (b : Bytes) → IsBytes b → k.decode (k.encode b) ≡ some b
  pub encode-Lacks_colon : (b : Bytes) → Lacks b':' (k.encode b)
  pub encode-Lacks_dollar : (b : Bytes) → Lacks b'$' (k.encode b)
  pub encode-Lacks_comma : (b : Bytes) → Lacks b',' (k.encode b)
  pub hmac_bytes : (key message : Bytes) → IsBytes (k.hmac_sha256 key message)
  pub length-hmac : (key message : Bytes) → length (k.hmac_sha256 key message) ≡ 32
