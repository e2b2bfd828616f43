-- ===== src/Tests/Crypto.antt =====
-- A lawful instance of the crates that src/scram_verifier.rs computes with: two letters for a byte,
-- and a mark for a hash.
use pywire.Base.{
  ℕ, zero, suc, ◌+◌, ◌-◌, ◌*◌, ◌/◌, ◌%◌, ◌<◌, ◌≡◌, refl, ap, ◌∙◌, Option, none, some, [], ◌∷◌,
  arith, Text, length, replicate,
}
use pywire.Scram.Split.Laws.{Lacks}
use pywire.Scram.Crypto.{Bytes, IsBytes, Crypto, IsLawful}

abbrev encode : Bytes → Text
encode [] = []
encode (b ∷ bs) = (65 + b / 16) ∷ (65 + b % 16) ∷ encode bs

abbrev prepend : ℕ → Option Bytes → Option Bytes
prepend b none = none
prepend b (some bs) = some (b ∷ bs)

abbrev decode : Text → Option Bytes
decode [] = some []
decode (a ∷ []) = none
decode (a ∷ b ∷ text) = prepend ((a - 65) * 16 + (b - 65)) (decode text)

abbrev hmac : Bytes → Bytes → Bytes
hmac key message = (length message % 256) ∷ replicate 31 (length key % 256)

decode-encode : (b : Bytes) → IsBytes b → decode (encode b) ≡ some b
decode-encode [] h = refl
decode-encode (b ∷ bs) h =
    let same : (65 + b / 16 - 65) * 16 + (65 + b % 16 - 65) ≡ b = omega arith in
    ap (prepend _) (decode-encode bs h.1) ∙ ap (λ x. some (x ∷ bs)) same

encode-Lacks : (c : ℕ) (b : Bytes) → c < 65 → Lacks c (encode b)
encode-Lacks c [] h = tt
encode-Lacks c (b ∷ bs) h = (ground arith, (ground arith, encode-Lacks c bs h))

abbrev pub crypto : Crypto
crypto = record { encode = encode; decode = decode; hmac_sha256 = hmac; sha256 = λ b. b }

pub replicate-IsBytes : (n b : ℕ) → b < 256 → IsBytes (replicate n b)
replicate-IsBytes zero b h = tt
replicate-IsBytes (suc n) b h = (h, replicate-IsBytes n b h)

hmac-IsBytes : (key message : Bytes) → IsBytes (hmac key message)
hmac-IsBytes key message = (omega arith, replicate-IsBytes 31 (length key % 256) (omega arith))

pub laws : IsLawful crypto
laws = record {
  decode-encode = decode-encode;
  encode-Lacks_colon = λ b. encode-Lacks b':' b (omega arith);
  encode-Lacks_dollar = λ b. encode-Lacks b'$' b (omega arith);
  encode-Lacks_comma = λ b. encode-Lacks b',' b (omega arith);
  hmac_bytes = hmac-IsBytes;
  length-hmac = λ key message. refl;
}

-- A key, and a verifier for it.
abbrev pub key : Bytes
key = replicate 32 5
