-- ===== src/Scram/Verifier.antt =====
-- `PyScramVerifier` of src/scram_verifier.rs: a stored verifier, and its `rolpassword` text.
pub mod Repr
pub mod RoundTrip
use pywire.Base.{
  ℕ, ◌≡◌, Bool, true, false, not, ◌||◌, Option, none, some, List, [], ◌∷◌, ◌++◌, String, Text,
  codes, length, ◌==◌, if◌then◌else◌, Result, ok, err, ◌>>=◌, ok_or,
}
use pywire.Scram.Crypto.{Bytes, Crypto}
use pywire.Scram.Split.{strip_prefix, split_once}
use pywire.Scram.Decimal.{parse_u32}

pub record Verifier : Type 0 where
  pub iterations : ℕ
  pub salt : Bytes
  pub stored_key : Bytes
  pub server_key : Bytes

-- `PyScramVerifier::new`; `py_new` raises the same texts.
unfoldable pub new : ℕ → Bytes → Bytes → Bytes → Result String Verifier
new iterations salt stored_key server_key =
    if iterations == 0
    then err "iterations must be positive"
    else if length salt == 0
    then err "salt must not be empty"
    else if not (length stored_key == 32) || not (length server_key == 32)
    then err "stored_key and server_key must be 32-byte SHA-256 values"
    else ok (record {
      iterations = iterations;
      salt = salt;
      stored_key = stored_key;
      server_key = server_key;
    })

abbrev pub invalid : String
invalid = "not a SCRAM-SHA-256$<iterations>:<salt>$<StoredKey>:<ServerKey> verifier"

abbrev pub scheme : Text
scheme = codes "SCRAM-SHA-256$"

-- The four fields of the text, or `none` where a separator is missing.
unfoldable pub fields : Text → Option ((Text × Text) × (Text × Text))
unfolding strip_prefix split_once
fields text = elim (strip_prefix scheme text) [
  | none ↦ none
  | some rest ↦ elim (split_once b'$' rest) [
    | none ↦ none
    | some (params, keys) ↦ elim (split_once b':' params) [
      | none ↦ none
      | some p ↦ elim (split_once b':' keys) [ none ↦ none | some k ↦ some (p, k) ]
    ]
  ]
]

module _ (crypto : Crypto) where
  -- `PyScramVerifier::parse`.
  unfoldable pub parse : Text → Result String Verifier
  unfolding fields new parse_u32
  parse text = ok_or (fields text) invalid >>= λ f.
      let ((iterations, salt), (stored_key, server_key)) = f in
      do
        n ← ok_or (parse_u32 iterations) invalid
        s ← ok_or (crypto.decode salt) invalid
        k ← ok_or (crypto.decode stored_key) invalid
        v ← ok_or (crypto.decode server_key) invalid
        new n s k v
