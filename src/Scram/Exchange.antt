-- ===== src/Scram/Exchange.antt =====
-- `Exchange` of src/scram_verifier.rs: the server between its first message and the client's final
-- one.
pub mod Xor
pub mod Honest
pub mod Client
pub mod Sound
pub mod Mock
use pywire.Base.{
  ℕ, ◌≡◌, Bool, true, false, not, ◌||◌, Option, none, some, List, [], ◌∷◌, ◌++◌, String, Text,
  codes, length, take, text_eq, ◌==◌, if◌then◌else◌, Result, ok, err, ◌>>=◌, ok_or, bit_xor,
}
use pywire.Error.PgWire.{PgWireError, PgWireResult, invalid_scram_message, invalid_password}
use pywire.Scram.Crypto.{Bytes, Crypto}
use pywire.Scram.Decimal.{format_u32}
use pywire.Scram.Split.{strip_prefix, rsplit_once, split}
use pywire.Scram.Utf8.{is_utf8}
use pywire.Scram.ClientFirst.{ClientFirst, attributes}
use pywire.Scram.Verifier.{Verifier}

pub record Exchange : Type 0 where
  pub user : String
  pub verifier : Verifier
  pub mock : Bool
  pub nonce : Text
  pub channel_binding : Text
  pub server_first : Text
  pub auth_prefix : Text

-- `utf8`.
unfoldable pub utf8 : Bytes → PgWireResult Text
utf8 bytes =
    if is_utf8 bytes then ok bytes else err (invalid_scram_message "SCRAM message is not UTF-8")

abbrev pub malformed : PgWireError
malformed = invalid_scram_message "malformed SCRAM client-final-message"

-- `proof.iter().zip(&client_signature).map(|(p, s)| p ^ s)`
unfoldable pub xor : Bytes → Bytes → Bytes
xor [] t = []
xor (p ∷ s) [] = []
xor (p ∷ s) (q ∷ t) = bit_xor p q ∷ xor s t

module _ (crypto : Crypto) where
  open crypto use {encode, decode, hmac_sha256, sha256}

  -- `Exchange::new`.
  unfoldable pub new : ClientFirst → Bytes → Text → String → Verifier → Bool → Exchange
  new first cbind_data server_nonce user verifier mock =
      let nonce = first.nonce ++ server_nonce in
      let server_first =
        codes "r="
        ++ (nonce
            ++ (codes ",s="
                ++ (encode verifier.salt ++ (codes ",i=" ++ format_u32 verifier.iterations)))) in
      record {
        user = user;
        verifier = verifier;
        mock = mock;
        nonce = nonce;
        channel_binding = encode (first.gs2_header ++ cbind_data);
        server_first = server_first;
        auth_prefix = first.bare ++ (b',' ∷ server_first);
      }

  -- `auth_message`
  abbrev pub auth_message : Exchange → Text → Text
  auth_message e without_proof = e.auth_prefix ++ (b',' ∷ without_proof)

  -- The end of `verify`, from the decoded proof on.
  unfoldable pub check_proof : Exchange → Text → Bytes → PgWireResult Text
  check_proof e without_proof proof =
      let message = auth_message e without_proof in
      let client_signature = hmac_sha256 e.verifier.stored_key message in
      let client_key = xor proof client_signature in
      let proof_ok = text_eq (sha256 client_key) e.verifier.stored_key in
      if not proof_ok || e.mock
      then err (invalid_password e.user)
      else ok (codes "v=" ++ encode (hmac_sha256 e.verifier.server_key message))

  -- The middle of `verify`: the attributes, the two echoes and the form of the proof.
  unfoldable pub check_message :
      Exchange → Text → Text → Option Text × Option Text → PgWireResult Text
  unfolding check_proof xor
  check_message e without_proof proof (none, _) = err malformed
  check_message e without_proof proof (some _, none) = err malformed
  check_message e without_proof proof (some channel_binding, some nonce) =
      if not (text_eq channel_binding e.channel_binding)
      then err (invalid_scram_message "SCRAM channel binding check failed")
      else if not (text_eq nonce e.nonce)
      then err (invalid_scram_message "SCRAM nonce mismatch")
      else (ok_or (decode proof) malformed >>= λ bytes.
          if not (length bytes == 32) then err malformed else check_proof e without_proof bytes)

  -- `Exchange::verify`.
  unfoldable pub verify : Exchange → Bytes → PgWireResult Text
  unfolding utf8 check_message is_utf8 rsplit_once split attributes
  verify e message = utf8 message >>= λ text.
      ok_or (rsplit_once (codes ",p=") text) malformed >>= λ (without_proof, proof).
      check_message e without_proof proof
        (attributes (codes "c=") (codes "r=") (split b',' without_proof))

  -- `mock_verifier`; `user` is its UTF-8 bytes here.
  unfoldable pub mock_verifier : Bytes → Text → ℕ → Verifier
  mock_verifier secret user iterations =
      let salt = hmac_sha256 secret (codes "salt" ++ (0 ∷ user)) in
      let key = hmac_sha256 secret (codes "key" ++ (0 ∷ user)) in
      record { iterations = iterations; salt = take 16 salt; stored_key = key; server_key = key }
