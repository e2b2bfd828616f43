-- ===== src/Scram/ClientFirst.antt =====
-- `ClientFirst::parse` of src/scram_verifier.rs: the client-first-message of RFC 5802.
pub mod Grammar
pub use pywire.Base.{is_some}
use pywire.Base.{
  ℕ, ◌-◌, Bool, true, false, not, ◌||◌, Option, none, some, List, [], ◌∷◌, String, Text, codes,
  length, take, ◌==◌, if◌then◌else◌, Result, ok, err, ◌>>=◌, ok_or,
}
use pywire.Error.PgWire.{PgWireError, PgWireResult, invalid_scram_message}
use pywire.Scram.Split.{strip_prefix, split_once, split}

pub record ClientFirst : Type 0 where
  pub cbind_flag : Text
  pub gs2_header : Text
  pub bare : Text
  pub nonce : Text

abbrev pub malformed : PgWireError
malformed = invalid_scram_message "malformed SCRAM client-first-message"

-- `authzid.is_empty() || authzid.starts_with("a=")`
unfoldable pub is_authzid : Text → Bool
unfolding strip_prefix
is_authzid authzid = length authzid == 0 || is_some (strip_prefix (codes "a=") authzid)

-- `parts.next().and_then(|part| part.strip_prefix("n="))`, and then that with "r=".
unfoldable pub attributes : Text → Text → List Text → Option Text × Option Text
unfolding strip_prefix
attributes p q [] = (none, none)
attributes p q (a ∷ []) = (strip_prefix p a, none)
attributes p q (a ∷ b ∷ rest) = (strip_prefix p a, strip_prefix q b)

-- The `match (username, nonce)`.
unfoldable pub finish : Text → Text → Text → Option Text × Option Text → PgWireResult ClientFirst
finish message cbind_flag bare (none, _) = err malformed
finish message cbind_flag bare (some _, none) = err malformed
finish message cbind_flag bare (some username, some nonce) =
    if length nonce == 0
    then err malformed
    else ok (record {
      cbind_flag = cbind_flag;
      gs2_header = take (length message - length bare) message;
      bare = bare;
      nonce = nonce;
    })

-- `ClientFirst::parse`.
unfoldable pub parse : Text → PgWireResult ClientFirst
unfolding is_authzid attributes finish split_once split
parse message = ok_or (split_once b',' message) malformed >>= λ (cbind_flag, rest).
    ok_or (split_once b',' rest) malformed >>= λ (authzid, bare).
    if not (is_authzid authzid)
    then err malformed
    else finish message cbind_flag bare (attributes (codes "n=") (codes "r=") (split b',' bare))
