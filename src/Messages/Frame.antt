-- ===== src/Messages/Frame.antt =====
-- `encode_to_pybytes` and `decode_from_slice` of src/messages.rs.
use pywire.Base.{Option, none, some, String, Result, ok, err}
use pywire.Error.Classes.{PyErr, other}
use pywire.Error.PgWire.{PgWireError, PgWireResult}
use pywire.Error.Boundary.{pywire_to_py_err}
use pywire.Scram.Crypto.{Bytes}

-- pgwire's codec for one message: `encode`, and `decode`, which has no message yet if bytes are
-- missing.
pub record Codec (M : Type 0) : Type 0 where
  pub encode : M → PgWireResult Bytes
  pub decode : Bytes → PgWireResult (Option M)

abbrev pub incomplete : PyErr
incomplete = record {
  class = other "ValueError";
  text = "incomplete message: input bytes are shorter than the declared length";
}

-- `Display` of pgwire's errors is `display`.
module _ {M : Type 0} (display : PgWireError → String) (codec : Codec M) where
  unfoldable pub encode_to_pybytes : M → Result PyErr Bytes
  unfolding pywire_to_py_err
  encode_to_pybytes m = elim (codec.encode m) [
    | ok b ↦ ok b
    | err e ↦ err (pywire_to_py_err display e)
  ]

  unfoldable pub decode_from_slice : Bytes → Result PyErr M
  unfolding pywire_to_py_err
  decode_from_slice b = elim (codec.decode b) [
    | ok (some m) ↦ ok m
    | ok none ↦ err incomplete
    | err e ↦ err (pywire_to_py_err display e)
  ]
