-- ===== src/Scram/Verifier/Repr.antt =====
-- The Python side of `PyScramVerifier` in src/scram_verifier.rs: its constructor, `parse` and
-- `__repr__`.
use pywire.Base.{ℕ, ◌++◌, Text, codes, length, Result}
use pywire.Error.Classes.{PyErr}
use pywire.Error.Raise.{value_error}
use pywire.Scram.Crypto.{Bytes, Crypto}
use pywire.Scram.Verifier.{Verifier, new, parse}
use pywire.Debug.{decimal}

-- `PyScramVerifier::py_new`.
unfoldable pub py_new : ℕ → Bytes → Bytes → Bytes → Result PyErr Verifier
unfolding value_error new
py_new iterations salt stored_key server_key =
    value_error (new iterations salt stored_key server_key)

-- `PyScramVerifier::py_parse`.
unfoldable pub py_parse : Crypto → Text → Result PyErr Verifier
unfolding value_error parse
py_parse crypto text = value_error (parse crypto text)

-- `PyScramVerifier::__repr__`.
unfoldable pub verifier_repr : Verifier → Text
verifier_repr v =
    codes "ScramVerifier(iterations="
    ++ (decimal v.iterations ++ (codes ", <" ++ (decimal (length v.salt) ++ codes "-byte salt>)")))
