-- ===== src/Error/Raise.antt =====
-- The Python exceptions that src/ raises with a text of its own.
use pywire.Base.{String, Result, ok, err}
use pywire.Error.Classes.{PyErr, other}

-- `map_err(PyValueError::new_err)`
unfoldable pub value_error {ℓ} : {A : Type ℓ} → Result String A → Result PyErr A
value_error (ok a) = ok a
value_error (err text) = err (record { class = other "ValueError"; text = text })

-- `map_err(|error| PyOSError::new_err(…))`, over the text that is made of the error's.
unfoldable pub os_error {ℓ} : {A : Type ℓ} → (String → String) → Result String A → Result PyErr A
os_error text (ok a) = ok a
os_error text (err e) = err (record { class = other "OSError"; text = text e })
