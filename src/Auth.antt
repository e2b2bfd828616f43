-- ===== src/Auth.antt =====
-- src/auth.rs: `LoginInfo`, `Password` and the adapter of a Python `AuthSource`.
pub mod Repr
pub mod Secrets
use pywire.Base.{Option, String, Result, ok, err}
use pywire.Error.Classes.{PyErr}
use pywire.Error.PgWire.{PgWireResult}
use pywire.Error.Boundary.{py_err_to_pywire}
use pywire.Scram.Crypto.{Bytes}

-- pgwire's `LoginInfo`, and `PyLoginInfo`.
pub record LoginInfo : Type 0 where
  pub user : Option String
  pub database : Option String
  pub host : String

pub record PyLoginInfo : Type 0 where
  pub user : Option String
  pub database : Option String
  pub host : String

-- `PyLoginInfo::from_pg`.
unfoldable pub from_pg : LoginInfo → PyLoginInfo
from_pg info = record { user = info.user; database = info.database; host = info.host }

-- `PyPassword`, and pgwire's `Password`.
pub record PyPassword : Type 0 where
  pub password : Bytes
  pub salt : Option Bytes

pub record Password : Type 0 where
  pub salt : Option Bytes
  pub password : Bytes

-- `From<PyPassword> for PgPassword`.
unfoldable pub into_pg : PyPassword → Password
into_pg p = record { salt = p.salt; password = p.password }

-- `get_password` of `PyAuthSource`, over the answer of the Python object.
unfoldable pub get_password :
    (PyLoginInfo → Result PyErr PyPassword) → LoginInfo → PgWireResult Password
unfolding from_pg into_pg
get_password answer login = elim (answer (from_pg login)) [
  | ok p ↦ ok (into_pg p)
  | err e ↦ err (py_err_to_pywire e)
]
