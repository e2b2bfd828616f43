-- ===== src/Query/Response.antt =====
-- `PyResponse` of src/query.rs: what a Python handler returns, and its conversion for pgwire.
pub mod Convert
pub mod Stream
use pywire.Base.{ℕ, Option, none, some, List, String, str_eq, if◌then◌else◌, Result, ok, err}
use pywire.Error.Info.{PyErrorInfo}
use pywire.Query.Field.{PyFieldInfo}
use pywire.Query.Row.{Cell}

-- A reference to a Python object.
abbrev pub Py : Type 0
Py = ℕ

pub data TransactionEffect : Type 0 where
  start end : TransactionEffect

-- `ResponseInner`, with the fields of `QueryInner` and `StreamInner` in place of the boxes.
pub data PyResponse : Type 0 where
  empty : PyResponse
  execution : String → Option ℕ → Option ℕ → Option TransactionEffect → PyResponse
  query : List PyFieldInfo → List (List Cell) → String → PyResponse
  stream : List PyFieldInfo → Py → String → PyResponse
  error : PyErrorInfo → PyResponse

-- The `match transaction` of `PyResponse::execution`; the error stands for the text that names the
-- value.
unfoldable pub effect : Option String → Result String (Option TransactionEffect)
effect none = ok none
effect (some value) =
    if str_eq value "start"
    then ok (some start)
    else if str_eq value "end"
    then ok (some end)
    else err value

-- `PyResponse::execution`.
unfoldable pub execution_of :
    String → Option ℕ → Option ℕ → Option String → Result String PyResponse
unfolding effect
execution_of command oid rows transaction = elim (effect transaction) [
  | ok t ↦ ok (execution command oid rows t)
  | err e ↦ err e
]

-- `PyResponse::kind`.
unfoldable pub kind : PyResponse → String
kind empty = "empty"
kind (execution _ _ _ _) = "execution"
kind (query _ _ _) = "query"
kind (stream _ _ _) = "stream"
kind (error _) = "error"
