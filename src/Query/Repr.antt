-- ===== src/Query/Repr.antt =====
-- The factories of `PyResponse` and the `__repr__` of the classes of src/query.rs.
use pywire.Base.{ℕ, Bool, Option, List, ◌++◌, Text, String, codes, length}
use pywire.Error.Info.{PyErrorInfo}
use pywire.Debug.{decimal, signed, quote, debug_option, or_default}
use pywire.Query.Field.{PyFieldInfo}
use pywire.Query.Row.{Cell}
use pywire.Query.Response.{
  Py, PyResponse, TransactionEffect, start, end, empty, execution, query, stream, error,
}

-- `PyResponse::empty`, `query`, `stream` and `error`, with `none` for a tag that is left out.
unfoldable pub empty_of : PyResponse
empty_of = empty

unfoldable pub query_of : List PyFieldInfo → List (List Cell) → Option String → PyResponse
unfolding or_default
query_of fields rows command_tag = query fields rows (or_default "SELECT" command_tag)

unfoldable pub stream_of : List PyFieldInfo → Py → Option String → PyResponse
unfolding or_default
stream_of fields rows command_tag = stream fields rows (or_default "SELECT" command_tag)

unfoldable pub error_of : PyErrorInfo → PyResponse
error_of info = error info

-- `{:?}` of a `TransactionEffect`.
unfoldable pub effect_debug : TransactionEffect → Text
effect_debug start = codes "Start"
effect_debug end = codes "End"

module _ (printable : ℕ → Bool) where
  -- `PyFieldInfo::__repr__`.
  unfoldable pub field_info_repr : PyFieldInfo → Text
  unfolding signed
  field_info_repr f =
      codes "FieldInfo(name="
      ++ (quote printable f.name
          ++ (codes ", type_id="
              ++ (decimal f.type_id ++ (codes ", format=" ++ (signed 16 f.format ++ codes ")")))))

  -- `PyResponse::__repr__`.
  unfoldable pub response_repr : PyResponse → Text
  unfolding debug_option effect_debug
  response_repr empty = codes "Response.empty()"
  response_repr (execution command oid rows transaction) =
      codes "Response.execution(command="
      ++ (quote printable command
          ++ (codes ", oid="
              ++ (debug_option decimal oid
                  ++ (codes ", rows="
                      ++ (debug_option decimal rows
                          ++ (codes ", transaction="
                              ++ (debug_option effect_debug transaction ++ codes ")")))))))
  response_repr (query fields rows command_tag) =
      codes "Response.query(command_tag="
      ++ (quote printable command_tag
          ++ (codes ", fields="
              ++ (decimal (length fields)
                  ++ (codes ", rows=" ++ (decimal (length rows) ++ codes ")")))))
  response_repr (stream fields rows command_tag) =
      codes "Response.stream(command_tag="
      ++ (quote printable command_tag
          ++ (codes ", fields=" ++ (decimal (length fields) ++ codes ")")))
  response_repr (error info) = codes "Response.error(...)"
