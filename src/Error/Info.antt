-- ===== src/Error/Info.antt =====
-- The field set of an ErrorResponse, on both sides of the binding: src/errors.rs.
use pywire.Base.{ℕ, ◌≡◌, refl, Bool, Option, none, String, str_eq}

-- `pgwire::error::ErrorInfo`.
pub record ErrorInfo : Type 0 where
  pub severity : String
  pub code : String
  pub message : String
  pub detail : Option String
  pub hint : Option String
  pub position : Option String
  pub internal_position : Option String
  pub internal_query : Option String
  pub where_context : Option String
  pub file_name : Option String
  pub line : Option ℕ
  pub routine : Option String
  pub severity_nonlocalized : Option String
  pub schema : Option String
  pub table : Option String
  pub column : Option String
  pub datatype : Option String
  pub constraint : Option String

-- `PyErrorInfo`, the Python class.
pub record PyErrorInfo : Type 0 where
  pub severity : String
  pub code : String
  pub message : String
  pub detail : Option String
  pub hint : Option String
  pub position : Option String
  pub internal_position : Option String
  pub internal_query : Option String
  pub where_context : Option String
  pub file_name : Option String
  pub line : Option ℕ
  pub routine : Option String
  pub severity_nonlocalized : Option String
  pub schema : Option String
  pub table : Option String
  pub column : Option String
  pub datatype : Option String
  pub constraint : Option String

-- `ErrorInfo::new` of pgwire: the required fields, and every optional one empty.
abbrev pub new : String → String → String → ErrorInfo
new severity code message = record {
  severity = severity;
  code = code;
  message = message;
  detail = none;
  hint = none;
  position = none;
  internal_position = none;
  internal_query = none;
  where_context = none;
  file_name = none;
  line = none;
  routine = none;
  severity_nonlocalized = none;
  schema = none;
  table = none;
  column = none;
  datatype = none;
  constraint = none;
}

-- `impl From<ErrorInfo> for PyErrorInfo`.
unfoldable pub from_pg : ErrorInfo → PyErrorInfo
from_pg e = record {
  severity = e.severity;
  code = e.code;
  message = e.message;
  detail = e.detail;
  hint = e.hint;
  position = e.position;
  internal_position = e.internal_position;
  internal_query = e.internal_query;
  where_context = e.where_context;
  file_name = e.file_name;
  line = e.line;
  routine = e.routine;
  severity_nonlocalized = e.severity_nonlocalized;
  schema = e.schema;
  table = e.table;
  column = e.column;
  datatype = e.datatype;
  constraint = e.constraint;
}

-- `impl From<PyErrorInfo> for ErrorInfo`: the constructor, then each optional field by name.
unfoldable pub into_pg : PyErrorInfo → ErrorInfo
into_pg e =
    let info = new e.severity e.code e.message in
    record info {
      detail = e.detail;
      hint = e.hint;
      position = e.position;
      internal_position = e.internal_position;
      internal_query = e.internal_query;
      where_context = e.where_context;
      file_name = e.file_name;
      line = e.line;
      routine = e.routine;
      severity_nonlocalized = e.severity_nonlocalized;
      schema = e.schema;
      table = e.table;
      column = e.column;
      datatype = e.datatype;
      constraint = e.constraint;
    }

-- `PyErrorInfo::is_fatal`.
unfoldable pub is_fatal : PyErrorInfo → Bool
is_fatal e = str_eq e.severity "FATAL"

-- The two conversions are inverse to each other: no error field is lost or moved on the way between
-- Python and the wire, in either direction.
pub from_pg-into_pg :
    ((e : PyErrorInfo) → from_pg (into_pg e) ≡ e) × ((e : ErrorInfo) → into_pg (from_pg e) ≡ e)
unfolding from_pg into_pg
from_pg-into_pg = (λ e. refl, λ e. refl)
