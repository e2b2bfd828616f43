-- ===== src/Error/Repr.antt =====
-- The constructor and the `__repr__` of `PyErrorInfo` in src/errors.rs.
use pywire.Base.{ℕ, ◌≡◌, Bool, Option, ◌++◌, Text, String, codes}
use pywire.Error.Info.{PyErrorInfo}
use pywire.Debug.{quote}
use pywire.Debug.Quoted.{append-cancel, quote-prefix}

-- The keyword arguments of `PyErrorInfo::new`, `none` where one is left out.
pub record Details : Type 0 where
  pub detail : Option String
  pub hint : Option String
  pub position : Option String
  pub internal_position : Option String
  pub internal_query : Option String
  pub where_context : Option String
  pub file_name : Option String
  pub line : Option ℕ
  pub routine : Option String
  pub severity_nonlocalized : Option String
  pub schema : Option String
  pub table : Option String
  pub column : Option String
  pub datatype : Option String
  pub constraint : Option String

-- `PyErrorInfo::new`.
unfoldable pub error_info_new : String → String → String → Details → PyErrorInfo
error_info_new severity code message d = record {
  severity = severity;
  code = code;
  message = message;
  detail = d.detail;
  hint = d.hint;
  position = d.position;
  internal_position = d.internal_position;
  internal_query = d.internal_query;
  where_context = d.where_context;
  file_name = d.file_name;
  line = d.line;
  routine = d.routine;
  severity_nonlocalized = d.severity_nonlocalized;
  schema = d.schema;
  table = d.table;
  column = d.column;
  datatype = d.datatype;
  constraint = d.constraint;
}

module _ (printable : ℕ → Bool) where
  -- `PyErrorInfo::__repr__`.
  unfoldable pub error_info_repr : PyErrorInfo → Text
  error_info_repr e =
      codes "ErrorInfo(severity="
      ++ (quote printable e.severity
          ++ (codes ", code="
              ++ (quote printable e.code
                  ++ (codes ", message=" ++ (quote printable e.message ++ codes ")")))))

  -- Two errors that print alike have the same severity, code and message.
  pub error_info_repr-injective :
      (x y : PyErrorInfo)
      → error_info_repr x ≡ error_info_repr y
      → (x.severity ≡ y.severity) × (x.code ≡ y.code) × (x.message ≡ y.message)
  unfolding error_info_repr
  error_info_repr-injective x y h =
      let (severity, h1) =
        quote-prefix printable x.severity y.severity _ _
          (append-cancel (codes "ErrorInfo(severity=") _ _ h) in
      let (code, h2) =
        quote-prefix printable x.code y.code _ _ (append-cancel (codes ", code=") _ _ h1) in
      let (message, _) =
        quote-prefix printable x.message y.message _ _
          (append-cancel (codes ", message=") _ _ h2) in
      (severity, code, message)
