-- ===== src/Messages/New.antt =====
-- The constructors of the classes of src/messages.rs, with the defaults of their keyword arguments.
use pywire.Base.{ℕ, Option, List, [], String}
use pywire.Scram.Crypto.{Bytes}
use pywire.Debug.{or_default}
use pywire.Messages.{
  PyStartup, PyQuery, PyTerminate, PyTransactionStatus, PyReadyForQuery, PyCommandComplete,
  PyFieldDescription, PyRowDescription, PyDataRow, PyErrorResponse,
}

unfoldable pub startup_new : Option ℕ → Option ℕ → Option (List (String × String)) → PyStartup
unfolding or_default
startup_new major minor parameters = record {
  protocol_number_major = or_default 3 major;
  protocol_number_minor = or_default 0 minor;
  parameters = or_default [] parameters;
}

unfoldable pub query_new : String → PyQuery
query_new query = record { query = query }

unfoldable pub terminate_new : PyTerminate
terminate_new = PyTerminate.terminate

unfoldable pub ready_for_query_new : PyTransactionStatus → PyReadyForQuery
ready_for_query_new status = record { status = status }

unfoldable pub command_complete_new : String → PyCommandComplete
command_complete_new tag = record { tag = tag }

-- The keyword arguments of `PyFieldDescription::new`, each 0 where it is left out.
pub record Columns : Type 0 where
  pub table_id : Option ℕ
  pub column_id : Option ℕ
  pub type_id : Option ℕ
  pub type_size : Option ℕ
  pub type_modifier : Option ℕ
  pub format_code : Option ℕ

unfoldable pub field_description_new : String → Columns → PyFieldDescription
unfolding or_default
field_description_new name c = record {
  name = name;
  table_id = or_default 0 c.table_id;
  column_id = or_default 0 c.column_id;
  type_id = or_default 0 c.type_id;
  type_size = or_default 0 c.type_size;
  type_modifier = or_default 0 c.type_modifier;
  format_code = or_default 0 c.format_code;
}

unfoldable pub row_description_new : Option (List PyFieldDescription) → PyRowDescription
unfolding or_default
row_description_new fields = record { fields = or_default [] fields }

unfoldable pub data_row_new : ℕ → Bytes → PyDataRow
data_row_new field_count payload = record { field_count = field_count; payload = payload }

unfoldable pub error_response_new : Option (List (ℕ × String)) → PyErrorResponse
unfolding or_default
error_response_new fields = record { fields = or_default [] fields }
