-- ===== src/Messages.antt =====
-- src/messages.rs: the classes around pgwire's codec for messages.
pub mod Frame
pub mod New
pub mod Repr
use pywire.Base.{ℕ, Option, none, some, List, [], ◌∷◌, map, String, Result, ok, err}
use pywire.Error.Classes.{PyErr}
use pywire.Error.PgWire.{PgWireError}
use pywire.Extended.State.{TransactionStatus}
use pywire.Scram.Crypto.{Bytes}
use pywire.Messages.Frame.{Codec, encode_to_pybytes, decode_from_slice}

-- Integers stand for their bit patterns; the map of parameters for the list of its entries by key.
-- pgwire's `Startup`, and `PyStartup`.
pub record Startup : Type 0 where
  pub protocol_number_major : ℕ
  pub protocol_number_minor : ℕ
  pub parameters : List (String × String)

pub record PyStartup : Type 0 where
  pub protocol_number_major : ℕ
  pub protocol_number_minor : ℕ
  pub parameters : List (String × String)

-- pgwire's `Query`, and `PyQuery`.
pub record Query : Type 0 where
  pub query : String

pub record PyQuery : Type 0 where
  pub query : String

-- pgwire's `CommandComplete`, and `PyCommandComplete`.
pub record CommandComplete : Type 0 where
  pub tag : String

pub record PyCommandComplete : Type 0 where
  pub tag : String

-- pgwire's `DataRow`, and `PyDataRow`.
pub record DataRow : Type 0 where
  pub field_count : ℕ
  pub payload : Bytes

pub record PyDataRow : Type 0 where
  pub field_count : ℕ
  pub payload : Bytes

-- pgwire's `ErrorResponse`, and `PyErrorResponse`.
pub record ErrorResponse : Type 0 where
  pub fields : List (ℕ × String)

pub record PyErrorResponse : Type 0 where
  pub fields : List (ℕ × String)

-- pgwire's `ReadyForQuery` and `Terminate`, with the classes around them.
pub data PyTransactionStatus : Type 0 where
  idle transaction error : PyTransactionStatus

pub record ReadyForQuery : Type 0 where
  pub status : TransactionStatus

pub record PyReadyForQuery : Type 0 where
  pub status : PyTransactionStatus

pub data Terminate : Type 0 where
  terminate : Terminate

pub data PyTerminate : Type 0 where
  terminate : PyTerminate

-- pgwire's `FieldDescription` and `RowDescription`, and `PyFieldDescription` and `PyRowDescription`.
pub record FieldDescription : Type 0 where
  pub name : String
  pub table_id : ℕ
  pub column_id : ℕ
  pub type_id : ℕ
  pub type_size : ℕ
  pub type_modifier : ℕ
  pub format_code : ℕ

pub record PyFieldDescription : Type 0 where
  pub name : String
  pub table_id : ℕ
  pub column_id : ℕ
  pub type_id : ℕ
  pub type_size : ℕ
  pub type_modifier : ℕ
  pub format_code : ℕ

pub record RowDescription : Type 0 where
  pub fields : List FieldDescription

pub record PyRowDescription : Type 0 where
  pub fields : List PyFieldDescription

-- `From<PgTransactionStatus> for PyTransactionStatus` and back.
unfoldable pub status_from_pg : TransactionStatus → PyTransactionStatus
status_from_pg TransactionStatus.idle = PyTransactionStatus.idle
status_from_pg TransactionStatus.transaction = PyTransactionStatus.transaction
status_from_pg TransactionStatus.error = PyTransactionStatus.error

unfoldable pub status_into_pg : PyTransactionStatus → TransactionStatus
status_into_pg PyTransactionStatus.idle = TransactionStatus.idle
status_into_pg PyTransactionStatus.transaction = TransactionStatus.transaction
status_into_pg PyTransactionStatus.error = TransactionStatus.error

-- `From<PyFieldDescription> for PgFieldDescription` and back.
unfoldable pub field_into_pg : PyFieldDescription → FieldDescription
field_into_pg f = record {
  name = f.name;
  table_id = f.table_id;
  column_id = f.column_id;
  type_id = f.type_id;
  type_size = f.type_size;
  type_modifier = f.type_modifier;
  format_code = f.format_code;
}

unfoldable pub field_from_pg : FieldDescription → PyFieldDescription
field_from_pg f = record {
  name = f.name;
  table_id = f.table_id;
  column_id = f.column_id;
  type_id = f.type_id;
  type_size = f.type_size;
  type_modifier = f.type_modifier;
  format_code = f.format_code;
}

-- What `encode` of each class makes for pgwire, and what `decode` makes of pgwire's message.
unfoldable pub startup_into_pg : PyStartup → Startup
startup_into_pg m = record {
  protocol_number_major = m.protocol_number_major;
  protocol_number_minor = m.protocol_number_minor;
  parameters = m.parameters;
}

unfoldable pub startup_from_pg : Startup → PyStartup
startup_from_pg m = record {
  protocol_number_major = m.protocol_number_major;
  protocol_number_minor = m.protocol_number_minor;
  parameters = m.parameters;
}

unfoldable pub query_into_pg : PyQuery → Query
query_into_pg m = record { query = m.query }

unfoldable pub query_from_pg : Query → PyQuery
query_from_pg m = record { query = m.query }

unfoldable pub command_complete_into_pg : PyCommandComplete → CommandComplete
command_complete_into_pg m = record { tag = m.tag }

unfoldable pub command_complete_from_pg : CommandComplete → PyCommandComplete
command_complete_from_pg m = record { tag = m.tag }

unfoldable pub data_row_into_pg : PyDataRow → DataRow
data_row_into_pg m = record { field_count = m.field_count; payload = m.payload }

unfoldable pub data_row_from_pg : DataRow → PyDataRow
data_row_from_pg m = record { field_count = m.field_count; payload = m.payload }

unfoldable pub error_response_into_pg : PyErrorResponse → ErrorResponse
error_response_into_pg m = record { fields = m.fields }

unfoldable pub error_response_from_pg : ErrorResponse → PyErrorResponse
error_response_from_pg m = record { fields = m.fields }

unfoldable pub ready_for_query_into_pg : PyReadyForQuery → ReadyForQuery
unfolding status_into_pg
ready_for_query_into_pg m = record { status = status_into_pg m.status }

unfoldable pub ready_for_query_from_pg : ReadyForQuery → PyReadyForQuery
unfolding status_from_pg
ready_for_query_from_pg m = record { status = status_from_pg m.status }

unfoldable pub terminate_into_pg : PyTerminate → Terminate
terminate_into_pg PyTerminate.terminate = Terminate.terminate

unfoldable pub terminate_from_pg : Terminate → PyTerminate
terminate_from_pg Terminate.terminate = PyTerminate.terminate

unfoldable pub row_description_into_pg : PyRowDescription → RowDescription
unfolding field_into_pg
row_description_into_pg m = record { fields = map field_into_pg m.fields }

unfoldable pub row_description_from_pg : RowDescription → PyRowDescription
unfolding field_from_pg
row_description_from_pg m = record { fields = map field_from_pg m.fields }

-- `encode` and `decode` of a class, over its two conversions.
module _ {P M : Type 0} (display : PgWireError → String) (codec : Codec M) (into : P → M)
    (from : M → P) where
  unfoldable pub encode : P → Result PyErr Bytes
  unfolding encode_to_pybytes
  encode m = encode_to_pybytes display codec (into m)

  unfoldable pub decode : Bytes → Result PyErr P
  unfolding decode_from_slice
  decode b = elim (decode_from_slice display codec b) [ ok m ↦ ok (from m) | err e ↦ err e ]
