-- ===== src/Error/PgWire.antt =====
-- `PgWireError` of pgwire, which src/errors.rs matches on. Boxed errors stand as their text, and
-- an `i32` as its bit pattern.
use pywire.Base.{ℕ, String, Result}
use pywire.Error.Info.{ErrorInfo}

pub data PgWireError : Type 0 where
  unsupported_protocol_version : ℕ → ℕ → PgWireError
  invalid_cancel_request : PgWireError
  invalid_secret_key : PgWireError
  invalid_message_type : ℕ → PgWireError
  message_too_large : ℕ → ℕ → PgWireError
  invalid_element_count : ℕ → ℕ → ℕ → PgWireError
  invalid_target_type : ℕ → PgWireError
  invalid_transaction_status : ℕ → PgWireError
  invalid_ssl_request_message : PgWireError
  invalid_gss_enc_request_message : PgWireError
  invalid_startup_message : PgWireError
  invalid_authentication_message_code : ℕ → PgWireError
  failed_to_coerce_password_message : PgWireError
  invalid_sasl_state : PgWireError
  unsupported_sasl_auth_method : String → PgWireError
  io_error : String → PgWireError
  portal_not_found : String → PgWireError
  portal_not_started : PgWireError
  statement_not_found : String → PgWireError
  parameter_index_out_of_bound : ℕ → PgWireError
  invalid_rust_type_for_parameter : String → PgWireError
  failed_to_parse_parameter : String → PgWireError
  invalid_scram_message : String → PgWireError
  invalid_password : String → PgWireError
  unsupported_certificate_signature_algorithm : PgWireError
  user_name_required : PgWireError
  not_ready_for_query : PgWireError
  query_canceled : PgWireError
  invalid_option_value : String → PgWireError
  invalid_oauth_message : String → PgWireError
  oauth_authentication_failed : String → PgWireError
  oauth_validation_error : String → PgWireError
  oauth_authz_id_error : String → PgWireError
  api_error : String → PgWireError
  user_error : ErrorInfo → PgWireError

-- `PgWireResult`.
abbrev pub PgWireResult {ℓ} : Type ℓ → Type ℓ
PgWireResult A = Result PgWireError A
