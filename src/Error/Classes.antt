-- ===== src/Error/Classes.antt =====
-- The Python exception classes of src/errors.rs and their bases.
use pywire.Base.{Option, none, some, String}

-- The classes that `create_exception!` declares.
pub data ExcClass : Type 0 where
  error : ExcClass
  protocol_error : ExcClass
  auth_error : ExcClass
  unsupported_protocol_version : ExcClass
  invalid_cancel_request : ExcClass
  invalid_message_type : ExcClass
  message_too_large : ExcClass
  invalid_element_count : ExcClass
  invalid_target_type : ExcClass
  invalid_transaction_status : ExcClass
  invalid_ssl_request_message : ExcClass
  invalid_gss_enc_request_message : ExcClass
  invalid_startup_message : ExcClass
  invalid_authentication_message_code : ExcClass
  invalid_secret_key : ExcClass
  not_ready_for_query : ExcClass
  invalid_option_value : ExcClass
  failed_to_coerce_password_message : ExcClass
  invalid_sasl_state : ExcClass
  unsupported_sasl_auth_method : ExcClass
  invalid_scram_message : ExcClass
  invalid_password : ExcClass
  unsupported_certificate_signature_algorithm : ExcClass
  user_name_required : ExcClass
  invalid_oauth_message : ExcClass
  oauth_authentication_failed : ExcClass
  oauth_validation_error : ExcClass
  oauth_authz_id_error : ExcClass
  portal_not_found : ExcClass
  portal_not_started : ExcClass
  statement_not_found : ExcClass
  parameter_index_out_of_bound : ExcClass
  invalid_rust_type_for_parameter : ExcClass
  failed_to_parse_parameter : ExcClass
  query_canceled : ExcClass
  api_error : ExcClass
  user_error : ExcClass

-- `__qualname__`.
unfoldable pub qualname : ExcClass → String
qualname error = "Error"
qualname protocol_error = "ProtocolError"
qualname auth_error = "AuthError"
qualname unsupported_protocol_version = "UnsupportedProtocolVersion"
qualname invalid_cancel_request = "InvalidCancelRequest"
qualname invalid_message_type = "InvalidMessageType"
qualname message_too_large = "MessageTooLarge"
qualname invalid_element_count = "InvalidElementCount"
qualname invalid_target_type = "InvalidTargetType"
qualname invalid_transaction_status = "InvalidTransactionStatus"
qualname invalid_ssl_request_message = "InvalidSSLRequestMessage"
qualname invalid_gss_enc_request_message = "InvalidGssEncRequestMessage"
qualname invalid_startup_message = "InvalidStartupMessage"
qualname invalid_authentication_message_code = "InvalidAuthenticationMessageCode"
qualname invalid_secret_key = "InvalidSecretKey"
qualname not_ready_for_query = "NotReadyForQuery"
qualname invalid_option_value = "InvalidOptionValue"
qualname failed_to_coerce_password_message = "FailedToCoercePasswordMessage"
qualname invalid_sasl_state = "InvalidSASLState"
qualname unsupported_sasl_auth_method = "UnsupportedSASLAuthMethod"
qualname invalid_scram_message = "InvalidScramMessage"
qualname invalid_password = "InvalidPassword"
qualname unsupported_certificate_signature_algorithm = "UnsupportedCertificateSignatureAlgorithm"
qualname user_name_required = "UserNameRequired"
qualname invalid_oauth_message = "InvalidOauthMessage"
qualname oauth_authentication_failed = "OAuthAuthenticationFailed"
qualname oauth_validation_error = "OAuthValidationError"
qualname oauth_authz_id_error = "OauthAuthzIdError"
qualname portal_not_found = "PortalNotFound"
qualname portal_not_started = "PortalNotStarted"
qualname statement_not_found = "StatementNotFound"
qualname parameter_index_out_of_bound = "ParameterIndexOutOfBound"
qualname invalid_rust_type_for_parameter = "InvalidRustTypeForParameter"
qualname failed_to_parse_parameter = "FailedToParseParameter"
qualname query_canceled = "QueryCanceled"
qualname api_error = "ApiError"
qualname user_error = "UserError"

-- The base class; the base of `Error` is Python's `Exception`.
unfoldable pub base : ExcClass → Option ExcClass
base error = none
base protocol_error = some error
base auth_error = some error
base unsupported_protocol_version = some protocol_error
base invalid_cancel_request = some protocol_error
base invalid_message_type = some protocol_error
base message_too_large = some protocol_error
base invalid_element_count = some protocol_error
base invalid_target_type = some protocol_error
base invalid_transaction_status = some protocol_error
base invalid_ssl_request_message = some protocol_error
base invalid_gss_enc_request_message = some protocol_error
base invalid_startup_message = some protocol_error
base invalid_authentication_message_code = some protocol_error
base invalid_secret_key = some protocol_error
base not_ready_for_query = some protocol_error
base invalid_option_value = some protocol_error
base failed_to_coerce_password_message = some auth_error
base invalid_sasl_state = some auth_error
base unsupported_sasl_auth_method = some auth_error
base invalid_scram_message = some auth_error
base invalid_password = some auth_error
base unsupported_certificate_signature_algorithm = some auth_error
base user_name_required = some auth_error
base invalid_oauth_message = some auth_error
base oauth_authentication_failed = some auth_error
base oauth_validation_error = some auth_error
base oauth_authz_id_error = some auth_error
base portal_not_found = some error
base portal_not_started = some error
base statement_not_found = some error
base parameter_index_out_of_bound = some error
base invalid_rust_type_for_parameter = some error
base failed_to_parse_parameter = some error
base query_canceled = some error
base api_error = some error
base user_error = some error

-- A class of the exceptions that reach the binding: pywire's, or another by its `__qualname__`.
pub data PyClass : Type 0 where
  declared : ExcClass → PyClass
  other : String → PyClass

unfoldable pub class_name : PyClass → String
unfolding qualname
class_name (declared c) = qualname c
class_name (other name) = name

-- A Python exception: its class and `str(exception)`.
pub record PyErr : Type 0 where
  pub class : PyClass
  pub text : String
