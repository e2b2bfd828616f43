-- ===== src/Error/Boundary.antt =====
-- The two ways across the boundary of src/errors.rs: `pywire_to_py_err` and `py_err_to_pywire`.
use Prim.Native.String.{◌++◌ as str_append}
use pywire.Base.{Option, none, some, String, str_eq, if◌then◌else◌}
use pywire.Error.Text.{strip_prefix}
use pywire.Error.Classes.{ExcClass, PyClass, declared, other, class_name, PyErr}
use pywire.Error.PgWire.{
  PgWireError, unsupported_protocol_version, invalid_cancel_request, invalid_secret_key,
  invalid_message_type, message_too_large, invalid_element_count, invalid_target_type,
  invalid_transaction_status, invalid_ssl_request_message, invalid_gss_enc_request_message,
  invalid_startup_message, invalid_authentication_message_code, failed_to_coerce_password_message,
  invalid_sasl_state, unsupported_sasl_auth_method, io_error, portal_not_found, portal_not_started,
  statement_not_found, parameter_index_out_of_bound, invalid_rust_type_for_parameter,
  failed_to_parse_parameter, invalid_scram_message, invalid_password,
  unsupported_certificate_signature_algorithm, user_name_required, not_ready_for_query,
  query_canceled, invalid_option_value, invalid_oauth_message, oauth_authentication_failed,
  oauth_validation_error, oauth_authz_id_error, api_error, user_error,
}

-- The class that `pywire_to_py_err` raises: the arms of its `match`.
unfoldable pub error_class : PgWireError → PyClass
error_class (unsupported_protocol_version _ _) = declared ExcClass.unsupported_protocol_version
error_class invalid_cancel_request = declared ExcClass.invalid_cancel_request
error_class invalid_secret_key = declared ExcClass.invalid_secret_key
error_class (invalid_message_type _) = declared ExcClass.invalid_message_type
error_class (message_too_large _ _) = declared ExcClass.message_too_large
error_class (invalid_element_count _ _ _) = declared ExcClass.invalid_element_count
error_class (invalid_target_type _) = declared ExcClass.invalid_target_type
error_class (invalid_transaction_status _) = declared ExcClass.invalid_transaction_status
error_class invalid_ssl_request_message = declared ExcClass.invalid_ssl_request_message
error_class invalid_gss_enc_request_message = declared ExcClass.invalid_gss_enc_request_message
error_class invalid_startup_message = declared ExcClass.invalid_startup_message
error_class (invalid_authentication_message_code _) =
    declared ExcClass.invalid_authentication_message_code
error_class failed_to_coerce_password_message = declared ExcClass.failed_to_coerce_password_message
error_class invalid_sasl_state = declared ExcClass.invalid_sasl_state
error_class (unsupported_sasl_auth_method _) = declared ExcClass.unsupported_sasl_auth_method
error_class (io_error _) = other "OSError"
error_class (portal_not_found _) = declared ExcClass.portal_not_found
error_class portal_not_started = declared ExcClass.portal_not_started
error_class (statement_not_found _) = declared ExcClass.statement_not_found
error_class (parameter_index_out_of_bound _) = declared ExcClass.parameter_index_out_of_bound
error_class (invalid_rust_type_for_parameter _) = declared ExcClass.invalid_rust_type_for_parameter
error_class (failed_to_parse_parameter _) = declared ExcClass.failed_to_parse_parameter
error_class (invalid_scram_message _) = declared ExcClass.invalid_scram_message
error_class (invalid_password _) = declared ExcClass.invalid_password
error_class unsupported_certificate_signature_algorithm =
    declared ExcClass.unsupported_certificate_signature_algorithm
error_class user_name_required = declared ExcClass.user_name_required
error_class not_ready_for_query = declared ExcClass.not_ready_for_query
error_class query_canceled = declared ExcClass.query_canceled
error_class (invalid_option_value _) = declared ExcClass.invalid_option_value
error_class (invalid_oauth_message _) = declared ExcClass.invalid_oauth_message
error_class (oauth_authentication_failed _) = declared ExcClass.oauth_authentication_failed
error_class (oauth_validation_error _) = declared ExcClass.oauth_validation_error
error_class (oauth_authz_id_error _) = declared ExcClass.oauth_authz_id_error
error_class (api_error _) = declared ExcClass.api_error
error_class (user_error _) = declared ExcClass.user_error

-- The text of the raised exception: `err.to_string()`, for an `IoError` that of the inner error.
-- `display` is pgwire's `Display`.
unfoldable pub error_text : (PgWireError → String) → PgWireError → String
error_text display (io_error io) = io
error_text display err = display err

-- `pywire_to_py_err`.
unfoldable pub pywire_to_py_err : (PgWireError → String) → PgWireError → PyErr
unfolding error_class error_text
pywire_to_py_err display err = record { class = error_class err; text = error_text display err }

-- `err.to_string()` of a `PyErr`: "ClassName: text".
unfoldable pub to_string : PyErr → String
unfolding class_name
to_string err = str_append (class_name err.class) (str_append ": " err.text)

-- The `match name.as_str()` of `py_err_to_pywire`.
unfoldable pub from_name : String → String → String → PgWireError
from_name name payload msg =
    if str_eq name "InvalidCancelRequest"
    then invalid_cancel_request
    else if str_eq name "InvalidSecretKey"
    then invalid_secret_key
    else if str_eq name "InvalidSSLRequestMessage"
    then invalid_ssl_request_message
    else if str_eq name "InvalidGssEncRequestMessage"
    then invalid_gss_enc_request_message
    else if str_eq name "InvalidStartupMessage"
    then invalid_startup_message
    else if str_eq name "FailedToCoercePasswordMessage"
    then failed_to_coerce_password_message
    else if str_eq name "InvalidSASLState"
    then invalid_sasl_state
    else if str_eq name "UnsupportedCertificateSignatureAlgorithm"
    then unsupported_certificate_signature_algorithm
    else if str_eq name "UserNameRequired"
    then user_name_required
    else if str_eq name "NotReadyForQuery"
    then not_ready_for_query
    else if str_eq name "QueryCanceled"
    then query_canceled
    else if str_eq name "PortalNotStarted"
    then portal_not_started
    else if str_eq name "UnsupportedSASLAuthMethod"
    then unsupported_sasl_auth_method payload
    else if str_eq name "PortalNotFound"
    then portal_not_found payload
    else if str_eq name "StatementNotFound"
    then statement_not_found payload
    else if str_eq name "InvalidRustTypeForParameter"
    then invalid_rust_type_for_parameter payload
    else if str_eq name "InvalidScramMessage"
    then invalid_scram_message payload
    else if str_eq name "InvalidPassword"
    then invalid_password payload
    else if str_eq name "InvalidOptionValue"
    then invalid_option_value payload
    else if str_eq name "InvalidOauthMessage"
    then invalid_oauth_message payload
    else if str_eq name "OAuthAuthenticationFailed"
    then oauth_authentication_failed payload
    else if str_eq name "OAuthValidationError"
    then oauth_validation_error payload
    else if str_eq name "OauthAuthzIdError"
    then oauth_authz_id_error payload
    else api_error msg

unfoldable pub unwrap_or : Option String → String → String
unwrap_or none d = d
unwrap_or (some s) d = s

-- `py_err_to_pywire`: the variant by the class name, with the text behind "ClassName: ".
unfoldable pub py_err_to_pywire : PyErr → PgWireError
unfolding from_name class_name to_string strip_prefix unwrap_or
py_err_to_pywire err =
    let name = class_name err.class in
    let msg = to_string err in
    let payload = unwrap_or (strip_prefix (str_append name ": ") msg) msg in
    from_name name payload msg

-- `_test_py_err_to_pywire_tag`: the name of a variant that `py_err_to_pywire` can produce.
unfoldable pub tag : PgWireError → String
tag invalid_cancel_request = "InvalidCancelRequest"
tag invalid_secret_key = "InvalidSecretKey"
tag invalid_ssl_request_message = "InvalidSSLRequestMessage"
tag invalid_gss_enc_request_message = "InvalidGssEncRequestMessage"
tag invalid_startup_message = "InvalidStartupMessage"
tag failed_to_coerce_password_message = "FailedToCoercePasswordMessage"
tag invalid_sasl_state = "InvalidSASLState"
tag unsupported_certificate_signature_algorithm = "UnsupportedCertificateSignatureAlgorithm"
tag user_name_required = "UserNameRequired"
tag not_ready_for_query = "NotReadyForQuery"
tag query_canceled = "QueryCanceled"
tag portal_not_started = "PortalNotStarted"
tag (unsupported_sasl_auth_method _) = "UnsupportedSASLAuthMethod"
tag (portal_not_found _) = "PortalNotFound"
tag (statement_not_found _) = "StatementNotFound"
tag (invalid_rust_type_for_parameter _) = "InvalidRustTypeForParameter"
tag (invalid_scram_message _) = "InvalidScramMessage"
tag (invalid_password _) = "InvalidPassword"
tag (invalid_option_value _) = "InvalidOptionValue"
tag (invalid_oauth_message _) = "InvalidOauthMessage"
tag (oauth_authentication_failed _) = "OAuthAuthenticationFailed"
tag (oauth_validation_error _) = "OAuthValidationError"
tag (oauth_authz_id_error _) = "OauthAuthzIdError"
tag _ = "ApiError"
