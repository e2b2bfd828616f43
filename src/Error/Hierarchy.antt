-- ===== src/Error/Hierarchy.antt =====
-- Which `except` clause catches an error of src/errors.rs, by the bases of the classes.
use pywire.Base.{◌≡◌, refl, Bool, true, false, not, ◌&&◌, ◌||◌, Option, none, some, String, str_eq}
use pywire.Error.Classes.{
  ExcClass, error, protocol_error, auth_error, qualname, base, PyClass, declared, other,
}
use pywire.Error.PgWire.{
  PgWireError, unsupported_protocol_version, invalid_cancel_request, invalid_secret_key,
  invalid_message_type, message_too_large, invalid_element_count, invalid_target_type,
  invalid_transaction_status, invalid_ssl_request_message, invalid_gss_enc_request_message,
  invalid_startup_message, invalid_authentication_message_code, failed_to_coerce_password_message,
  invalid_sasl_state, unsupported_sasl_auth_method, io_error, portal_not_found, portal_not_started,
  statement_not_found, parameter_index_out_of_bound, invalid_rust_type_for_parameter,
  failed_to_parse_parameter, invalid_scram_message, invalid_password,
  unsupported_certificate_signature_algorithm, user_name_required, not_ready_for_query,
  query_canceled, invalid_option_value, invalid_oauth_message, oauth_authentication_failed,
  oauth_validation_error, oauth_authz_id_error, api_error, user_error,
}
use pywire.Error.Boundary.{pywire_to_py_err}

abbrev parent : Option ExcClass → Option ExcClass
parent none = none
parent (some c) = base c

abbrev is_class : ExcClass → Option ExcClass → Bool
is_class caught none = false
is_class caught (some c) = str_eq (qualname c) (qualname caught)

-- `except caught:` for a class that is raised. No class has more than two of pywire's above it, and
-- `OSError` has none.
unfoldable pub catches : ExcClass → PyClass → Bool
unfolding base qualname
catches caught (other name) = false
catches caught (declared c) =
    is_class caught (some c) || is_class caught (base c) || is_class caught (parent (base c))

abbrev pub is_io : PgWireError → Bool
is_io (io_error _) = true
is_io _ = false

-- `except pywire.errors.Error` catches every error that pgwire can report, except an `IoError`,
-- which is an `OSError`; and none is both a `ProtocolError` and an `AuthError`.
pub catches-pywire_to_py_err :
    (display : PgWireError → String) (err : PgWireError)
    → (catches error (pywire_to_py_err display err).class ≡ not (is_io err))
      × ((catches protocol_error (pywire_to_py_err display err).class
            && catches auth_error (pywire_to_py_err display err).class)
          ≡ false)
unfolding catches pywire_to_py_err
catches-pywire_to_py_err display (unsupported_protocol_version _ _) = (refl, refl)
catches-pywire_to_py_err display invalid_cancel_request = (refl, refl)
catches-pywire_to_py_err display invalid_secret_key = (refl, refl)
catches-pywire_to_py_err display (invalid_message_type _) = (refl, refl)
catches-pywire_to_py_err display (message_too_large _ _) = (refl, refl)
catches-pywire_to_py_err display (invalid_element_count _ _ _) = (refl, refl)
catches-pywire_to_py_err display (invalid_target_type _) = (refl, refl)
catches-pywire_to_py_err display (invalid_transaction_status _) = (refl, refl)
catches-pywire_to_py_err display invalid_ssl_request_message = (refl, refl)
catches-pywire_to_py_err display invalid_gss_enc_request_message = (refl, refl)
catches-pywire_to_py_err display invalid_startup_message = (refl, refl)
catches-pywire_to_py_err display (invalid_authentication_message_code _) = (refl, refl)
catches-pywire_to_py_err display failed_to_coerce_password_message = (refl, refl)
catches-pywire_to_py_err display invalid_sasl_state = (refl, refl)
catches-pywire_to_py_err display (unsupported_sasl_auth_method _) = (refl, refl)
catches-pywire_to_py_err display (io_error _) = (refl, refl)
catches-pywire_to_py_err display (portal_not_found _) = (refl, refl)
catches-pywire_to_py_err display portal_not_started = (refl, refl)
catches-pywire_to_py_err display (statement_not_found _) = (refl, refl)
catches-pywire_to_py_err display (parameter_index_out_of_bound _) = (refl, refl)
catches-pywire_to_py_err display (invalid_rust_type_for_parameter _) = (refl, refl)
catches-pywire_to_py_err display (failed_to_parse_parameter _) = (refl, refl)
catches-pywire_to_py_err display (invalid_scram_message _) = (refl, refl)
catches-pywire_to_py_err display (invalid_password _) = (refl, refl)
catches-pywire_to_py_err display unsupported_certificate_signature_algorithm = (refl, refl)
catches-pywire_to_py_err display user_name_required = (refl, refl)
catches-pywire_to_py_err display not_ready_for_query = (refl, refl)
catches-pywire_to_py_err display query_canceled = (refl, refl)
catches-pywire_to_py_err display (invalid_option_value _) = (refl, refl)
catches-pywire_to_py_err display (invalid_oauth_message _) = (refl, refl)
catches-pywire_to_py_err display (oauth_authentication_failed _) = (refl, refl)
catches-pywire_to_py_err display (oauth_validation_error _) = (refl, refl)
catches-pywire_to_py_err display (oauth_authz_id_error _) = (refl, refl)
catches-pywire_to_py_err display (api_error _) = (refl, refl)
catches-pywire_to_py_err display (user_error _) = (refl, refl)
