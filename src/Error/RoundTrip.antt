-- ===== src/Error/RoundTrip.antt =====
-- What survives a trip of an error of src/errors.rs to Python and back.
use Prim.Native.String.{◌++◌ as str_append}
use pywire.Base.{
  ◌≡◌, refl, sym, ap, ◌∙◌, List, [], ◌∷◌, inl, inr, String, str_eq, if◌then◌else◌, Bool-cases,
  str_eq_iff,
}
use pywire.Error.Text.{strip_prefix, strip_prefix-append, str_append_assoc}
use pywire.Error.Classes.{PyErr, class_name}
use pywire.Error.PgWire.{
  PgWireError, unsupported_protocol_version, invalid_cancel_request, invalid_secret_key,
  invalid_message_type, message_too_large, invalid_element_count, invalid_target_type,
  invalid_transaction_status, invalid_ssl_request_message, invalid_gss_enc_request_message,
  invalid_startup_message, invalid_authentication_message_code, failed_to_coerce_password_message,
  invalid_sasl_state, unsupported_sasl_auth_method, io_error, portal_not_found, portal_not_started,
  statement_not_found, parameter_index_out_of_bound, invalid_rust_type_for_parameter,
  failed_to_parse_parameter, invalid_scram_message, invalid_password,
  unsupported_certificate_signature_algorithm, user_name_required, not_ready_for_query,
  query_canceled, invalid_option_value, invalid_oauth_message, oauth_authentication_failed,
  oauth_validation_error, oauth_authz_id_error, api_error, user_error,
}
use pywire.Error.Boundary.{
  error_class, pywire_to_py_err, to_string, unwrap_or, from_name, py_err_to_pywire, tag,
}

-- How much of an error the Python side can rebuild: all of it, the variant around a text, or nothing
-- but a text.
pub data Rebuilds : Type 0 where
  whole : Rebuilds
  around : (String → PgWireError) → Rebuilds
  nothing : Rebuilds

-- The unit variants are rebuilt whole, those that carry one text around it.
abbrev pub rebuilds : PgWireError → Rebuilds
rebuilds invalid_cancel_request = whole
rebuilds invalid_secret_key = whole
rebuilds invalid_ssl_request_message = whole
rebuilds invalid_gss_enc_request_message = whole
rebuilds invalid_startup_message = whole
rebuilds failed_to_coerce_password_message = whole
rebuilds invalid_sasl_state = whole
rebuilds unsupported_certificate_signature_algorithm = whole
rebuilds user_name_required = whole
rebuilds not_ready_for_query = whole
rebuilds query_canceled = whole
rebuilds portal_not_started = whole
rebuilds (unsupported_sasl_auth_method _) = around unsupported_sasl_auth_method
rebuilds (portal_not_found _) = around portal_not_found
rebuilds (statement_not_found _) = around statement_not_found
rebuilds (invalid_rust_type_for_parameter _) = around invalid_rust_type_for_parameter
rebuilds (invalid_scram_message _) = around invalid_scram_message
rebuilds (invalid_password _) = around invalid_password
rebuilds (invalid_option_value _) = around invalid_option_value
rebuilds (invalid_oauth_message _) = around invalid_oauth_message
rebuilds (oauth_authentication_failed _) = around oauth_authentication_failed
rebuilds (oauth_validation_error _) = around oauth_validation_error
rebuilds (oauth_authz_id_error _) = around oauth_authz_id_error
rebuilds _ = nothing

abbrev pub rebuilt : Rebuilds → PgWireError → String → String → PgWireError
rebuilt whole err text msg = err
rebuilt (around variant) err text msg = variant text
rebuilt nothing err text msg = api_error msg

-- The text behind the class name is exactly the text of the exception.
pub payload-eq-text :
    (err : PyErr)
    → unwrap_or
        (strip_prefix (str_append (class_name err.class) ": ") (to_string err))
        (to_string err)
      ≡ err.text
unfolding to_string unwrap_or
payload-eq-text err =
    rw (sym (str_append_assoc (class_name err.class) ": " err.text))
      (rw (strip_prefix-append (str_append (class_name err.class) ": ") err.text) refl)

pub py_err_to_pywire-eq :
    (err : PyErr) → py_err_to_pywire err ≡ from_name (class_name err.class) err.text (to_string err)
unfolding py_err_to_pywire
py_err_to_pywire-eq err =
    ap (λ p. from_name (class_name err.class) p (to_string err)) (payload-eq-text err)

from_name-rebuilds :
    (err : PgWireError) (text msg : String)
    → from_name (class_name (error_class err)) text msg ≡ rebuilt (rebuilds err) err text msg
unfolding from_name class_name error_class
from_name-rebuilds (unsupported_protocol_version a b) text msg = refl
from_name-rebuilds invalid_cancel_request text msg = refl
from_name-rebuilds invalid_secret_key text msg = refl
from_name-rebuilds (invalid_message_type a) text msg = refl
from_name-rebuilds (message_too_large a b) text msg = refl
from_name-rebuilds (invalid_element_count a b c) text msg = refl
from_name-rebuilds (invalid_target_type a) text msg = refl
from_name-rebuilds (invalid_transaction_status a) text msg = refl
from_name-rebuilds invalid_ssl_request_message text msg = refl
from_name-rebuilds invalid_gss_enc_request_message text msg = refl
from_name-rebuilds invalid_startup_message text msg = refl
from_name-rebuilds (invalid_authentication_message_code a) text msg = refl
from_name-rebuilds failed_to_coerce_password_message text msg = refl
from_name-rebuilds invalid_sasl_state text msg = refl
from_name-rebuilds (unsupported_sasl_auth_method a) text msg = refl
from_name-rebuilds (io_error a) text msg = refl
from_name-rebuilds (portal_not_found a) text msg = refl
from_name-rebuilds portal_not_started text msg = refl
from_name-rebuilds (statement_not_found a) text msg = refl
from_name-rebuilds (parameter_index_out_of_bound a) text msg = refl
from_name-rebuilds (invalid_rust_type_for_parameter a) text msg = refl
from_name-rebuilds (failed_to_parse_parameter a) text msg = refl
from_name-rebuilds (invalid_scram_message a) text msg = refl
from_name-rebuilds (invalid_password a) text msg = refl
from_name-rebuilds unsupported_certificate_signature_algorithm text msg = refl
from_name-rebuilds user_name_required text msg = refl
from_name-rebuilds not_ready_for_query text msg = refl
from_name-rebuilds query_canceled text msg = refl
from_name-rebuilds (invalid_option_value a) text msg = refl
from_name-rebuilds (invalid_oauth_message a) text msg = refl
from_name-rebuilds (oauth_authentication_failed a) text msg = refl
from_name-rebuilds (oauth_validation_error a) text msg = refl
from_name-rebuilds (oauth_authz_id_error a) text msg = refl
from_name-rebuilds (api_error a) text msg = refl
from_name-rebuilds (user_error a) text msg = refl

-- An error that goes to Python and comes back is itself if it is a unit variant; if it carries one
-- text it is the same variant around what pgwire displays of it; and otherwise it is an `ApiError`
-- whose text is the Python class name and the displayed text.
pub py_err_to_pywire-pywire_to_py_err :
    (display : PgWireError → String) (err : PgWireError)
    → let raised = pywire_to_py_err display err in
      py_err_to_pywire raised ≡ rebuilt (rebuilds err) err raised.text (to_string raised)
unfolding pywire_to_py_err
py_err_to_pywire-pywire_to_py_err display err =
    let raised = pywire_to_py_err display err in
    py_err_to_pywire-eq raised ∙ from_name-rebuilds err raised.text (to_string raised)

-- The classes that come back as their own variant.
abbrev pub rebuildable : List String
rebuildable =
    "InvalidCancelRequest" ∷ "InvalidSecretKey" ∷ "InvalidSSLRequestMessage"
    ∷ "InvalidGssEncRequestMessage" ∷ "InvalidStartupMessage" ∷ "FailedToCoercePasswordMessage"
    ∷ "InvalidSASLState" ∷ "UnsupportedCertificateSignatureAlgorithm" ∷ "UserNameRequired"
    ∷ "NotReadyForQuery" ∷ "QueryCanceled" ∷ "PortalNotStarted" ∷ "UnsupportedSASLAuthMethod"
    ∷ "PortalNotFound" ∷ "StatementNotFound" ∷ "InvalidRustTypeForParameter" ∷ "InvalidScramMessage"
    ∷ "InvalidPassword" ∷ "InvalidOptionValue" ∷ "InvalidOauthMessage" ∷ "OAuthAuthenticationFailed"
    ∷ "OAuthValidationError" ∷ "OauthAuthzIdError" ∷ []

abbrev pub named : String → List String → String
named name [] = "ApiError"
named name (x ∷ xs) = if str_eq name x then name else named name xs

tag-if :
    (name lit : String) (err rest : PgWireError) (spec : String)
    → tag err ≡ lit
    → tag rest ≡ spec
    → tag (if str_eq name lit then err else rest) ≡ (if str_eq name lit then name else spec)
tag-if name lit err rest spec e r = elim (Bool-cases (str_eq name lit)) [
  | inl same ↦ rw same (e ∙ sym ((str_eq_iff name lit).0 same))
  | inr differs ↦ rw differs r
]

tag-from_name : (name text msg : String) → tag (from_name name text msg) ≡ named name rebuildable
unfolding tag from_name
tag-from_name name text msg = tag-if name "InvalidCancelRequest" _ _ _ refl (
    tag-if name "InvalidSecretKey" _ _ _ refl (
      tag-if name "InvalidSSLRequestMessage" _ _ _ refl (
        tag-if name "InvalidGssEncRequestMessage" _ _ _ refl (
          tag-if name "InvalidStartupMessage" _ _ _ refl (
            tag-if name "FailedToCoercePasswordMessage" _ _ _ refl (
              tag-if name "InvalidSASLState" _ _ _ refl (
                tag-if name "UnsupportedCertificateSignatureAlgorithm" _ _ _ refl (
                  tag-if name "UserNameRequired" _ _ _ refl (
                    tag-if name "NotReadyForQuery" _ _ _ refl (
                      tag-if name "QueryCanceled" _ _ _ refl (
                        tag-if name "PortalNotStarted" _ _ _ refl (
                          tag-if name "UnsupportedSASLAuthMethod" _ _ _ refl (
                            tag-if name "PortalNotFound" _ _ _ refl (
                              tag-if name "StatementNotFound" _ _ _ refl (
                                tag-if name "InvalidRustTypeForParameter" _ _ _ refl (
                                  tag-if name "InvalidScramMessage" _ _ _ refl (
                                    tag-if name "InvalidPassword" _ _ _ refl (
                                      tag-if name "InvalidOptionValue" _ _ _ refl (
                                        tag-if name "InvalidOauthMessage" _ _ _ refl (
                                          tag-if name "OAuthAuthenticationFailed" _ _ _ refl (
                                            tag-if name "OAuthValidationError" _ _ _ refl (
                                              tag-if name "OauthAuthzIdError" _ _ _ refl
                                                refl))))))))))))))))))))))

-- Any exception that a handler raises, whatever its class, reaches the wire as the variant of its
-- class name if that is one of the 23 that can be rebuilt, and as an `ApiError` otherwise.
pub tag-py_err_to_pywire :
    (err : PyErr) → tag (py_err_to_pywire err) ≡ named (class_name err.class) rebuildable
tag-py_err_to_pywire err =
    rw (py_err_to_pywire-eq err) (tag-from_name (class_name err.class) err.text (to_string err))
