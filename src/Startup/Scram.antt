-- ===== src/Startup/Scram.antt =====
-- `ScramVerifierStartupHandler` of src/scram_verifier.rs, and `initialize_python_session` of
-- src/server.rs.
pub mod Authenticated
pub mod OneAttempt
pub mod ReadyLast
use pywire.Base.{
  ℕ, Bool, true, false, Option, none, some, List, [], ◌∷◌, ◌++◌, String, Text, codes, if◌then◌else◌,
  Result, ok, err, ok_or,
}
use pywire.Error.PgWire.{PgWireError, PgWireResult, invalid_scram_message, invalid_sasl_state}
use pywire.Query.Response.{Py}
use pywire.Scram.Crypto.{Bytes, Crypto}
use pywire.Scram.Verifier.{Verifier}
use pywire.Scram.ClientFirst
use pywire.Scram.ClientFirst.{ClientFirst}
use pywire.Scram.Negotiate.{negotiate, sha_256, sha_256_plus}
use pywire.Scram.Utf8.{encode_utf8}
use pywire.Scram.Exchange
use pywire.Scram.Exchange.{Exchange, utf8, verify, mock_verifier}
use pywire.Auth.{LoginInfo, PyLoginInfo, from_pg}
use pywire.Step.{Step, pure, fail, gets, modify, ◌>>=◌, ◌>>◌, lift, lift_py}
use pywire.Startup.Connection.{
  State, initial, server_first_sent, sasl_done, sasl, sasl_continue, sasl_final, PasswordMessage,
  Frontend, startup, password, other, Connection, World, send,
}

-- `ScramVerifierConfig`, without the source, which the world answers for.
pub record ScramVerifierConfig : Type 0 where
  pub certificate : Option Bytes
  pub mock_secret : Bytes
  pub mock_iterations : ℕ

abbrev pub text_or_empty : Option String → Text
text_or_empty none = []
text_or_empty (some user) = codes user

abbrev pub name_or_empty : Option String → String
name_or_empty none = ""
name_or_empty (some user) = user

-- `initialize_python_session`.
unfoldable pub initialize_python_session : World → Step Connection Unit
unfolding from_pg
initialize_python_session w = do
  login ← gets (λ c. from_pg c.login)
  instance_ref ← lift_py (w.open_session login)
  modify (λ c. record c { resources_session = some instance_ref; session_ref = some instance_ref })

module _ (w : World) (config : ScramVerifierConfig) (has_factory : Bool) where
  -- `certificate`.
  unfoldable pub certificate : Connection → Option Bytes
  certificate c = if c.secure then config.certificate else none

  -- `take_state`.
  unfoldable pub take_state : Step Connection State
  take_state = do
    state ← gets (λ c. c.state)
    modify (λ c. record c { state = sasl_done })
    pure state

  -- The verifier to check against, and whether it is the mock.
  unfoldable pub verifier_or_mock : Text → Option Verifier → Verifier × Bool
  unfolding mock_verifier encode_utf8
  verifier_or_mock user (some verifier) = (verifier, false)
  verifier_or_mock user none =
      (mock_verifier w.crypto config.mock_secret (encode_utf8 user) config.mock_iterations, true)

  -- `lookup`, and the end of `start` behind it.
  unfoldable pub begin : ClientFirst → Bytes → Step Connection Exchange
  unfolding from_pg verifier_or_mock Exchange.new
  begin first cbind_data = do
    login ← gets (λ c. from_pg c.login)
    found ← lift_py (w.get_scram_verifier login)
    let (verifier, mock) = verifier_or_mock (text_or_empty login.user) found
    pure (
        Exchange.new w.crypto first cbind_data (w.crypto.encode w.random) (name_or_empty login.user)
          verifier mock)

  -- `start`, behind the parsing of the message.
  unfoldable pub answer_first : String → ClientFirst → Step Connection Exchange
  unfolding negotiate certificate begin
  answer_first mechanism first c =
      (do
        cbind_data ← lift (negotiate mechanism first.cbind_flag (certificate c))
        begin first cbind_data)
        c

  -- `start`.
  unfoldable pub start : String → Option Bytes → Step Connection Exchange
  unfolding utf8 ClientFirst.parse answer_first
  start mechanism payload = do
    bytes ← lift (ok_or payload (invalid_scram_message "empty SCRAM client-first-message"))
    text ← lift (utf8 bytes)
    first ← lift (ClientFirst.parse text)
    answer_first mechanism first

  -- `if let Some(factory) = &self.session_factory`
  unfoldable pub open_if_configured : Step Connection Unit
  unfolding initialize_python_session
  open_if_configured = if has_factory then initialize_python_session w else pure tt

  -- `generate`, `set_pid_and_secret_key`, `register_connection` and `finish_authentication`.
  unfoldable pub finish : Step Connection Unit
  finish = do
    modify (λ c. record c { registered = true })
    sent ← gets (λ c. c.sent)
    lift (w.finish_authentication sent)
    modify (λ c. record c { ready = true })

  -- The end of a successful exchange.
  unfoldable pub let_in : Text → Step Connection Unit
  unfolding send finish
  let_in server_final = do send w (sasl_final server_final); finish

  -- The arms of `on_startup` for a message of the password family.
  unfoldable pub on_password : PasswordMessage → State → Step Connection Unit
  unfolding start verify open_if_configured let_in send
  on_password message initial = do
    request ← lift message.into_sasl_initial_response
    exchange ← start request.0 request.1
    modify (λ c. record c { state = server_first_sent exchange })
    send w (sasl_continue exchange.server_first)
  on_password message (server_first_sent exchange) = do
    response ← lift message.into_sasl_response
    server_final ← lift (verify w.crypto exchange response)
    open_if_configured
    let_in server_final
  on_password message sasl_done = fail invalid_sasl_state

  unfoldable pub mechanisms : Option Bytes → List String
  mechanisms none = sha_256 ∷ []
  mechanisms (some signature) = sha_256 ∷ sha_256_plus ∷ []

  -- `on_startup`.
  unfoldable pub on_startup : Frontend → Step Connection Unit
  unfolding on_password take_state mechanisms certificate send
  on_startup (startup login) = do
    lift (w.protocol_negotiation login)
    modify (λ c. record c { login = login; ready = false })
    names ← gets (λ c. mechanisms (certificate c))
    send w (sasl names)
  on_startup (password message) = do state ← take_state; on_password message state
  on_startup other = pure tt
