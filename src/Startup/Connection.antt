-- ===== src/Startup/Connection.antt =====
-- The connection as the startup handlers see it, and what surrounds it.
use pywire.Base.{Bool, Option, List, ◌∷◌, String, Text, Result}
use pywire.Error.Classes.{PyErr}
use pywire.Error.PgWire.{PgWireResult}
use pywire.Query.Response.{Py}
use pywire.Scram.Crypto.{Bytes, Crypto}
use pywire.Scram.Verifier.{Verifier}
use pywire.Scram.Exchange.{Exchange}
use pywire.Auth.{LoginInfo, PyLoginInfo}
use pywire.Step.{Step, lift}

-- `State` of src/scram_verifier.rs; `sasl_done` is its `Done`.
pub data State : Type 0 where
  initial : State
  server_first_sent : Exchange → State
  sasl_done : State

-- The authentication messages that are sent.
pub data Sent : Type 0 where
  sasl : List String → Sent
  sasl_continue sasl_final : Text → Sent

-- A message of the password family, by what pgwire reads it as: the mechanism and the data of a
-- `SASLInitialResponse`, and the data of a `SASLResponse`.
pub record PasswordMessage : Type 0 where
  pub into_sasl_initial_response : PgWireResult (String × Option Bytes)
  pub into_sasl_response : PgWireResult Bytes

-- A message from the client; a startup message by the login that pgwire saves from it.
pub data Frontend : Type 0 where
  startup : LoginInfo → Frontend
  password : PasswordMessage → Frontend
  other : Frontend

-- `ready` says whether `client.state()` is `ReadyForQuery`; `session_ref` is the `PySession`
-- extension, `installed` says whether the extension `Arc<PythonPortals>` is there, and
-- `resources_session` is the session of that object. The newest message comes first.
pub record Connection : Type 0 where
  pub secure : Bool
  pub ready : Bool
  pub login : LoginInfo
  pub session_ref : Option Py
  pub installed : Bool
  pub resources_session : Option Py
  pub state : State
  pub registered : Bool
  pub sent : List Sent

-- The crates, the Python objects and pgwire: `random` is what `rand` gave for the nonce, `open` the
-- session factory, `finish_authentication` makes the connection ready if it succeeds.
pub record World : Type 0 where
  pub crypto : Crypto
  pub random : Bytes
  pub get_scram_verifier : PyLoginInfo → Result PyErr (Option Verifier)
  pub open_session : PyLoginInfo → Result PyErr Py
  pub protocol_negotiation : LoginInfo → PgWireResult (Unit {0})
  pub send : List Sent → Sent → PgWireResult (Unit {0})
  pub finish_authentication : List Sent → PgWireResult (Unit {0})

-- `client.send(…).await?`
unfoldable pub send : World → Sent → Step Connection Unit
send w m c = lift (w.send c.sent m) (record c { sent = m ∷ c.sent })
