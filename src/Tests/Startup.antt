-- ===== src/Tests/Startup.antt =====
-- Witnesses for the theorems on the startup handlers: a SCRAM exchange from the first message on.
use pywire.Base.{
  ℕ, ◌≡◌, refl, Bool, true, false, Option, none, some, List, [], ◌∷◌, String, codes, Result, ok,
  err,
}
use pywire.Error.PgWire.{invalid_sasl_state}
use pywire.Scram.Negotiate.{sha_256}
use pywire.Scram.Decimal.{format_u32}
use pywire.Scram.Exchange.Honest.{client_final}
use pywire.Auth.{LoginInfo}
use pywire.Step.{Post, failed}
use pywire.Startup.Connection.{
  initial, server_first_sent, PasswordMessage, Frontend, startup, password, other, Connection,
  World,
}
use pywire.Startup.Scram.{ScramVerifierConfig, on_startup}
use pywire.Startup.Scram.Authenticated.{is_let_in, Authenticated}
use pywire.Startup.Scram.Authenticated.Messages.{
  Reached, connected, received, Reached-Authenticated,
}
use pywire.Startup.Scram.ReadyLast.{StillWaits, SameResources, on_startup-StillWaits}
use pywire.Startup.Scram.OneAttempt.{served, served-refuses}
use pywire.Tests.Crypto.{crypto, key}
use pywire.Tests.Scram.{verifier, exchange, first_message}

abbrev pub login : LoginInfo
login = record { user = some "user"; database = none; host = "127.0.0.1" }

abbrev pub world : World
world = record {
  crypto = crypto;
  random = 7 ∷ 8 ∷ [];
  get_scram_verifier = λ l. ok (some verifier);
  open_session = λ l. ok 5;
  protocol_negotiation = λ l. ok tt;
  send = λ sent m. ok tt;
  finish_authentication = λ sent. ok tt;
}

abbrev pub config : ScramVerifierConfig
config = record { certificate = none; mock_secret = 1 ∷ []; mock_iterations = 4096 }

abbrev pub connection : Connection
connection = record {
  secure = false;
  ready = false;
  login = login;
  session_ref = none;
  installed = false;
  resources_session = none;
  state = initial;
  registered = false;
  sent = [];
}

abbrev pub first : PasswordMessage
first = record {
  into_sasl_initial_response = ok (sha_256, some first_message);
  into_sasl_response = err invalid_sasl_state;
}

abbrev pub final : PasswordMessage
final = record {
  into_sasl_initial_response = err invalid_sasl_state;
  into_sasl_response = ok (client_final crypto exchange key);
}

abbrev step : Frontend → Connection → Connection
step m c = (on_startup world config true m c).1

abbrev waiting : Connection
waiting = step (password first) (step (startup login) connection)

abbrev let_in : Connection
let_in = step (password final) waiting

waits : waiting.state ≡ server_first_sent exchange
unfolding on_startup pywire.Base.text_eq
waits = refl

let_in-is_let_in : is_let_in let_in ≡ true
unfolding on_startup pywire.Base.text_eq format_u32
let_in-is_let_in = refl

let_in-Reached :
    Reached world config true connection
      (password final ∷ password first ∷ startup login ∷ [])
      let_in
let_in-Reached = received _ waiting (password final) (
    received _ (step (startup login) connection) (password first)
      (received [] connection (startup login) connected))

Reached-Authenticated_example :
    Authenticated world config true connection
      (password final ∷ password first ∷ startup login ∷ [])
      let_in
Reached-Authenticated_example =
    Reached-Authenticated world config true connection
      (password final ∷ password first ∷ startup login ∷ []) let_in refl refl let_in-Reached
      let_in-is_let_in

served-refuses_example :
    on_startup world config true
      (password final)
      (served world config true (password first ∷ other ∷ []) waiting)
    ≡ (failed invalid_sasl_state, served world config true (password first ∷ other ∷ []) waiting)
served-refuses_example =
    served-refuses world config true first exchange waiting (other ∷ []) final waits

on_startup-StillWaits_example :
    Post
      (StillWaits waiting)
      (SameResources waiting)
      (on_startup world config true (password final) waiting)
on_startup-StillWaits_example = on_startup-StillWaits world config true (password final) waiting
