-- ===== src/Extended/Action.antt =====
-- Handlers of src/extended.rs as actions that change the connection.
pub use pywire.Step.{
  Ending, done, failed, panicked, Step, pure, fail, gets, modify, continue, ◌>>=◌, ◌>>◌, lift,
  lift_py, expect,
}
use pywire.Base.{◌∷◌, String}
use pywire.Error.PgWire.{PgWireError, user_error}
use pywire.Error.Info
use pywire.Query.Response.{Py}
use pywire.Extended.State.{Client, Call, Message, World}

abbrev pub Action : Type 0 → Type 0 → Type 0
Action Store A = Step (Client Store) A

module _ {Store : Type 0} where
  -- A call into Python and the wait for its coroutine.
  unfoldable pub call_method : World → Call → Action Store Py
  call_method w call c =
      let outcome = w.answer c.calls call in
      lift_py outcome (record c { calls = record { call = call; outcome = outcome } ∷ c.calls })

  -- `client.send(message).await?`
  unfoldable pub send : World → Message → Action Store Unit
  send w message c = lift (w.send c.sent message) (record c { sent = message ∷ c.sent })

  -- `client.flush().await?`
  unfoldable pub flush : World → Action Store Unit
  flush w c = lift (w.flush c.sent) c

-- `PgWireError::UserError(Box::new(ErrorInfo::new("ERROR", code, text)))`
abbrev pub user_err : String → String → PgWireError
user_err code text = user_error (Info.new "ERROR" code text)
