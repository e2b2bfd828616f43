-- ===== src/Extended/Requests.antt =====
-- The requests that pgwire hands to the handlers of src/extended.rs.
use pywire.Base.{Option, ℕ}
use pywire.Query.Response.{Py}
use pywire.Extended.State.{StoredStatement, Portal, Parse, Bind, Close, PortalStore, World}
use pywire.Extended.Action.{Action, pure, ◌>>=◌}
use pywire.Extended.Bind.{on_bind}
use pywire.Extended.Handlers.{
  on_parse, on_sync, on_close, do_describe_statement, do_describe_portal, do_query,
}

-- What pgwire calls a handler for.
pub data Request : Type 0 where
  parse : Parse → Request
  bind : Bind → Request
  sync : Request
  close : Close → Request
  describe_statement : StoredStatement → Request
  describe_portal : Portal → Request
  execute : Portal → ℕ → Request

module _ {Store : Type 0} (store : PortalStore Store) (w : World) (handler : Option Py) where
  abbrev pub discard : {A : Type 0} → Action Store A → Action Store Unit
  discard m = m >>= λ _. pure tt

  unfoldable pub handle : Request → Action Store Unit
  unfolding on_parse on_bind on_sync on_close do_describe_statement do_describe_portal do_query
  handle (parse m) = on_parse store w handler m
  handle (bind m) = on_bind store w handler m
  handle sync = on_sync store w handler
  handle (close m) = on_close store w handler m
  handle (describe_statement target) = discard (do_describe_statement store w handler target)
  handle (describe_portal target) = discard (do_describe_portal store w handler target)
  handle (execute portal max_rows) = discard (do_query store w handler portal max_rows)
