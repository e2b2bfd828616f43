-- ===== src/Extended/State.antt =====
-- The state of a connection that src/extended.rs and src/server.rs work on: the tables of
-- `PythonPortals`, the parts of pgwire's client that the handlers read and write, and the log of the
-- calls into Python.
use pywire.Base.{ℕ, ◌≡◌, Bool, Option, none, some, List, String, str_eq, if◌then◌else◌, Result, ok}
use pywire.HashMap.{HashMap}
use pywire.Error.Classes.{PyErr}
use pywire.Error.PgWire.{PgWireResult}
use pywire.Query.Field.{Format, PyFieldInfo, PgType, Types}
use pywire.Query.Response.{Py, PyResponse}
use pywire.Query.Row.{Cell}

-- `BoundPortal` and `PortalEntry`.
pub record BoundPortal : Type 0 where
  pub instance_ref : Py
  pub portal : Py

pub record PortalEntry : Type 0 where
  pub statement_name : String
  pub bound : Option BoundPortal

-- `PythonPortals`, without its locks and the event loop.
pub record PythonPortals : Type 0 where
  pub portals : HashMap PortalEntry
  pub statements : HashMap Py
  pub session : Option Py

-- A call into Python: the object, and the method with its arguments.
pub data Call : Type 0 where
  parse_statement : Py → String → String → List ℕ → Call
  close_statement close_portal : Py → String → Call
  bind_portal : Py → String → Py → List Cell → List ℕ → List ℕ → Call
  describe_statement describe_portal : Py → Py → Call
  do_query : Py → Py → ℕ → Call
  do_query_text : Py → String → Call
  close_session : Py → Call
  open_session : Py → Call

-- A call and how it ended: with a value, or an exception of the method or of its coroutine.
pub record Event : Type 0 where
  pub call : Call
  pub outcome : Result PyErr Py

-- `StoredStatement`, `Portal`, `Entry`, `TransactionStatus` and the backend messages of pgwire.
pub record StoredStatement : Type 0 where
  pub id : String
  pub statement : Py
  pub parameter_types : List (Option PgType)

pub record Portal : Type 0 where
  pub name : String
  pub statement : StoredStatement
  pub parameter_format : Format
  pub parameters : List Cell
  pub result_column_format : Format

pub data Entry (A : Type 0) : Type 0 where
  value : A → Entry A
  empty : Entry A

pub data TransactionStatus : Type 0 where
  idle transaction error : TransactionStatus

pub data Message : Type 0 where
  parse_complete bind_complete close_complete : Message
  ready_for_query : TransactionStatus → Message

-- The frontend messages; the target of `Close` is its byte.
pub record Parse : Type 0 where
  pub name : Option String
  pub query : String
  pub type_oids : List ℕ

pub record Bind : Type 0 where
  pub portal_name : Option String
  pub statement_name : Option String
  pub parameter_format_codes : List ℕ
  pub parameters : List Cell
  pub result_column_format_codes : List ℕ

pub record Close : Type 0 where
  pub target_type : ℕ
  pub name : Option String

-- The connection, over the type of pgwire's portal store. `session_ref` is the `PySession` extension,
-- `installed` says whether the extension `Arc<PythonPortals>` is there; its object is `resources`
-- in any case; `ready` says whether `client.state()` is `ReadyForQuery`. The newest event and the
-- newest message come first.
pub record Client (Store : Type 0) : Type 0 where
  pub store : Store
  pub ready : Bool
  pub status : TransactionStatus
  pub session_ref : Option Py
  pub installed : Bool
  pub resources : PythonPortals
  pub sent : List Message
  pub calls : List Event

-- pgwire's `PortalStore`.
pub record PortalStore (Store : Type 0) : Type 0 where
  pub get_statement : Store → String → Option (Entry StoredStatement)
  pub put_statement : Store → StoredStatement → Store
  pub put_empty_statement : Store → String → Store
  pub rm_statement : Store → String → Store
  pub get_portal : Store → String → Option (Entry Portal)
  pub put_portal : Store → Portal → Store
  pub put_empty_portal : Store → String → Store
  pub rm_portal : Store → String → Store

-- It is a map from names for the statements, and one for the portals.
pub record IsStore {Store : Type 0} (s : PortalStore Store) : Type 0 where
  pub get-put_statement :
      (m : Store) (x : StoredStatement) (j : String)
      → s.get_statement (s.put_statement m x) j
        ≡ (if str_eq x.id j then some (value x) else s.get_statement m j)
  pub get-put_empty_statement :
      (m : Store) (k j : String)
      → s.get_statement (s.put_empty_statement m k) j
        ≡ (if str_eq k j then some empty else s.get_statement m j)
  pub get-rm_statement :
      (m : Store) (k j : String)
      → s.get_statement (s.rm_statement m k) j ≡ (if str_eq k j then none else s.get_statement m j)
  pub get-put_portal :
      (m : Store) (p : Portal) (j : String)
      → s.get_portal (s.put_portal m p) j
        ≡ (if str_eq p.name j then some (value p) else s.get_portal m j)
  pub get-put_empty_portal :
      (m : Store) (k j : String)
      → s.get_portal (s.put_empty_portal m k) j
        ≡ (if str_eq k j then some empty else s.get_portal m j)
  pub get-rm_portal :
      (m : Store) (k j : String)
      → s.get_portal (s.rm_portal m k) j ≡ (if str_eq k j then none else s.get_portal m j)
  -- neither map touches the other
  pub statement-put_portal :
      (m : Store) (p : Portal) (j : String)
      → s.get_statement (s.put_portal m p) j ≡ s.get_statement m j
  pub statement-put_empty_portal :
      (m : Store) (k j : String) → s.get_statement (s.put_empty_portal m k) j ≡ s.get_statement m j
  pub statement-rm_portal :
      (m : Store) (k j : String) → s.get_statement (s.rm_portal m k) j ≡ s.get_statement m j
  pub portal-put_statement :
      (m : Store) (x : StoredStatement) (j : String)
      → s.get_portal (s.put_statement m x) j ≡ s.get_portal m j
  pub portal-put_empty_statement :
      (m : Store) (k j : String) → s.get_portal (s.put_empty_statement m k) j ≡ s.get_portal m j
  pub portal-rm_statement :
      (m : Store) (k j : String) → s.get_portal (s.rm_statement m k) j ≡ s.get_portal m j

-- What surrounds the handlers: the Python objects, which may answer each call in any way that depends
-- on all calls before it; how a value that Python returns is read; the sink, which may fail; pgwire's
-- construction of a portal and its default name; and the texts of errors.
pub record World : Type 0 where
  pub answer : List Event → Call → Result PyErr Py
  pub get_parameter_types : Py → Result PyErr (List ℕ)
  pub get_fields : Py → Result PyErr (List PyFieldInfo)
  pub get_response : Py → Result PyErr PyResponse
  pub get_responses : Py → Result PyErr (List PyResponse)
  pub has_close : Py → Bool
  pub send : List Message → Message → PgWireResult (Unit {0})
  pub flush : List Message → PgWireResult (Unit {0})
  pub try_new : Bind → StoredStatement → PgWireResult Portal
  pub default_name : String
  pub types : Types
  -- `{:?}` of a text and `{}` of a number
  pub quoted : String → String
  pub decimal : ℕ → String

-- `name.unwrap_or(DEFAULT_NAME)`
abbrev pub name_or : String → Option String → String
name_or default none = default
name_or default (some name) = name

-- A portal that pgwire makes of a `Bind` is for its portal name and for the statement.
abbrev pub MakesPortals : World → Type 0
MakesPortals w =
    (b : Bind) (s : StoredStatement) (p : Portal)
    → w.try_new b s ≡ ok p
    → (p.name ≡ name_or w.default_name b.portal_name) × (p.statement ≡ s)
