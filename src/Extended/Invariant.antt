-- ===== src/Extended/Invariant.antt =====
-- The invariant of the tables that src/extended.rs keeps beside pgwire's portal store, and of the log
-- of calls into Python.
pub mod Drop
pub mod CloseAll
pub mod Forget
pub mod Parse
pub mod Bind
pub mod Sync
pub mod Close
pub mod Query
pub use pywire.Step.{Post, bind_post, weaken_post}
use pywire.Base.{
  ◌≡◌, Bool, true, false, Option, none, some, List, [], ◌∷◌, String, str_eq, if◌then◌else◌, Result,
  ok, err,
}
use pywire.HashMap.{lookup, Distinct}
use pywire.Error.Classes.{PyErr}
use pywire.Error.PgWire.{PgWireError}
use pywire.Query.Response.{Py}
use pywire.Extended.State.{
  BoundPortal, PortalEntry, Call, Event, StoredStatement, Portal, Entry, value, empty, Client,
  PortalStore, World,
}
use pywire.Extended.Action.{Ending, done, failed, panicked, Action, continue, ◌>>=◌}
use pywire.Extended.Close.{bound_of, is_value, instance_for}
use pywire.Extended.Bind.{is_some}

-- Whether there is an entry, and if so, whether a Python object stands behind it.
abbrev pub entry_kind : Option PortalEntry → Option Bool
entry_kind none = none
entry_kind (some e) = some (is_some e.bound)

abbrev pub stored_kind : {A : Type 0} → Option (Entry A) → Option Bool
stored_kind none = none
stored_kind (some (value a)) = some true
stored_kind (some empty) = some false

-- What one call does to the question whether Python holds an open portal of a name: a bind that
-- succeeded opens it, a close that succeeded closes it.
abbrev pub portal_event : String → Call → Result PyErr Py → Bool → Bool
portal_event n (Call.bind_portal _ j _ _ _ _) (ok _) live = if str_eq j n then true else live
portal_event n (Call.close_portal _ j) (ok _) live = if str_eq j n then false else live
portal_event n _ _ live = live

abbrev pub statement_event : String → Call → Result PyErr Py → Bool → Bool
statement_event n (Call.parse_statement _ j _ _) (ok _) live = if str_eq j n then true else live
statement_event n (Call.close_statement _ j) (ok _) live = if str_eq j n then false else live
statement_event n _ _ live = live

-- The same over a log, the newest event first.
unfoldable pub live_portal : String → List Event → Bool
live_portal n [] = false
live_portal n (e ∷ es) = portal_event n e.call e.outcome (live_portal n es)

unfoldable pub live_statement : String → List Event → Bool
live_statement n [] = false
live_statement n (e ∷ es) = statement_event n e.call e.outcome (live_statement n es)

module _ {Store : Type 0} (store : PortalStore Store) (w : World) (handler : Option Py) where
  pub record Inv (c : Client Store) : Type 0 where
    -- startup has installed the tables
    pub installed : c.installed ≡ true
    -- the table of portals and pgwire's store have the same names, with and without a query
    pub portals_agree :
        (n : String)
        → entry_kind (lookup n c.resources.portals) ≡ stored_kind (store.get_portal c.store n)
    -- the table of statements has the names of pgwire's statements with a query
    pub statements_agree :
        (n : String)
        → is_some (lookup n c.resources.statements) ≡ is_value (store.get_statement c.store n)
    -- no portal outlives its statement
    pub no_orphan :
        (n : String) (e : PortalEntry)
        → lookup n c.resources.portals ≡ some e
        → stored_kind (store.get_statement c.store e.statement_name) ≡ some (is_some e.bound)
    -- the tables hold exactly what Python was asked to open and not yet to close
    pub portals_live :
        (n : String) → is_some (bound_of (lookup n c.resources.portals)) ≡ live_portal n c.calls
    pub statements_live :
        (n : String) → is_some (lookup n c.resources.statements) ≡ live_statement n c.calls
    -- without a Python object there are no statements
    pub served :
        (n : String)
        → instance_for store w handler c ≡ none
        → lookup n c.resources.statements ≡ none
    -- no portal stands twice in the table
    pub distinct : Distinct c.resources.portals
