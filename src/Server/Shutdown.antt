-- ===== src/Server/Shutdown.antt =====
-- The task of one connection that `serve` of src/server.rs spawns, with the lock `closing` of
-- src/extended.rs: `select!` between `process_socket` and the stop signal, and then `cleanup`. The
-- callbacks that the task awaits come and go one at a time.
pub mod System
pub mod Owed
pub mod Tracked
pub mod Keeps
pub mod Closed
pub mod Failed
pub mod Drain
pub mod Calls
use pywire.Base.{
  ◌≡◌, Bool, true, false, ◌&&◌, not, Option, none, some, List, [], ◌∷◌, ◌++◌, ℕ, String,
  if◌then◌else◌, Result, ok, err,
}
use pywire.HashMap.{HashMap, lookup, insert, remove}
use pywire.Error.Classes.{PyErr}
use pywire.Query.Response.{Py}
use pywire.Query.Row.{Cell}
use pywire.Extended.State.{BoundPortal, PortalEntry, PythonPortals, Call, Event}
use pywire.Extended.Close.{bound_of}

-- The callbacks that open and close nothing but the session.
pub data Question : Type 0 where
  describe_statement describe_portal : Py → Py → Question
  do_query : Py → Py → ℕ → Question
  do_query_text : Py → String → Question
  open_session : Py → Question

abbrev pub question_call : Question → Call
question_call (describe_statement i s) = Call.describe_statement i s
question_call (describe_portal i p) = Call.describe_portal i p
question_call (do_query i p n) = Call.do_query i p n
question_call (do_query_text i q) = Call.do_query_text i q
question_call (open_session f) = Call.open_session f

-- Where `process_socket` is: `outside` of every callback, in one, or at its end.
pub data Pc : Type 0 where
  outside finished : Pc
  asking : Question → Pc
  parsing : (i : Py) (name query : String) (type_oids : List ℕ) → Pc
  binding :
      (i : Py) (name statement_name : String) (statement : Py) (parameters : List Cell)
      (parameter_formats result_formats : List ℕ)
      → Pc
  closing_portal closing_statement : (i : Py) (name : String) → Pc

-- The callback that is awaited.
abbrev pub call_of : Pc → Option Call
call_of outside = none
call_of finished = none
call_of (asking q) = some (question_call q)
call_of (parsing i name query oids) = some (Call.parse_statement i name query oids)
call_of (binding i name _ statement parameters pf rf) =
    some (Call.bind_portal i name statement parameters pf rf)
call_of (closing_portal i name) = some (Call.close_portal i name)
call_of (closing_statement i name) = some (Call.close_statement i name)

-- What is done with the tables when the callback has ended: an error leaves them as they are.
abbrev pub settle : Pc → Result PyErr Py → PythonPortals → PythonPortals
settle p (err e) t = t
settle (parsing i name _ _) (ok v) t = record t { statements = insert name i t.statements }
settle (binding i name statement_name _ _ _ _) (ok v) t = record t {
  portals =
      insert name
        (record {
          statement_name = statement_name;
          bound = some (record { instance_ref = i; portal = v });
        })
        t.portals;
}
settle (closing_portal _ name) (ok v) t = record t { portals = remove name t.portals }
settle (closing_statement _ name) (ok v) t = record t { statements = remove name t.statements }
settle (asking (open_session _)) (ok v) t = record t { session = some v }
settle _ (ok v) t = t

-- In `select!`; in `cleanup`, awaiting the first of the calls; or at the end.
pub data Phase : Type 0 where
  serving : Pc → Phase
  cleaning : List Call → Phase
  over : Phase

-- `closing` says that the lock is held. `ended` are the callbacks that the extension saw end,
-- `abandoned` those that it awaited when `process_socket` was dropped, the newest first.
pub record Task : Type 0 where
  pub tables : PythonPortals
  pub closing : Bool
  pub phase : Phase
  pub ended : List Event
  pub abandoned : List Call

-- `PythonPortals::new`.
abbrev pub no_tables : PythonPortals
no_tables = record { portals = []; statements = []; session = none }

abbrev pub spawned : Task
spawned = record {
  tables = no_tables;
  closing = false;
  phase = serving outside;
  ended = [];
  abandoned = [];
}

-- The calls of `cleanup_entries`, in order; `has_close` says which session objects have a `close`.
unfoldable pub portal_calls : HashMap PortalEntry → List Call
portal_calls [] = []
portal_calls ((name, entry) ∷ m) =
    let rest = portal_calls m in
    elim entry.bound [ none ↦ rest | some b ↦ Call.close_portal b.instance_ref name ∷ rest ]

unfoldable pub statement_calls : HashMap Py → List Call
statement_calls [] = []
statement_calls ((name, i) ∷ m) = Call.close_statement i name ∷ statement_calls m

unfoldable pub session_calls : (Py → Bool) → Option Py → List Call
session_calls has_close none = []
session_calls has_close (some i) = if has_close i then Call.close_session i ∷ [] else []

unfoldable pub cleanup_calls : (Py → Bool) → PythonPortals → List Call
unfolding portal_calls statement_calls session_calls
cleanup_calls has_close t =
    portal_calls t.portals ++ (statement_calls t.statements ++ session_calls has_close t.session)

-- `cleanup`, behind the `select!`: the tables are taken. With the `process_socket` at `p` dropped.
unfoldable pub clean_up : (Py → Bool) → Task → Option Call → Task
unfolding cleanup_calls
clean_up has_close t dropped = record t {
  tables = no_tables;
  closing = false;
  phase = cleaning (cleanup_calls has_close t.tables);
  abandoned = elim dropped [ none ↦ t.abandoned | some c ↦ c ∷ t.abandoned ];
}

abbrev pub instance_of : Option BoundPortal → Option Py
instance_of none = none
instance_of (some b) = some b.instance_ref

-- The guard of `closing` is dropped with the function that took it.
abbrev pub releases : Pc → Bool
releases (closing_portal _ _) = true
releases (closing_statement _ _) = true
releases _ = false

-- One step of a task. `stop` is the value that the stop signal has.
pub data Move (has_close : Py → Bool) (stop : Bool) (t : Task) : Task → Type 0 where
  -- Callbacks that are made without the lock.
  ask :
      (q : Question)
      → t.phase ≡ serving outside
      → Move has_close stop t (record t { phase = serving (asking q) })
  parse :
      (i : Py) (name query : String) (type_oids : List ℕ)
      → t.phase ≡ serving outside
      → Move has_close stop t (record t { phase = serving (parsing i name query type_oids) })
  bind :
      (i : Py) (name statement_name : String) (statement : Py) (parameters : List Cell)
      (pf rf : List ℕ)
      → t.phase ≡ serving outside
      → Move has_close stop t
          (record t { phase = serving (binding i name statement_name statement parameters pf rf) })
  -- `close_portal` takes the lock and calls the object of the entry, if there is one to call.
  close_portal :
      (i : Py) (name : String)
      → t.phase ≡ serving outside
      → t.closing ≡ false
      → instance_of (bound_of (lookup name t.tables.portals)) ≡ some i
      → Move has_close stop t (record t { phase = serving (closing_portal i name); closing = true })
  forget_portal :
      (name : String)
      → t.phase ≡ serving outside
      → t.closing ≡ false
      → instance_of (bound_of (lookup name t.tables.portals)) ≡ none
      → Move has_close stop t
          (record t { tables = record t.tables { portals = remove name t.tables.portals } })
  -- `close_statement` takes the lock and calls the object for a statement with a query.
  close_statement :
      (i : Py) (name : String)
      → t.phase ≡ serving outside
      → t.closing ≡ false
      → Move has_close stop t
          (record t { phase = serving (closing_statement i name); closing = true })
  -- The awaited callback ends.
  answered :
      (p : Pc) (c : Call) (r : Result PyErr Py)
      → t.phase ≡ serving p
      → call_of p ≡ some c
      → Move has_close stop t (record t {
        tables = settle p r t.tables;
        closing = if releases p then false else t.closing;
        phase = serving outside;
        ended = record { call = c; outcome = r } ∷ t.ended;
      })
  -- `process_socket` returns, and with it `select!`.
  finish : t.phase ≡ serving outside → Move has_close stop t (record t { phase = serving finished })
  disconnected : t.phase ≡ serving finished → Move has_close stop t (clean_up has_close t none)
  -- The stop signal has come and the lock is free: `select!` drops `process_socket`.
  halt :
      (p : Pc)
      → t.phase ≡ serving p
      → stop ≡ true
      → t.closing ≡ false
      → Move has_close stop t (clean_up has_close t (call_of p))
  -- A callback of `cleanup_entries` ends; its result is ignored.
  cleaned :
      (c : Call) (cs : List Call) (r : Result PyErr Py)
      → t.phase ≡ cleaning (c ∷ cs)
      → Move has_close stop t
          (record t { phase = cleaning cs; ended = record { call = c; outcome = r } ∷ t.ended })
  end : t.phase ≡ cleaning [] → Move has_close stop t (record t { phase = over })
