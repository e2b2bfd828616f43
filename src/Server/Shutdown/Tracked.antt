-- ===== src/Server/Shutdown/Tracked.antt =====
-- Once a callback of a task of src/server.rs has ended, the tables hold what Python then has open.
use pywire.Base.{
  ◌≡◌, true, ◌||◌, Option, none, some, List, ◌∷◌, arith, String, Result, ok, err, is_some,
}
use pywire.HashMap.{lookup, lookup-insert, lookup-remove}
use pywire.Error.Classes.{PyErr}
use pywire.Query.Response.{Py}
use pywire.Extended.State.{PythonPortals, Call, Event}
use pywire.Extended.Close.{bound_of}
use pywire.Extended.Invariant.{live_portal, live_statement}
use pywire.Server.Shutdown.{
  Pc, outside, finished, asking, parsing, binding, closing_portal, closing_statement, call_of,
  settle,
}
use pywire.Server.Shutdown.Owed.{closes_portal, closes_statement, refused}

abbrev pub event : Call → Result PyErr Py → Event
event c r = record { call = c; outcome = r }

abbrev pub For : Option Call → (Call → Type 0) → Type 0
For none P = Unit
For (some c) P = P c

-- Whether something is open and tracked: with the callback's end the tables follow Python.
abbrev pub PortalsTracked : PythonPortals → List Event → Type 0
PortalsTracked t es =
    (n : String)
    → live_portal n es ≡ true
    → (is_some (bound_of (lookup n t.portals)) || refused (closes_portal n) es) ≡ true

abbrev pub StatementsTracked : PythonPortals → List Event → Type 0
StatementsTracked t es =
    (n : String)
    → live_statement n es ≡ true
    → (is_some (lookup n t.statements) || refused (closes_statement n) es) ≡ true

module _ (r : Result PyErr Py) (t : PythonPortals) (es : List Event) where
  pub settle-PortalsTracked :
      (p : Pc)
      → PortalsTracked t es
      → For (call_of p) (λ c. PortalsTracked (settle p r t) (event c r ∷ es))
  unfolding live_portal refused
  settle-PortalsTracked outside h = tt
  settle-PortalsTracked finished h = tt
  settle-PortalsTracked (asking q) h = λ n live. ground (arith, h n)
  settle-PortalsTracked (parsing i name query oids) h = λ n live. ground (arith, h n)
  settle-PortalsTracked (binding i name s v ps pf rf) h = bound r
    where
      bound :
          (r : Result PyErr Py)
          → PortalsTracked
              (settle (binding i name s v ps pf rf) r t)
              (event (Call.bind_portal i name v ps pf rf) r ∷ es)
      bound (err e) n live = ground (arith, h n)
      bound (ok o) n live = ground (
        arith,
        h n,
        lookup-insert name n
            (record { statement_name = s; bound = some (record { instance_ref = i; portal = o }) })
            t.portals,
      )
  settle-PortalsTracked (closing_portal i name) h =
      λ n live. ground (arith, h n, lookup-remove name n t.portals)
  settle-PortalsTracked (closing_statement i name) h = λ n live. ground (arith, h n)

  pub settle-StatementsTracked :
      (p : Pc)
      → StatementsTracked t es
      → For (call_of p) (λ c. StatementsTracked (settle p r t) (event c r ∷ es))
  unfolding live_statement refused
  settle-StatementsTracked outside h = tt
  settle-StatementsTracked finished h = tt
  settle-StatementsTracked (asking q) h = λ n live. ground (arith, h n)
  settle-StatementsTracked (parsing i name query oids) h =
      λ n live. ground (arith, h n, lookup-insert name n i t.statements)
  settle-StatementsTracked (binding i name s v ps pf rf) h = λ n live. ground (arith, h n)
  settle-StatementsTracked (closing_portal i name) h = λ n live. ground (arith, h n)
  settle-StatementsTracked (closing_statement i name) h =
      λ n live. ground (arith, h n, lookup-remove name n t.statements)
