-- ===== src/Server/Shutdown/Owed.antt =====
-- What a task of src/server.rs still has to close: for its tables, and for the calls of its cleanup.
use pywire.Base.{
  ◌≡◌, refl, Bool, true, false, ◌||◌, Option, none, some, List, [], ◌∷◌, ◌++◌, arith, String,
  str_eq, if◌then◌else◌, Result, ok, err, All, All-append, is_some, inl, inr, Bool-cases,
}
use pywire.HashMap.{HashMap, lookup}
use pywire.Error.Classes.{PyErr}
use pywire.Query.Response.{Py}
use pywire.Extended.State.{BoundPortal, PortalEntry, PythonPortals, Call, Event}
use pywire.Extended.Close.{bound_of}
use pywire.Extended.Invariant.{live_portal, live_statement}
use pywire.Server.Shutdown.{
  Pc, Phase, serving, cleaning, over, Task, portal_calls, statement_calls, session_calls,
  cleanup_calls, clean_up,
}

abbrev pub closes_portal : String → Call → Bool
closes_portal n (Call.close_portal _ j) = str_eq j n
closes_portal n _ = false

abbrev pub closes_statement : String → Call → Bool
closes_statement n (Call.close_statement _ j) = str_eq j n
closes_statement n _ = false

unfoldable pub any_call : (Call → Bool) → List Call → Bool
any_call f [] = false
any_call f (c ∷ cs) = f c || any_call f cs

abbrev pub is_err : Result PyErr Py → Bool
is_err (ok v) = false
is_err (err e) = true

-- Python was asked, and raised.
unfoldable pub refused : (Call → Bool) → List Event → Bool
refused f [] = false
refused f (e ∷ es) = if f e.call then (is_err e.outcome || refused f es) else refused f es

-- What is in the tables, or still to be called.
abbrev pub owes_portal : String → PythonPortals → Phase → Bool
owes_portal n t (serving p) = is_some (bound_of (lookup n t.portals))
owes_portal n t (cleaning cs) = any_call (closes_portal n) cs
owes_portal n t over = false

abbrev pub owes_statement : String → PythonPortals → Phase → Bool
owes_statement n t (serving p) = is_some (lookup n t.statements)
owes_statement n t (cleaning cs) = any_call (closes_statement n) cs
owes_statement n t over = false

-- Whatever is open in Python is owed, unless Python refused to close it.
abbrev pub PortalOwed : Task → Type 0
PortalOwed t =
    (n : String)
    → live_portal n t.ended ≡ true
    → (owes_portal n t.tables t.phase || refused (closes_portal n) t.ended) ≡ true

abbrev pub StatementOwed : Task → Type 0
StatementOwed t =
    (n : String)
    → live_statement n t.ended ≡ true
    → (owes_statement n t.tables t.phase || refused (closes_statement n) t.ended) ≡ true

any_call-append :
    (f : Call → Bool) (cs ds : List Call) → any_call f (cs ++ ds) ≡ (any_call f cs || any_call f ds)
unfolding any_call
any_call-append f [] ds = refl
any_call-append f (c ∷ cs) ds = ground (arith, any_call-append f cs ds)

portal_calls-closes :
    (n : String) (m : HashMap PortalEntry)
    → is_some (bound_of (lookup n m)) ≡ true
    → any_call (closes_portal n) (portal_calls m) ≡ true
unfolding lookup portal_calls any_call
portal_calls-closes n [] h = cc
portal_calls-closes n ((j, e) ∷ m) h = ground (arith, portal_calls-closes n m)

statement_calls-closes :
    (n : String) (m : HashMap Py)
    → is_some (lookup n m) ≡ true
    → any_call (closes_statement n) (statement_calls m) ≡ true
unfolding lookup statement_calls any_call
statement_calls-closes n [] h = cc
statement_calls-closes n ((j, i) ∷ m) h = ground (arith, statement_calls-closes n m)

-- Cleanup calls for all that is in the tables.
module _ (has_close : Py → Bool) where
  cleanup_calls-portal :
      (n : String) (t : PythonPortals)
      → is_some (bound_of (lookup n t.portals)) ≡ true
      → any_call (closes_portal n) (cleanup_calls has_close t) ≡ true
  unfolding cleanup_calls
  cleanup_calls-portal n t h = ground (
    arith,
    portal_calls-closes n t.portals h,
    any_call-append (closes_portal n) (portal_calls t.portals)
        (statement_calls t.statements ++ session_calls has_close t.session),
  )

  cleanup_calls-statement :
      (n : String) (t : PythonPortals)
      → is_some (lookup n t.statements) ≡ true
      → any_call (closes_statement n) (cleanup_calls has_close t) ≡ true
  unfolding cleanup_calls
  cleanup_calls-statement n t h = ground (
    arith,
    statement_calls-closes n t.statements h,
    any_call-append (closes_statement n) (portal_calls t.portals)
        (statement_calls t.statements ++ session_calls has_close t.session),
    any_call-append (closes_statement n) (statement_calls t.statements)
        (session_calls has_close t.session),
  )

  pub clean_up-PortalOwed :
      (t : Task) (p : Pc) (dropped : Option Call)
      → t.phase ≡ serving p
      → PortalOwed t
      → PortalOwed (clean_up has_close t dropped)
  unfolding clean_up
  clean_up-PortalOwed t p dropped e h n live =
      ground (arith, e, h n live, cleanup_calls-portal n t.tables)

  pub clean_up-StatementOwed :
      (t : Task) (p : Pc) (dropped : Option Call)
      → t.phase ≡ serving p
      → StatementOwed t
      → StatementOwed (clean_up has_close t dropped)
  unfolding clean_up
  clean_up-StatementOwed t p dropped e h n live =
      ground (arith, e, h n live, cleanup_calls-statement n t.tables)

-- And for nothing else.
abbrev pub is_cleanup : Call → Bool
is_cleanup (Call.close_portal _ _) = true
is_cleanup (Call.close_statement _ _) = true
is_cleanup (Call.close_session _) = true
is_cleanup _ = false

abbrev pub AllCleanup : List Call → Type 0
AllCleanup cs = All (λ c. is_cleanup c ≡ true) cs

portal_calls-AllCleanup : (m : HashMap PortalEntry) → AllCleanup (portal_calls m)
unfolding portal_calls
portal_calls-AllCleanup [] = tt
portal_calls-AllCleanup ((n, e) ∷ m) = entry e.bound (portal_calls-AllCleanup m)
  where
    entry :
        (o : Option BoundPortal)
        → AllCleanup (portal_calls m)
        → AllCleanup (elim o [
          | none ↦ portal_calls m
          | some b ↦ Call.close_portal b.instance_ref n ∷ portal_calls m
        ])
    entry none h = h
    entry (some b) h = (refl, h)

statement_calls-AllCleanup : (m : HashMap Py) → AllCleanup (statement_calls m)
unfolding statement_calls
statement_calls-AllCleanup [] = tt
statement_calls-AllCleanup ((n, i) ∷ m) = (refl, statement_calls-AllCleanup m)

session_calls-AllCleanup :
    (has_close : Py → Bool) (o : Option Py) → AllCleanup (session_calls has_close o)
unfolding session_calls
session_calls-AllCleanup has_close none = tt
session_calls-AllCleanup has_close (some i) = elim (Bool-cases (has_close i)) [
  | inl e ↦ rw e (refl, tt)
  | inr e ↦ rw e tt
]

pub cleanup_calls-AllCleanup :
    (has_close : Py → Bool) (t : PythonPortals) → AllCleanup (cleanup_calls has_close t)
unfolding cleanup_calls
cleanup_calls-AllCleanup has_close t =
    All-append (λ c. is_cleanup c ≡ true) (portal_calls t.portals)
      (statement_calls t.statements ++ session_calls has_close t.session)
      (portal_calls-AllCleanup t.portals)
      (All-append (λ c. is_cleanup c ≡ true) (statement_calls t.statements)
        (session_calls has_close t.session) (statement_calls-AllCleanup t.statements)
        (session_calls-AllCleanup has_close t.session))
