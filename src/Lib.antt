-- ===== src/Lib.antt =====
-- A PostgreSQL server written in Python on pgwire: the Rust extension module under src/. Python
-- objects handle startup, queries and the extended protocol; the extension adapts them to pgwire's
-- traits, keeps the tables of open portals and statements, authenticates with SCRAM, and carries
-- errors, columns and rows across the boundary.
--
-- Base, HashMap and Step are shared: lists, texts and Boolean tests over the native numbers, an
-- association list for `HashMap`, and actions that change a state and end with a value, an error or a
-- panic. `Post I Q` over the result of an action says that it does not panic, that `I` holds behind an
-- error and `Q` behind a value.
--
-- Error (src/errors.rs): Error.Info has `ErrorInfo` and its conversions, Error.Classes the exception
-- classes, Error.Hierarchy what catches them, Error.Boundary `pywire_to_py_err` and
-- `py_err_to_pywire`. Error.PgWire lists pgwire's errors.
-- Query (src/query.rs, and the conversions of types and formats in src/extended.rs): Query.Field has
-- columns, Query.Row the body of a DataRow, Query.Response what a handler returns and how it is
-- converted, Query.Response.Stream the rows pulled from an iterator. A Python object is a number that
-- names it.
-- Auth (src/auth.rs): the login, the password and the adapter of an `AuthSource`; Auth.Secrets is what
-- the `__repr__` of credentials gives away.
-- Debug is Rust's formatting, which every `__repr__` uses: `{}` of numbers and `{:?}` of texts with
-- their escapes, over Unicode's table of printable characters as a parameter. The modules Repr, and
-- Messages.New, have the `__repr__` of the classes and their constructors with defaults. Debug.Quoted
-- reads back what was printed.
-- Scram (src/scram_verifier.rs): Scram.Verifier is the stored verifier and its text, Scram.ClientFirst
-- the first message, Scram.Negotiate channel binding, Scram.Certificate the data that binds it,
-- Scram.Exchange the rest of the exchange, Scram.Exchange.Client a client of RFC 5802 that knows only
-- its own messages and those that it gets. A text is the list of its bytes, the crates for base64,
-- HMAC and SHA-256 are functions with the laws that they document, of which no security of a hash is
-- one.
-- Startup (src/scram_verifier.rs, `ScramVerifierStartupHandler`; src/server.rs,
-- `initialize_python_session`): the startup of a connection as actions on Startup.Connection. The
-- states that a connection can get to are a relation, `Reached`, over the messages that it got; which
-- of them lets a connection in is said of that history.
-- Extended (src/extended.rs): Extended.State is a connection with the tables of `PythonPortals`,
-- pgwire's portal store, which is a parameter with the laws of two maps, and the log of all calls into
-- Python. Extended.Close, Extended.Bind and Extended.Handlers are the handlers of `PyExtendedHandler`,
-- Extended.EmptyQuery is `is_empty_query`, Extended.Cleanup the end of a connection. Python may answer
-- every call in any way, also by an exception, and the sink may refuse every message; an error leaves
-- what was done before it. Extended.Invariant is what the tables promise, with a module for what each
-- handler does to it; Extended.Spec is the session that the protocol promises a client, without tables
-- or Python, and Extended.Refinement holds the handlers against it; Extended.Session puts the
-- handlers together, `Reachable` being any sequence of requests, and Extended.Conversation holds
-- sequences of requests that all return against runs of the protocol. Extended.Frame is what a request
-- leaves alone whatever it ends in.
-- Server (src/server.rs): Server.Tls is `load_tls`, over rustls and the file system as parameters,
-- Server.Config the checks of `serve` and `HandlerConfig::build`, Server.Startup is
-- `PyStartupHandler`, Server.SimpleQuery the simple query handler, Server.Life a connection that serves
-- both protocols up to its cleanup, Server.Verified the startup handler around the SCRAM handler of
-- Startup, with what holds of all states it leaves. pgwire's own startup handlers and its `_on_query`
-- are parameters. Server.Shutdown is the task of a connection with its lock and
-- what aborts it, one await at a time, and Server.Shutdown.System is `serve` as a relation between
-- states: connections arrive, tasks move, the stop event or a failure of the accept loop ends it. Of
-- a task, `ended` are the callbacks that the extension saw end and `abandoned` those that it awaited
-- when it was dropped.
-- Messages (src/messages.rs): the message classes, with pgwire's codec as a parameter.
-- Tests has the theorems at concrete inputs.
--
-- Loops are structural recursion; `is_empty_query` runs on fuel, one more than the characters of the
-- query, and each round takes one of them. Counts and lengths that the code casts to 16 or 32 bits
-- keep the low bits, written as `%`.
--
-- Not modelled: the event loop, sockets and the TLS protocol, and what registers the classes with
-- Python. The locks are modelled in Server.Shutdown, for the shutdown; elsewhere one
-- handler runs at a time on a connection.
pub mod Auth
pub mod Base
pub mod Debug
pub mod Error
pub mod Extended
pub mod HashMap
pub mod Messages
pub mod Query
pub mod Scram
pub mod Server
pub mod Startup
pub mod Step
pub mod Tests
