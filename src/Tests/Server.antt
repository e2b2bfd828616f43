-- ===== src/Tests/Server.antt =====
-- Witnesses for the theorems on src/server.rs.
use pywire.Base.{◌≡◌, refl, true, false, none, some, List, [], ◌∷◌, String, ok}
use pywire.Query.Response.Convert.{Response}
use pywire.Step.{Step, done, pure, ◌>>=◌, Post, bind_post}
use pywire.Startup.Connection.{Frontend, startup, password, Connection}
use pywire.Startup.Scram.Authenticated.{is_let_in, Authenticated}
use pywire.Scram.ClientFirst.{is_some}
use pywire.Scram.Decimal.{format_u32}
use pywire.Server.Verified.{
  Received, accepted, received, Handled, from_start, handles, Handled-Authenticated,
}
use pywire.Server.Verified.Ready.{Received-installed}
use pywire.Scram.Certificate.{rsa_sha256}
use pywire.Server.Config
use pywire.Server.Config.{
  Arguments, HandlerConfig, PyStartupInner, noop, verifier, serve_config, scram_verifier,
}
use pywire.Server.Config.Sound.{Sound, serve_config-Sound}
use pywire.Server.Startup.{on_startup, Prepared, on_startup-Prepared}
use pywire.Server.SimpleQuery.{on_query, Tidy, KeepsWhatQueriesKeep, on_query-Tidy}
use pywire.Extended.Action.{Action}
use pywire.Server.Life
use pywire.Server.Life.{Served, Served-closes_all}
use pywire.Extended.State.{Client}
use pywire.Extended.Invariant.{Inv, live_portal, live_statement}
use pywire.Extended.Cleanup.{cleanup}
use pywire.Extended.Requests.{bind, parse}
use pywire.Extended.Session.{Reachable-Inv}
use pywire.HashMap.{lookup}
use pywire.Tests.Store.{Store, store, laws, makes, fresh, parse_s, bind_p}
use pywire.Tests.Store as Store
use pywire.Tests.Extended.{handler, parsed, bound, is_fresh, reaches_bound}
use pywire.Tests.Startup as Startup

abbrev files : Config.World
files = record {
  socket_addr = λ addr. ok tt;
  tls = record {
    read = λ path. ok (1 ∷ []);
    pem_file_iter = λ path. ok (ok (1 ∷ []) ∷ []);
    from_pem_slice = λ pem. ok pem;
    with_single_cert = λ certificates key.
        ok (record { certificates = certificates; key = key; alpn_protocols = [] });
    quoted = λ s. s;
  };
  crates = record {
    from_pem_multiple =
        λ pem. ok (record { signature_algorithm = some rsa_sha256; constructed_data = pem } ∷ []);
    digest = λ algorithm bytes. 2 ∷ [];
  };
  mock_secret = 3 ∷ [];
  quoted = λ s. s;
  display = λ e. "";
}

abbrev arguments : Arguments
arguments = record {
  addr = "127.0.0.1:5432";
  auth = some 1;
  session_factory = none;
  auth_method = "scram-sha-256-verifier";
  tls_cert = some "cert.pem";
  tls_key = some "key.pem";
  require_tls = true;
  scram_iterations = 4096;
}

abbrev configured : HandlerConfig
configured = record {
  auth = some 1;
  auth_method = scram_verifier;
  require_tls = true;
  scram_iterations = 4096;
  tls_certificate_pem = some (1 ∷ []);
  session_factory = none;
  scram_verifier =
      some (record { certificate = some (2 ∷ []); mock_secret = 3 ∷ []; mock_iterations = 4096 });
}

is_configured : serve_config files arguments ≡ ok configured
unfolding serve_config
is_configured = refl

serve_config-Sound_example : Sound files arguments (λ pem. ok tt) configured
serve_config-Sound_example =
    serve_config-Sound files arguments (λ pem. ok tt) configured is_configured

-- A handler of pgwire that lets everybody in.
abbrev ready_at_once : PyStartupInner → Frontend → Step Connection Unit
ready_at_once inner m c = (done tt, record c { ready = true })

abbrev prepared : Connection
prepared =
    (on_startup Startup.world ready_at_once noop false (some 4) (startup Startup.login)
      Startup.connection).1

returns :
    on_startup Startup.world ready_at_once noop false
      (some 4)
      (startup Startup.login)
      Startup.connection
    ≡ (done tt, prepared)
unfolding on_startup
returns = refl

on_startup-Prepared_example : Prepared Startup.world ready_at_once noop false (some 4) prepared
on_startup-Prepared_example =
    on_startup-Prepared Startup.world ready_at_once noop false (some 4) (startup Startup.login)
      Startup.connection prepared returns

abbrev verified_step : Frontend → Connection → Connection
verified_step m c =
    (on_startup Startup.world ready_at_once (verifier Startup.config (some 4)) false (some 4) m c).1

abbrev started : Connection
started = verified_step (startup Startup.login) Startup.connection

abbrev waiting : Connection
waiting = verified_step (password Startup.first) started

abbrev let_in : Connection
let_in = verified_step (password Startup.final) waiting

let_in-is_let_in : is_let_in let_in ≡ true
unfolding on_startup pywire.Base.text_eq format_u32
let_in-is_let_in = refl

let_in-Received : Received Startup.world ready_at_once Startup.config false (some 4) let_in
let_in-Received = received waiting (password Startup.final) (
    received started (password Startup.first)
      (received Startup.connection (startup Startup.login) (accepted Startup.connection refl refl)))

let_in-Handled :
    Handled Startup.world ready_at_once Startup.config false
      (some 4)
      Startup.connection
      (password Startup.final ∷ password Startup.first ∷ startup Startup.login ∷ [])
      let_in
let_in-Handled = handles _ waiting (password Startup.final) (
    handles _ started (password Startup.first)
      (handles [] Startup.connection (startup Startup.login) from_start))

Handled-Authenticated_example :
    Authenticated Startup.world Startup.config true Startup.connection
      (password Startup.final ∷ password Startup.first ∷ startup Startup.login ∷ [])
      let_in
Handled-Authenticated_example =
    Handled-Authenticated Startup.world ready_at_once Startup.config false (some 4)
      Startup.connection
      (password Startup.final ∷ password Startup.first ∷ startup Startup.login ∷ []) let_in refl
      refl let_in-Handled let_in-is_let_in

let_in-ready : let_in.ready ≡ true
unfolding on_startup pywire.Base.text_eq format_u32
let_in-ready = refl

Received-installed_example :
    (let_in.installed ≡ true) × (true ≡ true → is_some let_in.session_ref ≡ true)
Received-installed_example =
    Received-installed Startup.world ready_at_once Startup.config false (some 4) let_in
      let_in-Received let_in-ready

-- `_on_query` without its messages: it asks for the responses.
abbrev ask : (String → Action Store (List Response)) → String → Action Store Unit
ask do_query query = do_query query >>= λ _. pure tt

ask-keeps : KeepsWhatQueriesKeep store Store.world handler 2 ask laws
ask-keeps do_query keeps q c inv =
    bind_post (Inv store Store.world handler)
      (λ (_ : List Response) d. Inv store Store.world handler d)
      (λ (_ : Unit {0}) d. Inv store Store.world handler d) (do_query q) (λ _. pure tt) c
      (keeps q c inv) (λ _ d p. p)

bound-Inv : Inv store Store.world handler bound
bound-Inv = Reachable-Inv store laws Store.world makes handler bound reaches_bound

on_query-Tidy_example :
    Post
      (Inv store Store.world handler)
      (λ (_ : Unit {0}) d. Tidy store Store.world handler 2 ask laws d)
      (on_query store Store.world handler 2 ask "COMMIT" bound)
on_query-Tidy_example =
    on_query-Tidy store Store.world handler 2 ask laws "COMMIT" bound ask-keeps bound-Inv

-- The session of the extended protocol, and then a simple query.
abbrev queried : Client Store
queried = (on_query store Store.world handler 2 ask "SELECT 1" bound).1

serves_queried : Served store Store.world handler 2 ask queried
serves_queried = Life.queried bound "SELECT 1" (
    Life.handled parsed (bind bind_p)
      (Life.handled fresh (parse parse_s) (Life.started fresh is_fresh)))

Served-closes_all_example :
    (live_portal "p" (cleanup Store.world queried.resources queried.calls).1 ≡ false)
    × (live_statement "p" (cleanup Store.world queried.resources queried.calls).1 ≡ false)
    × (lookup "p" (cleanup Store.world queried.resources queried.calls).0.portals ≡ none)
    × (lookup "p" (cleanup Store.world queried.resources queried.calls).0.statements ≡ none)
Served-closes_all_example =
    Served-closes_all store Store.world handler 2 ask laws makes ask-keeps queried "p"
      (λ calls i n. ((7, refl), (7, refl))) serves_queried
