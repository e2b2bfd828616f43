-- ===== src/Server/Startup.antt =====
-- `PyStartupHandler` of src/server.rs.
use pywire.Base.{
  ◌≡◌, Bool, true, false, not, ◌&&◌, Option, arith, if◌then◌else◌, inl, inr, Result-cases,
}
use pywire.Error.PgWire.{user_error}
use pywire.Error.Info
use pywire.Query.Response.{Py}
use pywire.Auth.{from_pg}
use pywire.Scram.ClientFirst.{is_some}
use pywire.Step.{Step, done, pure, fail, modify, ◌>>◌, bind-done}
use pywire.Startup.Connection.{Frontend, startup, password, other, Connection, World}
use pywire.Startup.Scram
use pywire.Startup.Scram.{ScramVerifierConfig, initialize_python_session}
use pywire.Server.Config.{PyStartupInner, noop, cleartext_password, scram_password, verifier}

abbrev pub is_startup : Frontend → Bool
is_startup (startup _) = true
is_startup (password _) = false
is_startup other = false

module _ (w : World) (pg_startup : PyStartupInner → Frontend → Step Connection Unit)
    (inner : PyStartupInner) (require_tls : Bool) (session_factory : Option Py) where
  -- The check of `on_startup`.
  unfoldable pub check_tls : Frontend → Step Connection Unit
  check_tls m c =
      if require_tls && is_startup m && not c.secure
      then (fail (user_error (Info.new "FATAL" "28000" "TLS is required"))) c
      else (pure tt) c

  -- The `match` of `on_startup`; three of the handlers are pgwire's.
  unfoldable pub inner_startup : PyStartupInner → Frontend → Step Connection Unit
  unfolding Scram.on_startup
  inner_startup noop m = pg_startup noop m
  inner_startup (cleartext_password auth) m = pg_startup (cleartext_password auth) m
  inner_startup (scram_password auth iterations pem) m =
      pg_startup (scram_password auth iterations pem) m
  inner_startup (verifier config factory) m = Scram.on_startup w config (is_some factory) m

  -- The two blocks behind it.
  unfoldable pub install_resources : Step Connection Unit
  install_resources c =
      if c.ready && not c.installed
      then (modify (λ c. record c { installed = true })) c
      else (pure tt) c

  unfoldable pub install_session : Step Connection Unit
  unfolding initialize_python_session
  install_session c =
      if c.ready && not (is_some c.session_ref) && is_some session_factory
      then initialize_python_session w c
      else (pure tt) c

  -- `on_startup` of `PyStartupHandler`.
  unfoldable pub on_startup : Frontend → Step Connection Unit
  unfolding check_tls inner_startup install_resources install_session
  on_startup m = do check_tls m; inner_startup inner m; install_resources; install_session

  -- A connection that is ready has its resources, and its session if there is a factory.
  pub record Prepared (c : Connection) : Type 0 where
    pub installed : c.ready ≡ true → c.installed ≡ true
    pub session : c.ready ≡ true → is_some session_factory ≡ true → is_some c.session_ref ≡ true

  install_resources-done :
      (c d : Connection) → install_resources c ≡ (done tt, d) → d.ready ≡ true → d.installed ≡ true
  unfolding install_resources
  install_resources-done c d h r = ground (arith, h, r)

  -- Either the session is opened, or there is none to open.
  install_session-done :
      (c d : Connection)
      → (c.ready ≡ true → c.installed ≡ true)
      → install_session c ≡ (done tt, d)
      → Prepared d
  unfolding install_session initialize_python_session
  install_session-done c d installed h = elim (Result-cases (w.open_session (from_pg c.login))) [
    | inl (i, e) ↦ record {
      installed = λ r. ground (arith, h, r, e, installed);
      session = λ r g. ground (arith, h, r, g, e);
    }
    | inr (x, e) ↦ record {
      installed = λ r. ground (arith, h, r, e, installed);
      session = λ r g. ground (arith, h, r, g, e);
    }
  ]

  -- Whatever pgwire's handlers do, and in whatever state the connection was: when `on_startup`
  -- returns without an error and the connection is ready, the connection has its resources, so that
  -- the `expect`s of the query handlers hold, and its Python session if the server has a session
  -- factory.
  pub on_startup-Prepared :
      (m : Frontend) (c d : Connection) → on_startup m c ≡ (done tt, d) → Prepared d
  unfolding on_startup
  on_startup-Prepared m c d h =
      let (_, c1, e1, h1) =
        bind-done (check_tls m)
          (λ _. inner_startup inner m >> (install_resources >> install_session)) c tt d h in
      let (_, c2, e2, h2) =
        bind-done (inner_startup inner m) (λ _. install_resources >> install_session) c1 tt d h1 in
      let (_, c3, e3, h3) = bind-done install_resources (λ _. install_session) c2 tt d h2 in
      install_session-done c3 d (install_resources-done c2 c3 e3) h3
