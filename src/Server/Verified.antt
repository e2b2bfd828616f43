-- ===== src/Server/Verified.antt =====
-- `PyStartupHandler` of src/server.rs around `ScramVerifierStartupHandler`, over all messages that a
-- client sends.
pub mod Ready
use pywire.Base.{
  ◌∙◌, arith, ◌≡◌, refl, Bool, true, false, not, ◌&&◌, Option, some, List, [], ◌∷◌, if◌then◌else◌,
  subst, sym, inl, inr, Bool-cases, Result-cases,
}
use pywire.Query.Response.{Py}
use pywire.Auth.{from_pg}
use pywire.Scram.ClientFirst.{is_some}
use pywire.Step.{Step, Ending, done, failed, panicked, Post, imply_post, bind_post, ◌>>◌}
use pywire.Startup.Connection.{initial, Frontend, Connection, World}
use pywire.Startup.Scram.{ScramVerifierConfig, initialize_python_session}
use pywire.Startup.Scram
use pywire.Startup.Scram.ReadyLast.{StillWaits, SameResources, on_startup-StillWaits}
use pywire.Startup.Scram.Authenticated.{
  Inv, is_let_in, Authenticated, Started-later, Authenticated-later, Authenticated-same,
}
use pywire.Startup.Scram.Authenticated.Final.{opened-Inv}
use pywire.Startup.Scram.Authenticated.Messages.{on_startup_post, connected-Inv, Post-Inv}
use pywire.Server.Config.{PyStartupInner, verifier}
use pywire.Server.Startup.{
  check_tls, inner_startup, install_resources, install_session, on_startup, is_startup,
}

-- The session factory is that of the configuration, which `build` gives to both handlers.
module _ (w : World) (pg_startup : PyStartupInner → Frontend → Step Connection Unit)
    (config : ScramVerifierConfig) (require_tls : Bool) (session_factory : Option Py) where
  abbrev inner : PyStartupInner
  inner = verifier config session_factory

  -- The messages that the SCRAM handler gets to see: not a startup message without encryption where
  -- TLS is required.
  abbrev pub heard_by_scram : Connection → Frontend → List Frontend → List Frontend
  heard_by_scram c m heard =
      if require_tls && is_startup m && not c.secure then heard else m ∷ heard

  -- The states that a connection gets to from one that has sent nothing yet.
  pub data Received : Connection → Type 0 where
    accepted : (c : Connection) → c.state ≡ initial → is_let_in c ≡ false → Received c
    received :
        (c : Connection) (m : Frontend)
        → Received c
        → Received (on_startup w pg_startup inner require_tls session_factory m c).1

  module _ (start : Connection) where
    abbrev I : List Frontend → Connection → Type 0
    I = Inv w config (is_some session_factory) start

    abbrev R : List Frontend → Unit {0} → Connection → Type 0
    R heard _ d = I heard d

    inner_post :
        (heard : List Frontend) (m : Frontend) (c : Connection)
        → I heard c
        → Post
            (I (m ∷ heard))
            (R (m ∷ heard))
            (inner_startup w pg_startup inner require_tls session_factory inner m c)
    unfolding inner_startup
    inner_post heard m c inv =
        on_startup_post w config (is_some session_factory) start heard m c inv

    install_resources_post :
        (heard : List Frontend) (c : Connection)
        → I heard c
        → Post
            (I heard)
            (R heard)
            (install_resources w pg_startup inner require_tls session_factory c)
    unfolding install_resources
    install_resources_post heard c inv = elim (Bool-cases (c.ready && not c.installed)) [
      | inr e ↦ rw e inv
      | inl e ↦ rw e (record {
        secure = inv.secure;
        login = inv.login;
        started = inv.started;
        told = inv.told;
        authenticated = λ h.
            Authenticated-same w config (is_some session_factory) start heard c _ (λ x m. m)
              (λ _ o. o) (inv.authenticated h);
      })
    ]

    install_session_post :
        (heard : List Frontend) (c : Connection)
        → I heard c
        → Post
            (I heard)
            (R heard)
            (install_session w pg_startup inner require_tls session_factory c)
    unfolding install_session initialize_python_session
    install_session_post heard c inv =
        elim (Bool-cases (c.ready && not (is_some c.session_ref) && is_some session_factory)) [
          | inr e ↦ rw e inv
          | inl e ↦ elim (Result-cases (w.open_session (from_pg c.login))) [
            | inl (i, f) ↦
                rw (e, f) (opened-Inv w config (is_some session_factory) start heard c i inv)
            | inr (x, f) ↦ rw (e, f) inv
          ]
        ]

    -- Behind the check of TLS.
    let_through_post :
        (heard : List Frontend) (m : Frontend) (c : Connection)
        → I heard c
        → Post (I (m ∷ heard)) (R (m ∷ heard)) (
            (inner_startup w pg_startup inner require_tls session_factory inner m
                >> (install_resources w pg_startup inner require_tls session_factory
                    >> install_session w pg_startup inner require_tls session_factory))
              c)
    let_through_post heard m c inv =
        let J = I (m ∷ heard) in
        let Q = R (m ∷ heard) in
        let resources = install_resources w pg_startup inner require_tls session_factory in
        let session = install_session w pg_startup inner require_tls session_factory in
        bind_post J Q Q (inner_startup w pg_startup inner require_tls session_factory inner m)
          (λ _. resources >> session) c (inner_post heard m c inv)
          (λ _ x q.
            bind_post J Q Q resources (λ _. session) x (install_resources_post (m ∷ heard) x q)
              (λ _ y r. install_session_post (m ∷ heard) y r))

    handled-Inv :
        (heard : List Frontend) (m : Frontend) (c : Connection)
        → I heard c
        → I
            (heard_by_scram c m heard)
            (on_startup w pg_startup inner require_tls session_factory m c).1
    unfolding on_startup check_tls
    handled-Inv heard m c inv = elim (Bool-cases (require_tls && is_startup m && not c.secure)) [
      | inl e ↦ rw e inv
      | inr e ↦ rw e (
          Post-Inv w config (is_some session_factory) start (m ∷ heard) _
            (let_through_post heard m c inv))
    ]

    -- The same from one start, with the messages that its SCRAM handler got, the newest first.
    pub data Handled : List Frontend → Connection → Type 0 where
      from_start : Handled [] start
      handles :
          (heard : List Frontend) (c : Connection) (m : Frontend)
          → Handled heard c
          → Handled
              (heard_by_scram c m heard)
              (on_startup w pg_startup inner require_tls session_factory m c).1

    pub Handled-Inv :
        start.state ≡ initial
        → is_let_in start ≡ false
        → (heard : List Frontend) (c : Connection) → Handled heard c
        → I heard c
    Handled-Inv e n _ _ from_start = connected-Inv w config (is_some session_factory) start e n
    Handled-Inv e n _ _ (handles heard c m p) = handled-Inv heard m c (Handled-Inv e n heard c p)

    -- On a server that authenticates with stored verifiers, a connection that starts in the initial
    -- state and not let in, and that is let in afterwards, by whatever messages it got there and with
    -- whatever answers of Python and the sink, has proved the key: the SCRAM handler got a
    -- client-first-message, made its exchange from that message, this server's random text and the
    -- verifier that the source gave for the login of that time, sent the server-first-message, and got
    -- a later message that verifies against it; and the session is open if the server has a session
    -- factory. A startup message that the check of TLS refuses is none that the SCRAM handler got.
    pub Handled-Authenticated :
        (heard : List Frontend) (c : Connection)
        → start.state ≡ initial
        → is_let_in start ≡ false
        → Handled heard c
        → is_let_in c ≡ true
        → Authenticated w config (is_some session_factory) start heard c
    Handled-Authenticated heard c e n p h = (Handled-Inv e n heard c p).authenticated h

  start_of :
      (c : Connection)
      → Received c
      → (start : Connection) × (heard : List Frontend) × (start.state ≡ initial)
        × (is_let_in start ≡ false)
        × Handled start heard c
  start_of _ (accepted c e n) = (c, [], e, n, from_start)
  start_of _ (received c m p) =
      let (start, heard, e, n, s) = start_of c p in
      (start, heard_by_scram c m heard, e, n, handles heard c m s)

  pub let_in-session :
      (c : Connection)
      → Received c
      → is_let_in c ≡ true
      → is_some session_factory ≡ true
      → is_some c.session_ref ≡ true
  let_in-session c p h f =
      let (start, heard, e, n, s) = start_of c p in
      (Handled-Authenticated start heard c e n s h).session f
