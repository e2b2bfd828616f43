-- ===== src/Server/Verified/Ready.antt =====
-- The resources of a ready connection behind the startup handlers of src/server.rs and
-- src/scram_verifier.rs.
use pywire.Base.{
  ◌∙◌, arith, ◌≡◌, refl, Bool, true, not, ◌&&◌, Option, inl, inr, Bool-cases, Result-cases,
}
use pywire.Query.Response.{Py}
use pywire.Auth.{from_pg}
use pywire.Scram.ClientFirst.{is_some}
use pywire.Step.{Step, Ending, done, failed, panicked, Post, imply_post, bind_post, ◌>>◌}
use pywire.Startup.Connection.{Frontend, Connection, World}
use pywire.Startup.Scram.{ScramVerifierConfig, initialize_python_session}
use pywire.Startup.Scram
use pywire.Startup.Scram.ReadyLast.{StillWaits, SameResources, on_startup-StillWaits}
use pywire.Server.Config.{PyStartupInner, verifier}
use pywire.Server.Startup.{
  check_tls, inner_startup, install_resources, install_session, on_startup, is_startup,
}
use pywire.Server.Verified.{Received, accepted, received, let_in-session}

-- The session factory is that of the configuration, which `build` gives to both handlers.
module _ (w : World) (pg_startup : PyStartupInner → Frontend → Step Connection Unit)
    (config : ScramVerifierConfig) (require_tls : Bool) (session_factory : Option Py) where
  abbrev inner : PyStartupInner
  inner = verifier config session_factory

  -- What is true between messages: a ready connection has its resources.
  abbrev ReadyInstalled : Connection → Type 0
  ReadyInstalled c = c.ready ≡ true → c.installed ≡ true

  abbrev pub Kept : Unit {0} → Connection → Type 0
  Kept _ d = ReadyInstalled d

  install_session_keeps :
      (c : Connection)
      → ReadyInstalled c
      → Post ReadyInstalled Kept (install_session w pg_startup inner require_tls session_factory c)
  unfolding install_session initialize_python_session
  install_session_keeps c h =
      elim (Bool-cases (c.ready && not (is_some c.session_ref) && is_some session_factory)) [
        | inr e ↦ rw e h
        | inl e ↦ elim (Result-cases (w.open_session (from_pg c.login))) [
          | inl (i, f) ↦ rw (e, f) h
          | inr (x, f) ↦ rw (e, f) h
        ]
      ]

  install_resources_keeps :
      (c : Connection)
      → Post ReadyInstalled Kept
          (install_resources w pg_startup inner require_tls session_factory c)
  unfolding install_resources
  install_resources_keeps c = elim (Bool-cases (c.ready && not c.installed)) [
    | inl e ↦ rw e (λ r. refl)
    | inr e ↦ rw e (λ r. ground (arith, e, r))
  ]

  check_tls_keeps :
      (m : Frontend) (c : Connection)
      → ReadyInstalled c
      → Post ReadyInstalled Kept (check_tls w pg_startup inner require_tls session_factory m c)
  unfolding check_tls
  check_tls_keeps m c h = elim (Bool-cases (require_tls && is_startup m && not c.secure)) [
    | inl e ↦ rw e h
    | inr e ↦ rw e h
  ]

  inner_keeps :
      (m : Frontend) (c : Connection)
      → ReadyInstalled c
      → Post ReadyInstalled
          (λ (_ : Unit {0}) _. Unit {0})
          (inner_startup w pg_startup inner require_tls session_factory inner m c)
  unfolding inner_startup
  inner_keeps m c h =
      imply_post (StillWaits c) ReadyInstalled (SameResources c) (λ _ _. Unit {0})
        (Scram.on_startup w config (is_some session_factory) m c)
        (on_startup-StillWaits w config (is_some session_factory) m c)
        (λ d p r. p.installed ∙ h (p.ready r)) (λ _ d p. tt)

  handled_keeps :
      (m : Frontend) (c : Connection)
      → ReadyInstalled c
      → Post ReadyInstalled Kept (on_startup w pg_startup inner require_tls session_factory m c)
  unfolding on_startup
  handled_keeps m c h =
      let resources = install_resources w pg_startup inner require_tls session_factory in
      let session = install_session w pg_startup inner require_tls session_factory in
      let verify_client = inner_startup w pg_startup inner require_tls session_factory inner m in
      bind_post ReadyInstalled Kept Kept
        (check_tls w pg_startup inner require_tls session_factory m)
        (λ _. verify_client >> (resources >> session)) c (check_tls_keeps m c h)
        (λ _ d p.
          bind_post ReadyInstalled (λ (_ : Unit {0}) _. Unit {0}) Kept verify_client
            (λ _. resources >> session) d (inner_keeps m d p)
            (λ _ x q.
              bind_post ReadyInstalled Kept Kept resources (λ _. session) x
                (install_resources_keeps x) (λ _ y r. install_session_keeps y r)))

  Post-ReadyInstalled :
      (x : Ending (Unit {0}) × Connection) → Post ReadyInstalled Kept x → ReadyInstalled x.1
  Post-ReadyInstalled (done a, c) h = h
  Post-ReadyInstalled (failed e, c) h = h
  Post-ReadyInstalled (panicked, c) h = absurd h

  -- In every such state, behind errors too, a ready connection has the tables that the query handlers
  -- expect, and its session if the server has a session factory.
  pub Received-installed :
      (c : Connection)
      → Received w pg_startup config require_tls session_factory c
      → c.ready ≡ true
      → (c.installed ≡ true) × (is_some session_factory ≡ true → is_some c.session_ref ≡ true)
  Received-installed c p r = (
    kept c p r,
    let_in-session w pg_startup config require_tls session_factory c p (ground (arith, r)),
  )
    where
      kept :
          (c : Connection)
          → Received w pg_startup config require_tls session_factory c
          → ReadyInstalled c
      kept _ (accepted c e h) = λ r. absurd (ground (arith, h, r))
      kept _ (received c m p) =
          Post-ReadyInstalled (on_startup w pg_startup inner require_tls session_factory m c)
            (handled_keeps m c (kept c p))
