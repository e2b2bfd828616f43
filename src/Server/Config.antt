-- ===== src/Server/Config.antt =====
-- The configuration in src/server.rs: the checks of `serve`, and `HandlerConfig::build`.
pub mod Building
pub mod Certificate
pub mod Sound
use Prim.Native.String.{◌++◌ as str_append}
use pywire.Base.{
  ℕ, ◌≡◌, refl, sym, ap, ◌∙◌, ◌≤◌, ◌⊎◌, Bool, true, false, not, ◌&&◌, ◌||◌, Option, none, some,
  arith, String, str_eq, str_eq_iff, ltb, if◌then◌else◌, Result, ok, err, ◌>>=◌, inl, inr,
  Bool-cases, Option-cases, Result-cases, is_some,
}
use pywire.Error.PgWire.{PgWireError, PgWireResult}
use pywire.Error.Classes.{PyErr}
use pywire.Error.Raise.{value_error}
use pywire.Scram.Certificate.{Crates, compute_cert_signature}
use pywire.Server.Tls.{TlsCrates, ServerConfig, load_tls}
use pywire.Query.Response.{Py}
use pywire.Scram.Crypto.{Bytes}
use pywire.Startup.Scram.{ScramVerifierConfig}
use pywire.Step.{Ending, done, failed, panicked}

pub data AuthMethod : Type 0 where
  trust cleartext scram scram_verifier : AuthMethod

-- The keyword arguments of `serve` that its checks read.
pub record Arguments : Type 0 where
  pub addr : String
  pub auth : Option Py
  pub session_factory : Option Py
  pub auth_method : String
  pub tls_cert : Option String
  pub tls_key : Option String
  pub require_tls : Bool
  pub scram_iterations : ℕ

-- `HandlerConfig`, without the query handlers and the connection manager.
pub record HandlerConfig : Type 0 where
  pub auth : Option Py
  pub auth_method : AuthMethod
  pub require_tls : Bool
  pub scram_iterations : ℕ
  pub tls_certificate_pem : Option Bytes
  pub session_factory : Option Py
  pub scram_verifier : Option ScramVerifierConfig

-- What `serve` calls of the standard library and of crates: the parser of addresses, with an error
-- by its text; what `load_tls` and `compute_cert_signature` call; the secret that `rand` gave; and
-- `{:?}` and `{}` of texts and errors.
pub record World : Type 0 where
  pub socket_addr : String → Result String (Unit {0})
  pub tls : TlsCrates
  pub crates : Crates
  pub mock_secret : Bytes
  pub quoted : String → String
  pub display : PgWireError → String

-- `SocketAddr::from_str(&addr)`
unfoldable pub check_addr : World → String → Result String (Unit {0})
check_addr w addr = elim (w.socket_addr addr) [
  | ok v ↦ ok tt
  | err e ↦ err (str_append "invalid address " (str_append (w.quoted addr) (str_append ": " e)))
]

-- `"scram-sha-256" | "scram"`
abbrev pub is_scram : String → Bool
is_scram m = str_eq m "scram-sha-256" || str_eq m "scram"

-- The choice of the method by `serve`; an error is the text of a `ValueError`, here and below.
unfoldable pub choose_method : World → Bool → String → Result String AuthMethod
choose_method w false m =
    if str_eq m "cleartext" || str_eq m "trust"
    then ok trust
    else if is_scram m
    then err "SCRAM authentication requires auth=AuthSource"
    else if str_eq m "scram-sha-256-verifier"
    then err "SCRAM verifier authentication requires auth=ScramVerifierSource"
    else err (str_append "unsupported auth_method " (w.quoted m))
choose_method w true m =
    if str_eq m "cleartext"
    then ok cleartext
    else if is_scram m
    then ok scram
    else if str_eq m "scram-sha-256-verifier"
    then ok scram_verifier
    else if str_eq m "trust"
    then ok trust
    else err (str_append "unsupported auth_method " (w.quoted m))

unfoldable pub check_iterations : ℕ → Result String (Unit {0})
check_iterations n = if ltb n 4096 then err "scram_iterations must be at least 4096" else ok tt

-- The certificate's text, or nothing without TLS.
unfoldable pub choose_tls :
    World → Option String → Option String → Bool → Result PyErr (Option Bytes)
unfolding load_tls value_error
choose_tls w (some cert) (some key) require_tls = elim (load_tls w.tls cert key) [
  | ok (acceptor, pem) ↦ ok (some pem)
  | err e ↦ err e
]
choose_tls w none none require_tls =
    if not require_tls
    then ok none
    else value_error (err "require_tls=True requires tls_cert and tls_key")
choose_tls w (some cert) none require_tls =
    value_error (err "tls_cert and tls_key must be supplied together")
choose_tls w none (some key) require_tls =
    value_error (err "tls_cert and tls_key must be supplied together")

-- `u32::try_from(n).unwrap_or(u32::MAX)`
abbrev pub saturate_u32 : ℕ → ℕ
saturate_u32 n = if ltb n 4294967296 then n else 4294967295

-- `tls_certificate_pem.map(compute_cert_signature).transpose()`
unfoldable pub certificate_of : World → Option Bytes → Result String (Option Bytes)
unfolding compute_cert_signature
certificate_of w none = ok none
certificate_of w (some pem) = elim (compute_cert_signature w.crates pem) [
  | ok s ↦ ok (some s)
  | err e ↦ err (w.display e)
]

-- The `scram_verifier` of `serve`.
unfoldable pub choose_verifier :
    World → AuthMethod → Option Py → Option Bytes → ℕ → Result String (Option ScramVerifierConfig)
unfolding certificate_of
choose_verifier w scram_verifier (some source) pem n = certificate_of w pem >>= λ certificate. ok (
    some (record {
      certificate = certificate;
      mock_secret = w.mock_secret;
      mock_iterations = saturate_u32 n;
    }))
choose_verifier w scram_verifier none pem n = ok none
choose_verifier w trust auth pem n = ok none
choose_verifier w cleartext auth pem n = ok none
choose_verifier w scram auth pem n = ok none

-- `serve` up to the handlers' configuration; the acceptor goes to the accept loop.
unfoldable pub serve_config : World → Arguments → Result PyErr HandlerConfig
unfolding check_addr choose_method check_iterations choose_tls choose_verifier value_error
serve_config w a = value_error (check_addr w a.addr) >>= λ _.
    value_error (choose_method w (is_some a.auth) a.auth_method) >>= λ method.
    value_error (check_iterations a.scram_iterations) >>= λ _.
    choose_tls w a.tls_cert a.tls_key a.require_tls >>= λ pem.
    value_error (choose_verifier w method a.auth pem a.scram_iterations) >>= λ verifier.
    ok (record {
      auth = a.auth;
      auth_method = method;
      require_tls = a.require_tls;
      scram_iterations = a.scram_iterations;
      tls_certificate_pem = pem;
      session_factory = a.session_factory;
      scram_verifier = verifier;
    })

-- `PyStartupInner`, without pgwire's parts of the handlers; the verifier handler with its factory.
pub data PyStartupInner : Type 0 where
  noop : PyStartupInner
  cleartext_password : Py → PyStartupInner
  scram_password : Py → ℕ → Option Bytes → PyStartupInner
  verifier : ScramVerifierConfig → Option Py → PyStartupInner

-- `configure_certificate(certificate)?` and the handler.
abbrev pub scram_configured : Py → ℕ → Bytes → PgWireResult (Unit {0}) → Ending PyStartupInner
scram_configured auth n pem (ok v) = done (scram_password auth n (some pem))
scram_configured auth n pem (err e) = failed e

unfoldable pub build_scram :
    (Bytes → PgWireResult (Unit {0})) → ℕ → Option Bytes → Option Py → Ending PyStartupInner
build_scram configure n pem none = panicked
build_scram configure n none (some auth) = done (scram_password auth n none)
build_scram configure n (some pem) (some auth) = scram_configured auth n pem (configure pem)

-- `HandlerConfig::build`, over pgwire's `configure_certificate`; it panics where `expect` does.
unfoldable pub build : (Bytes → PgWireResult (Unit {0})) → HandlerConfig → Ending PyStartupInner
unfolding build_scram
build configure c = elim c.auth_method [
  | trust ↦ done noop
  | cleartext ↦ elim c.auth [ none ↦ panicked | some auth ↦ done (cleartext_password auth) ]
  | scram ↦ build_scram configure c.scram_iterations c.tls_certificate_pem c.auth
  | scram_verifier ↦ elim c.scram_verifier [
    | none ↦ panicked
    | some config ↦ done (verifier config c.session_factory)
  ]
]
