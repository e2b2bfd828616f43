-- ===== src/Server/Config/Sound.antt =====
-- What a configuration that `serve` of src/server.rs accepts promises.
use pywire.Base.{
  ℕ, ◌≡◌, ◌≢◌, refl, sym, ap, subst, ◌∙◌, ◌≤◌, Bool, true, false, Option, none, some, arith, String,
  str_eq, ltb, ok, err, inl, inr, Bool-cases, Option-cases, Result-cases, is_some,
}
use pywire.Error.PgWire.{PgWireResult}
use pywire.Query.Response.{Py}
use pywire.Scram.Crypto.{Bytes}
use pywire.Startup.Scram.{ScramVerifierConfig}
use pywire.Step.{Ending, done, panicked}
use pywire.Error.Raise.{value_error}
use pywire.Server.Tls.{load_tls}
use pywire.Scram.Certificate.{EndPoint}
use pywire.Server.Config.{
  check_addr, AuthMethod, trust, cleartext, scram, scram_verifier, Arguments, HandlerConfig, World,
  choose_method, check_iterations, choose_tls, choose_verifier, serve_config, PyStartupInner, noop,
  cleartext_password, scram_password, verifier, scram_configured, build_scram, build, saturate_u32,
  certificate_of,
}
use pywire.Server.Config.Building.{Returns, scram-Returns, scram_checks, scram_given}
use pywire.Server.Config.Certificate.{
  verifier_given, verifier_made, certificate_bound, certificate_unbound, tls_chosen,
}

-- What the handlers of a configuration are, by the arguments it was made from.
pub record Sound (w : World) (a : Arguments) (configure : Bytes → PgWireResult (Unit {0}))
    (c : HandlerConfig) : Type 0 where
  pub builds : Returns (build configure c)
  pub checks_password :
      is_some a.auth ≡ true → str_eq a.auth_method "trust" ≡ false → build configure c ≢ done noop
  pub scram_password :
      (auth : Py) (n : ℕ) (pem : Option Bytes)
      → build configure c ≡ done (scram_password auth n pem)
      → (4096 ≤ n) × (n ≡ a.scram_iterations) × (pem ≡ c.tls_certificate_pem)
  pub mock_iterations :
      (config : ScramVerifierConfig) (factory : Option Py)
      → build configure c ≡ done (verifier config factory)
      → 4096 ≤ config.mock_iterations
  pub require_tls : c.require_tls ≡ a.require_tls
  pub tls : c.require_tls ≡ true → (pem : Bytes) × (c.tls_certificate_pem ≡ some pem)
  pub serves_tls : is_some c.tls_certificate_pem ≡ is_some a.tls_cert
  pub certificate_read :
      (pem : Bytes)
      → c.tls_certificate_pem ≡ some pem
      → (path : String) × (a.tls_cert ≡ some path) × (w.tls.read path ≡ ok pem)
  pub bound :
      (config : ScramVerifierConfig) (factory : Option Py) (pem : Bytes)
      → build configure c ≡ done (verifier config factory)
      → c.tls_certificate_pem ≡ some pem
      → (d : Bytes) × (config.certificate ≡ some d) × EndPoint w.crates pem d
  pub unbound :
      (config : ScramVerifierConfig) (factory : Option Py)
      → build configure c ≡ done (verifier config factory)
      → c.tls_certificate_pem ≡ none
      → config.certificate ≡ none

abbrev needs_source : AuthMethod → Bool
needs_source trust = false
needs_source cleartext = true
needs_source scram = true
needs_source scram_verifier = true

method_given :
    (w : World) (g : Bool) (m : String) (method : AuthMethod)
    → choose_method w g m ≡ ok method
    → needs_source method ≡ true
    → g ≡ true
unfolding choose_method
method_given w true m method h n = refl
method_given w false m trust h n = absurd (ground arith)
method_given w false m cleartext h n = absurd (ground arith)
method_given w false m scram h n = absurd (ground arith)
method_given w false m scram_verifier h n = absurd (ground arith)

not_trust : (w : World) (m : String) → choose_method w true m ≡ ok trust → str_eq m "trust" ≡ true
unfolding choose_method
not_trust w m h = ground arith

given_some : (o : Option Py) → is_some o ≡ true → (p : Py) × (o ≡ some p)
given_some none h = absurd (ground arith)
given_some (some p) h = (p, refl)

tls_given :
    (w : World) (cert key : Option String) (required : Bool) (pem : Option Bytes)
    → choose_tls w cert key required ≡ ok pem
    → required ≡ true
    → (p : Bytes) × (pem ≡ some p)
unfolding choose_tls value_error
tls_given w (some cert) (some key) required pem h r =
    elim (Result-cases (load_tls w.tls cert key)) [
      | inl ((acceptor, p), e) ↦ (p, ground (arith, e))
      | inr (x, e) ↦ absurd (ground (arith, e))
    ]
tls_given w none none required pem h r = absurd (ground arith)
tls_given w (some cert) none required pem h r = absurd (ground arith)
tls_given w none (some key) required pem h r = absurd (ground arith)

module _ (w : World) (a : Arguments) (configure : Bytes → PgWireResult (Unit {0}))
    (pem : Option Bytes) (v : Option ScramVerifierConfig) where
  abbrev config_of : AuthMethod → HandlerConfig
  config_of method = record {
    auth = a.auth;
    auth_method = method;
    require_tls = a.require_tls;
    scram_iterations = a.scram_iterations;
    tls_certificate_pem = pem;
    session_factory = a.session_factory;
    scram_verifier = v;
  }

  config-builds :
      (method : AuthMethod)
      → choose_method w (is_some a.auth) a.auth_method ≡ ok method
      → choose_verifier w method a.auth pem a.scram_iterations ≡ ok v
      → Returns (build configure (config_of method))
  unfolding build
  config-builds trust h k = tt
  config-builds cleartext h k =
      let (p, e) =
        given_some a.auth (method_given w (is_some a.auth) a.auth_method cleartext h refl) in
      subst
        (λ o. Returns (elim o as (λ _. Ending PyStartupInner) [
          | none ↦ panicked
          | some auth ↦ done (cleartext_password auth)
        ]))
        (sym e) tt
  config-builds scram h k =
      let (p, e) = given_some a.auth (method_given w (is_some a.auth) a.auth_method scram h refl) in
      subst (λ o. Returns (build_scram configure a.scram_iterations pem o)) (sym e)
        (scram-Returns configure a.scram_iterations pem p)
  config-builds scram_verifier h k =
      let (p, e) =
        given_some a.auth (method_given w (is_some a.auth) a.auth_method scram_verifier h refl) in
      let (config, f) =
        verifier_given w p pem a.scram_iterations v
          (ap (λ o. choose_verifier w scram_verifier o pem a.scram_iterations) (sym e) ∙ k) in
      subst
        (λ o. Returns (elim o as (λ _. Ending PyStartupInner) [
          | none ↦ panicked
          | some c ↦ done (verifier c a.session_factory)
        ]))
        (sym f) tt

  config-checks :
      (method : AuthMethod)
      → choose_method w (is_some a.auth) a.auth_method ≡ ok method
      → is_some a.auth ≡ true
      → str_eq a.auth_method "trust" ≡ false
      → build configure (config_of method) ≢ done noop
  unfolding build
  config-checks trust h g t b = absurd (
      ground
        (arith, not_trust w a.auth_method (ap (λ x. choose_method w x a.auth_method) (sym g) ∙ h)))
  config-checks cleartext h g t b =
      let (p, e) = given_some a.auth g in absurd (ground (arith, e, b))
  config-checks scram h g t b = scram_checks configure a.scram_iterations pem a.auth b
  config-checks scram_verifier h g t b = elim (Option-cases v) [
    | inl e ↦ absurd (ground (arith, e, b))
    | inr (c, e) ↦ absurd (ground (arith, e, b))
  ]

  -- Only the method of stored verifiers builds their handler, and with the configuration of `serve`.
  verifier_built :
      (method : AuthMethod) (config : ScramVerifierConfig) (factory : Option Py)
      → build configure (config_of method) ≡ done (verifier config factory)
      → (method ≡ scram_verifier) × (v ≡ some config)
  unfolding build build_scram
  verifier_built trust config factory h = absurd (ground (arith, h))
  verifier_built cleartext config factory h = elim (Option-cases a.auth) [
    | inl e ↦ absurd (ground (arith, e, h))
    | inr (p, e) ↦ absurd (ground (arith, e, h))
  ]
  verifier_built scram config factory h = absurd (no_verifier a.auth pem h)
    where
      of_result :
          (p : Py) (b : Bytes) (r : PgWireResult (Unit {0}))
          → scram_configured p a.scram_iterations b r ≢ done (verifier config factory)
      of_result p b (ok u) g = absurd (ground (arith, g))
      of_result p b (err e) g = absurd (ground (arith, g))

      no_verifier :
          (o : Option Py) (pem : Option Bytes)
          → build_scram configure a.scram_iterations pem o ≢ done (verifier config factory)
      no_verifier none pem g = absurd (ground (arith, g))
      no_verifier (some p) none g = absurd (ground (arith, g))
      no_verifier (some p) (some b) g = of_result p b (configure b) g
  verifier_built scram_verifier config factory h = (
    refl,
    elim (Option-cases v) [
      | inl e ↦ absurd (ground (arith, e, h))
      | inr (c, e) ↦ ground (arith, e, h)
    ],
  )

  config-made :
      (method : AuthMethod) (config : ScramVerifierConfig) (factory : Option Py)
      → choose_verifier w method a.auth pem a.scram_iterations ≡ ok v
      → build configure (config_of method) ≡ done (verifier config factory)
      → (certificate_of w pem ≡ ok config.certificate)
        × (config.mock_iterations ≡ saturate_u32 a.scram_iterations)
  config-made method config factory k b =
      let (m, o) = verifier_built method config factory b in
      verifier_made w a.auth pem a.scram_iterations config
        (ap (λ x. choose_verifier w x a.auth pem a.scram_iterations) (sym m) ∙ k ∙ ap ok o)

  config-bound :
      (method : AuthMethod) (config : ScramVerifierConfig) (factory : Option Py) (p : Bytes)
      → choose_verifier w method a.auth pem a.scram_iterations ≡ ok v
      → build configure (config_of method) ≡ done (verifier config factory)
      → pem ≡ some p
      → (d : Bytes) × (config.certificate ≡ some d) × EndPoint w.crates p d
  config-bound method config factory p k b e =
      certificate_bound w p config.certificate
        (ap (certificate_of w) (sym e) ∙ (config-made method config factory k b).0)

  config-unbound :
      (method : AuthMethod) (config : ScramVerifierConfig) (factory : Option Py)
      → choose_verifier w method a.auth pem a.scram_iterations ≡ ok v
      → build configure (config_of method) ≡ done (verifier config factory)
      → pem ≡ none
      → config.certificate ≡ none
  config-unbound method config factory k b e =
      certificate_unbound w config.certificate
        (ap (certificate_of w) (sym e) ∙ (config-made method config factory k b).0)

  saturated : 4096 ≤ a.scram_iterations → 4096 ≤ saturate_u32 a.scram_iterations
  saturated h = ground arith

  config-mock :
      (method : AuthMethod) (config : ScramVerifierConfig) (factory : Option Py)
      → choose_verifier w method a.auth pem a.scram_iterations ≡ ok v
      → build configure (config_of method) ≡ done (verifier config factory)
      → 4096 ≤ a.scram_iterations
      → 4096 ≤ config.mock_iterations
  config-mock method config factory k b h =
      subst (λ n. 4096 ≤ n) (sym (config-made method config factory k b).1) (saturated h)

  -- The handler of SCRAM over passwords has the count and the certificate of `serve`.
  scram_built :
      (method : AuthMethod) (auth : Py) (n : ℕ) (p : Option Bytes)
      → build configure (config_of method) ≡ done (scram_password auth n p)
      → (n ≡ a.scram_iterations) × (p ≡ pem)
  unfolding build
  scram_built trust auth n p h = absurd (ground (arith, h))
  scram_built cleartext auth n p h = elim (Option-cases a.auth) [
    | inl e ↦ absurd (ground (arith, e, h))
    | inr (source, e) ↦ absurd (ground (arith, e, h))
  ]
  scram_built scram auth n p h = scram_given configure a.scram_iterations pem a.auth auth n p h
  scram_built scram_verifier auth n p h = elim (Option-cases v) [
    | inl e ↦ absurd (ground (arith, e, h))
    | inr (c, e) ↦ absurd (ground (arith, e, h))
  ]

-- A configuration that `serve` accepts: `build` never panics at its `expect`s; with an auth source
-- and a method that is not "trust" the handler is never the one that lets everybody in. The handler of
-- SCRAM over passwords gets the number of iterations that was asked for, which is at least 4096, and
-- the certificate; that of stored verifiers at least 4096 iterations for its mock, while a stored
-- verifier has its own count. TLS is required as asked and only with a certificate, which is there
-- exactly if one was given and is the text of its file. With a certificate the handler of stored
-- verifiers has the data of RFC 5929 for it to bind a channel to, and none without.
pub serve_config-Sound :
    (w : World) (a : Arguments) (configure : Bytes → PgWireResult (Unit {0})) (c : HandlerConfig)
    → serve_config w a ≡ ok c
    → Sound w a configure c
unfolding serve_config check_iterations value_error
serve_config-Sound w a configure c h = elim (Result-cases (check_addr w a.addr)) [
  | inr (x, d) ↦ absurd (ground (arith, d))
  | inl (v, d) ↦ elim (Result-cases (choose_method w (is_some a.auth) a.auth_method)) [
    | inr (x, e) ↦ absurd (ground (arith, d, e))
    | inl (method, e) ↦ elim (Bool-cases (ltb a.scram_iterations 4096)) [
      | inl i ↦ absurd (ground (arith, d, e, i))
      | inr i ↦ elim (Result-cases (choose_tls w a.tls_cert a.tls_key a.require_tls)) [
        | inr (x, f) ↦ absurd (ground (arith, d, e, i, f))
        | inl (pem, f) ↦
            elim (Result-cases (choose_verifier w method a.auth pem a.scram_iterations)) [
              | inr (x, g) ↦ absurd (ground (arith, d, e, i, f, g))
              | inl (v, g) ↦
                  let same : config_of w a configure pem v method ≡ c =
                    ground (arith, d, e, i, f, g) in
                  subst (Sound w a configure) same (record {
                    builds = config-builds w a configure pem v method e g;
                    checks_password = config-checks w a configure pem v method e;
                    scram_password = λ auth n p b.
                        let (count, same) = scram_built w a configure pem v method auth n p b in
                        (subst (λ x. 4096 ≤ x) (sym count) (ground (arith, i)), count, same);
                    mock_iterations = λ config factory b.
                        config-mock w a configure pem v method config factory g b
                          (ground (arith, i));
                    require_tls = refl;
                    serves_tls = (tls_chosen w a.tls_cert a.tls_key a.require_tls pem f).0;
                    certificate_read = (tls_chosen w a.tls_cert a.tls_key a.require_tls pem f).1;
                    bound = λ config factory p b k.
                        config-bound w a configure pem v method config factory p g b k;
                    unbound = λ config factory b k.
                        config-unbound w a configure pem v method config factory g b k;
                    tls = λ r. tls_given w a.tls_cert a.tls_key a.require_tls pem f r;
                  })
            ]
      ]
    ]
  ]
]
