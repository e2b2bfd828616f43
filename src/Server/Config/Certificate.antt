-- ===== src/Server/Config/Certificate.antt =====
-- The configuration of the handler of stored verifiers, and the certificate, that `serve` of
-- src/server.rs makes.
use pywire.Base.{
  ℕ, ◌≡◌, refl, sym, ap, ◌∙◌, Bool, Option, none, some, arith, String, ok, inl, inr, Result-cases,
  is_some,
}
use pywire.Query.Response.{Py}
use pywire.Scram.Crypto.{Bytes}
use pywire.Startup.Scram.{ScramVerifierConfig}
use pywire.Scram.Certificate.{EndPoint, compute_cert_signature, compute_cert_signature-iff-EndPoint}
use pywire.Error.Raise.{value_error, os_error}
use pywire.Server.Tls.{TlsCrates, ServerConfig, collect, load_tls}
use pywire.Server.Config.{
  scram_verifier, World, saturate_u32, certificate_of, choose_tls, choose_verifier,
}

pub verifier_given :
    (w : World) (source : Py) (pem : Option Bytes) (n : ℕ) (v : Option ScramVerifierConfig)
    → choose_verifier w scram_verifier (some source) pem n ≡ ok v
    → (config : ScramVerifierConfig) × (v ≡ some config)
unfolding choose_verifier
verifier_given w source pem n none h = elim (Result-cases (certificate_of w pem)) [
  | inr (x, e) ↦ absurd (ground (arith, e))
  | inl (s, e) ↦ absurd (ground (arith, e))
]
verifier_given w source pem n (some config) h = (config, refl)

-- What the configuration was made of.
pub verifier_made :
    (w : World) (auth : Option Py) (pem : Option Bytes) (n : ℕ) (config : ScramVerifierConfig)
    → choose_verifier w scram_verifier auth pem n ≡ ok (some config)
    → (certificate_of w pem ≡ ok config.certificate) × (config.mock_iterations ≡ saturate_u32 n)
unfolding choose_verifier
verifier_made w none pem n config h = absurd (ground (arith, h))
verifier_made w (some source) pem n config h = elim (Result-cases (certificate_of w pem)) [
  | inr (x, f) ↦ absurd (ground (arith, f, h))
  | inl (certificate, f) ↦
      let made : record {
        certificate = certificate;
        mock_secret = w.mock_secret;
        mock_iterations = saturate_u32 n;
      }
          ≡ config =
        ground (arith, f, h) in
      (
        f ∙ ap (λ (c : ScramVerifierConfig). ok c.certificate) made,
        sym (ap (λ (c : ScramVerifierConfig). c.mock_iterations) made),
      )
]

-- With a certificate there is data to bind to, and it is the certificate's.
pub certificate_bound :
    (w : World) (pem : Bytes) (certificate : Option Bytes)
    → certificate_of w (some pem) ≡ ok certificate
    → (d : Bytes) × (certificate ≡ some d) × EndPoint w.crates pem d
unfolding certificate_of
certificate_bound w pem certificate h = elim (Result-cases (compute_cert_signature w.crates pem)) [
  | inr (x, f) ↦ absurd (ground (arith, f, h))
  | inl (d, f) ↦ (d, ground (arith, f, h), (compute_cert_signature-iff-EndPoint w.crates pem d).0 f)
]

pub certificate_unbound :
    (w : World) (certificate : Option Bytes)
    → certificate_of w none ≡ ok certificate
    → certificate ≡ none
unfolding certificate_of
certificate_unbound w certificate h = ground (arith, h)

-- The text of the certificate is that of the file.
load_tls-read :
    (k : TlsCrates) (cert key : String) (config : ServerConfig) (pem : Bytes)
    → load_tls k cert key ≡ ok (config, pem)
    → k.read cert ≡ ok pem
unfolding load_tls value_error os_error
load_tls-read k cert key config pem h = elim (Result-cases (k.read cert)) [
  | inr (x, e) ↦ absurd (ground (arith, e, h))
  | inl (text, e) ↦ elim (Result-cases (k.pem_file_iter cert)) [
    | inr (x, f) ↦ absurd (ground (arith, e, f, h))
    | inl (listed, f) ↦ elim (Result-cases (collect listed)) [
      | inr (x, g) ↦ absurd (ground (arith, e, f, g, h))
      | inl (certificates, g) ↦ elim (Result-cases (k.read key)) [
        | inr (x, i) ↦ absurd (ground (arith, e, f, g, i, h))
        | inl (key_pem, i) ↦ elim (Result-cases (k.from_pem_slice key_pem)) [
          | inr (x, j) ↦ absurd (ground (arith, e, f, g, i, j, h))
          | inl (private_key, j) ↦
              elim (Result-cases (k.with_single_cert certificates private_key)) [
                | inr (x, l) ↦ absurd (ground (arith, e, f, g, i, j, l, h))
                | inl (c, l) ↦ e ∙ ap ok (ground (arith, e, f, g, i, j, l, h))
              ]
        ]
      ]
    ]
  ]
]

-- TLS is served exactly with a certificate, whose text is that of its file.
pub tls_chosen :
    (w : World) (cert key : Option String) (required : Bool) (pem : Option Bytes)
    → choose_tls w cert key required ≡ ok pem
    → (is_some pem ≡ is_some cert)
      × ((p : Bytes)
          → pem ≡ some p
          → (path : String) × (cert ≡ some path) × (w.tls.read path ≡ ok p))
unfolding choose_tls value_error
tls_chosen w (some cert) (some key) required pem h = elim (Result-cases (load_tls w.tls cert key)) [
  | inr (x, e) ↦ absurd (ground (arith, e))
  | inl ((config, text), e) ↦
      let made : pem ≡ some text = ground (arith, e) in
      (
        ap is_some made,
        λ p q. (
          cert,
          refl,
          load_tls-read w.tls cert key config text e ∙ ap ok (ground (arith, made, q)),
        ),
      )
]
tls_chosen w none none required pem h =
    let made : pem ≡ none = ground (arith, h) in
    (ap is_some made, λ p q. absurd (ground (arith, made, q)))
tls_chosen w (some cert) none required pem h = absurd (ground arith)
tls_chosen w none (some key) required pem h = absurd (ground arith)
