-- ===== src/Server/Tls.antt =====
-- `load_tls` of src/server.rs. The file system, the parsers of certificates and keys, and rustls are
-- parameters; an error of theirs is its text.
use Prim.Native.String.{◌++◌ as str_append}
use pywire.Base.{List, [], ◌∷◌, String, Result, ok, err, ◌>>=◌}
use pywire.Error.Classes.{PyErr}
use pywire.Error.Raise.{value_error, os_error}
use pywire.Scram.Crypto.{Bytes}

-- `ServerConfig` of rustls, as far as the code sets it.
pub record ServerConfig : Type 0 where
  pub certificates : List Bytes
  pub key : Bytes
  pub alpn_protocols : List String

-- `std::fs::read`, `CertificateDer::pem_file_iter`, `PrivateKeyDer::from_pem_slice`, the builder up
-- to `with_single_cert`, and `{:?}` of a path.
pub record TlsCrates : Type 0 where
  pub read : String → Result String Bytes
  pub pem_file_iter : String → Result String (List (Result String Bytes))
  pub from_pem_slice : Bytes → Result String Bytes
  pub with_single_cert : List Bytes → Bytes → Result String ServerConfig
  pub quoted : String → String

-- `collect::<Result<Vec<_>, _>>()`: all of them, or the first error.
unfoldable pub collect {ℓ} : {A : Type ℓ} → List (Result String A) → Result String (List A)
collect [] = ok []
collect (err e ∷ rest) = err e
collect (ok a ∷ rest) = collect rest >>= λ items. ok (a ∷ items)

-- `format!("read TLS … {path:?}: {error}")`
abbrev pub read_text : TlsCrates → String → String → String → String
read_text k what path error =
    str_append "read TLS "
      (str_append what (str_append " " (str_append (k.quoted path) (str_append ": " error))))

-- `load_tls`: the acceptor by its configuration, and the text of the certificate.
unfoldable pub load_tls : TlsCrates → String → String → Result PyErr (ServerConfig × Bytes)
unfolding value_error os_error collect
load_tls k cert_path key_path = do
  certificate_pem ← os_error (read_text k "certificate" cert_path) (k.read cert_path)
  listed ← value_error (k.pem_file_iter cert_path)
  certificates ← value_error (collect listed)
  key_pem ← os_error (read_text k "key" key_path) (k.read key_path)
  key ← value_error (k.from_pem_slice key_pem)
  config ← value_error (k.with_single_cert certificates key)
  ok (record config { alpn_protocols = "postgresql" ∷ [] }, certificate_pem)
