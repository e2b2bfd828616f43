-- ===== src/Scram/Certificate.antt =====
-- `compute_cert_signature` of src/scram_verifier.rs: the channel-binding data of the configured
-- certificate. The parser of certificates and the hash functions are crates, and parameters here.
use pywire.Base.{
  ◌≡◌, ◌↔◌, refl, ap, ◌∙◌, sym, Option, none, some, List, [], ◌∷◌, arith, String, Result, ok, err,
}
use pywire.Error.PgWire.{PgWireResult, api_error, unsupported_certificate_signature_algorithm}
use pywire.Scram.Crypto.{Bytes}

-- `SignatureAlgorithm` of `x509_certificate`: the variants that the code names, and any other by its
-- text.
pub data SignatureAlgorithm : Type 0 where
  rsa_sha1 rsa_sha256 ecdsa_sha256 rsa_sha384 ecdsa_sha384 rsa_sha512 : SignatureAlgorithm
  other : String → SignatureAlgorithm

-- The algorithms of `ring::digest` that the code picks from.
pub data Algorithm : Type 0 where
  sha256 sha384 sha512 : Algorithm

-- A parsed certificate: `signature_algorithm()`, which knows no name for some, and
-- `constructed_data()`.
pub record Certificate : Type 0 where
  pub signature_algorithm : Option SignatureAlgorithm
  pub constructed_data : Bytes

-- `CapturedX509Certificate::from_pem_multiple`, with an error by its text, and `digest::digest`.
pub record Crates : Type 0 where
  pub from_pem_multiple : Bytes → Result String (List Certificate)
  pub digest : Algorithm → Bytes → Bytes

-- The `match` on the algorithm.
unfoldable pub algorithm_for : Option SignatureAlgorithm → PgWireResult Algorithm
algorithm_for (some rsa_sha1) = ok sha256
algorithm_for (some rsa_sha256) = ok sha256
algorithm_for (some ecdsa_sha256) = ok sha256
algorithm_for (some rsa_sha384) = ok sha384
algorithm_for (some ecdsa_sha384) = ok sha384
algorithm_for (some rsa_sha512) = ok sha512
algorithm_for (some (other _)) = err unsupported_certificate_signature_algorithm
algorithm_for none = err unsupported_certificate_signature_algorithm

module _ (k : Crates) where
  unfoldable pub digest_with : Certificate → PgWireResult Algorithm → PgWireResult Bytes
  digest_with c (ok algorithm) = ok (k.digest algorithm c.constructed_data)
  digest_with c (err e) = err e

  unfoldable pub digest_first : Result String (List Certificate) → PgWireResult Bytes
  unfolding digest_with algorithm_for
  digest_first (err e) = err (api_error e)
  digest_first (ok []) = err unsupported_certificate_signature_algorithm
  digest_first (ok (c ∷ cs)) = digest_with c (algorithm_for c.signature_algorithm)

  -- `compute_cert_signature`.
  unfoldable pub compute_cert_signature : Bytes → PgWireResult Bytes
  unfolding digest_first
  compute_cert_signature pem = digest_first (k.from_pem_multiple pem)

-- The hash function that a signature is made with, and what RFC 5929 (4.1) has the client and the
-- server hash the certificate with: the same, but SHA-256 in place of MD5 and SHA-1.
pub data Hash : Type 0 where
  md5 sha1 sha2_256 sha2_384 sha2_512 : Hash

abbrev pub signed_with : SignatureAlgorithm → Option Hash
signed_with rsa_sha1 = some sha1
signed_with rsa_sha256 = some sha2_256
signed_with ecdsa_sha256 = some sha2_256
signed_with rsa_sha384 = some sha2_384
signed_with ecdsa_sha384 = some sha2_384
signed_with rsa_sha512 = some sha2_512
signed_with (other _) = none

abbrev pub end_point_hash : Hash → Algorithm
end_point_hash md5 = sha256
end_point_hash sha1 = sha256
end_point_hash sha2_256 = sha256
end_point_hash sha2_384 = sha384
end_point_hash sha2_512 = sha512

-- The data of `tls-server-end-point` for the first certificate of a file.
pub record EndPoint (k : Crates) (pem data' : Bytes) : Type 0 where
  pub certificate : Certificate
  pub others : List Certificate
  pub algorithm : SignatureAlgorithm
  pub hash : Hash
  pub parsed : k.from_pem_multiple pem ≡ ok (certificate ∷ others)
  pub signed : certificate.signature_algorithm ≡ some algorithm
  pub hashed : signed_with algorithm ≡ some hash
  pub digested : data' ≡ k.digest (end_point_hash hash) certificate.constructed_data

algorithm_for-ok :
    (o : Option SignatureAlgorithm) (a : Algorithm)
    → algorithm_for o ≡ ok a
    → (s : SignatureAlgorithm) × (h : Hash) × (o ≡ some s)
      × (signed_with s ≡ some h)
      × (a ≡ end_point_hash h)
unfolding algorithm_for
algorithm_for-ok (some rsa_sha1) a h = (rsa_sha1, sha1, refl, refl, ground (arith, h))
algorithm_for-ok (some rsa_sha256) a h = (rsa_sha256, sha2_256, refl, refl, ground (arith, h))
algorithm_for-ok (some ecdsa_sha256) a h = (ecdsa_sha256, sha2_256, refl, refl, ground (arith, h))
algorithm_for-ok (some rsa_sha384) a h = (rsa_sha384, sha2_384, refl, refl, ground (arith, h))
algorithm_for-ok (some ecdsa_sha384) a h = (ecdsa_sha384, sha2_384, refl, refl, ground (arith, h))
algorithm_for-ok (some rsa_sha512) a h = (rsa_sha512, sha2_512, refl, refl, ground (arith, h))
algorithm_for-ok (some (other _)) a h = absurd (ground (arith, h))
algorithm_for-ok none a h = absurd (ground (arith, h))

ok-algorithm_for :
    (s : SignatureAlgorithm) (h : Hash)
    → signed_with s ≡ some h
    → algorithm_for (some s) ≡ ok (end_point_hash h)
unfolding algorithm_for
ok-algorithm_for rsa_sha1 h e = cc
ok-algorithm_for rsa_sha256 h e = cc
ok-algorithm_for ecdsa_sha256 h e = cc
ok-algorithm_for rsa_sha384 h e = cc
ok-algorithm_for ecdsa_sha384 h e = cc
ok-algorithm_for rsa_sha512 h e = cc
ok-algorithm_for (other _) h e = absurd (ground (arith, e))

module _ (k : Crates) where
  digest_with-ok :
      (c : Certificate) (r : PgWireResult Algorithm) (d : Bytes)
      → digest_with k c r ≡ ok d
      → (a : Algorithm) × (r ≡ ok a) × (d ≡ k.digest a c.constructed_data)
  unfolding digest_with
  digest_with-ok c (ok a) d h = (a, refl, ground (arith, h))
  digest_with-ok c (err e) d h = absurd (ground (arith, h))

  digest_first-ok :
      (r : Result String (List Certificate)) (pem d : Bytes)
      → k.from_pem_multiple pem ≡ r
      → digest_first k r ≡ ok d
      → EndPoint k pem d
  unfolding digest_first
  digest_first-ok (err e) pem d p h = absurd (ground (arith, h))
  digest_first-ok (ok []) pem d p h = absurd (ground (arith, h))
  digest_first-ok (ok (c ∷ cs)) pem d p h =
      let (a, e, same) = digest_with-ok c (algorithm_for c.signature_algorithm) d h in
      let (s, hash, signed, hashed, a_is) = algorithm_for-ok c.signature_algorithm a e in
      record {
        certificate = c;
        others = cs;
        algorithm = s;
        hash = hash;
        parsed = p;
        signed = signed;
        hashed = hashed;
        digested = same ∙ ap (λ a. k.digest a c.constructed_data) a_is;
      }

  compute_sound : (pem d : Bytes) → compute_cert_signature k pem ≡ ok d → EndPoint k pem d
  unfolding compute_cert_signature
  compute_sound pem d h = digest_first-ok (k.from_pem_multiple pem) pem d refl h

  compute_complete : (pem d : Bytes) → EndPoint k pem d → compute_cert_signature k pem ≡ ok d
  unfolding compute_cert_signature digest_first digest_with
  compute_complete pem d p =
      ap (digest_first k) p.parsed
      ∙ ap (λ o. digest_with k p.certificate (algorithm_for o)) p.signed
      ∙ ap (digest_with k p.certificate) (ok-algorithm_for p.algorithm p.hash p.hashed)
      ∙ ap ok (sym p.digested)

  -- The channel-binding data is computed exactly for a file that the parser reads and whose first
  -- certificate is signed with one of the six algorithms, and it is then the hash of that certificate
  -- which RFC 5929 asks for: with the hash function of its signature, or SHA-256 in place of SHA-1.
  pub compute_cert_signature-iff-EndPoint :
      (pem d : Bytes) → (compute_cert_signature k pem ≡ ok d) ↔ EndPoint k pem d
  compute_cert_signature-iff-EndPoint pem d = (compute_sound pem d, compute_complete pem d)
