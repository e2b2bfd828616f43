-- ===== src/Scram/Verifier/RoundTrip.antt =====
-- The text form of a stored verifier, written and read back: src/scram_verifier.rs.
use pywire.Base.{
  ℕ, ◌<◌, ◌^◌, ◌≡◌, refl, ap, ◌∙◌, some, ◌∷◌, ◌++◌, arith, Text, length, ok, inl, inr, Option-cases,
}
use pywire.Scram.Crypto.{Bytes, IsBytes, Crypto, IsLawful}
use pywire.Scram.Split.{strip_prefix, split_once}
use pywire.Scram.Split.Laws.{
  strip_prefix-append, strip_prefix-eq_some, split_once-eq_some, split_once-append, Lacks,
  Lacks-append,
}
use pywire.Scram.Decimal.{
  parse_u32, format_u32, parse_u32-format_u32, format_u32-Lacks, parse_u32-lt,
}
use pywire.Scram.Verifier.{Verifier, new, scheme, fields, parse}

-- What PostgreSQL keeps: a positive count that fits 32 bits, some salt and two SHA-256 values.
pub record IsValid (v : Verifier) : Type 0 where
  pub positive : 0 < v.iterations
  pub fits : v.iterations < 2 ^ 32
  pub salted : 0 < length v.salt
  pub stored_key_32 : length v.stored_key ≡ 32
  pub server_key_32 : length v.server_key ≡ 32

pub new-IsValid :
    (n : ℕ) (s k v : Bytes) {w : Verifier} → n < 2 ^ 32 → new n s k v ≡ ok w → IsValid w
unfolding new
new-IsValid n s k v fits h = ground arith

-- The text that four fields make: `SCRAM-SHA-256$<iterations>:<salt>$<StoredKey>:<ServerKey>`.
abbrev pub joined : Text → Text → Text → Text → Text
joined i s k v = scheme ++ ((i ++ (b':' ∷ s)) ++ (b'$' ∷ (k ++ (b':' ∷ v))))

-- The text that PostgreSQL keeps for a verifier, as the test of `parse` writes it.
unfoldable pub render : Crypto → Verifier → Text
render crypto v =
    joined (format_u32 v.iterations) (crypto.encode v.salt) (crypto.encode v.stored_key)
      (crypto.encode v.server_key)

fields-joined :
    (i s k v : Text)
    → Lacks b':' i
    → Lacks b'$' i
    → Lacks b'$' s
    → Lacks b':' k
    → fields (joined i s k v) ≡ some ((i, s), (k, v))
unfolding fields
fields-joined i s k v hi hd hs hk = ground (
  arith,
  strip_prefix-append scheme ((i ++ (b':' ∷ s)) ++ (b'$' ∷ (k ++ (b':' ∷ v)))),
  split_once-append b'$' (i ++ (b':' ∷ s)) (k ++ (b':' ∷ v))
      (Lacks-append b'$' i (b':' ∷ s) hd (refl, hs)),
  split_once-append b':' i s hi,
  split_once-append b':' k v hk,
)

new-eq_ok : (v : Verifier) → IsValid v → new v.iterations v.salt v.stored_key v.server_key ≡ ok v
unfolding new
new-eq_ok v h = ground arith

fields-render :
    (crypto : Crypto) (v : Verifier)
    → IsLawful crypto
    → fields (render crypto v)
      ≡ some (
        (format_u32 v.iterations, crypto.encode v.salt),
        (crypto.encode v.stored_key, crypto.encode v.server_key),
      )
unfolding render
fields-render crypto v laws =
    fields-joined _ _ _ _ (format_u32-Lacks b':' v.iterations refl)
      (format_u32-Lacks b'$' v.iterations refl) (laws.encode-Lacks_dollar v.salt)
      (laws.encode-Lacks_colon v.stored_key)

-- A valid verifier, written as PostgreSQL writes it, is read back as itself.
pub parse-render :
    (crypto : Crypto) (v : Verifier)
    → IsLawful crypto
    → IsValid v
    → IsBytes v.salt
    → IsBytes v.stored_key
    → IsBytes v.server_key
    → parse crypto (render crypto v) ≡ ok v
unfolding parse
parse-render crypto v laws valid bs bk bv =
    rw
      (
        fields-render crypto v laws,
        parse_u32-format_u32 v.iterations valid.fits,
        laws.decode-encode v.salt bs,
        laws.decode-encode v.stored_key bk,
        laws.decode-encode v.server_key bv,
      )
      (new-eq_ok v valid)

-- What a text was read from.
pub record Reads (crypto : Crypto) (text : Text) (v : Verifier) : Type 0 where
  pub iterations : Text
  pub salt : Text
  pub stored_key : Text
  pub server_key : Text
  pub text_eq : text ≡ joined iterations salt stored_key server_key
  pub iterations_eq : parse_u32 iterations ≡ some v.iterations
  pub salt_eq : crypto.decode salt ≡ some v.salt
  pub stored_key_eq : crypto.decode stored_key ≡ some v.stored_key
  pub server_key_eq : crypto.decode server_key ≡ some v.server_key

join_fields :
    (text rest params keys i s k v : Text)
    → strip_prefix scheme text ≡ some rest
    → split_once b'$' rest ≡ some (params, keys)
    → split_once b':' params ≡ some (i, s)
    → split_once b':' keys ≡ some (k, v)
    → text ≡ joined i s k v
join_fields text rest params keys i s k v he hd hp hk =
    strip_prefix-eq_some scheme text rest he
    ∙ ap (λ t. scheme ++ t)
        ((split_once-eq_some b'$' rest params keys hd).0
          ∙ ap (λ t. t ++ (b'$' ∷ keys)) (split_once-eq_some b':' params i s hp).0
          ∙ ap (λ t. (i ++ (b':' ∷ s)) ++ (b'$' ∷ t)) (split_once-eq_some b':' keys k v hk).0)

fields-eq_some : (text i s k v : Text) → fields text ≡ some ((i, s), (k, v)) → text ≡ joined i s k v
unfolding fields
fields-eq_some text i s k v h = elim (Option-cases (strip_prefix scheme text)) [
  | inl e ↦ absurd (ground arith)
  | inr (rest, e) ↦ elim (Option-cases (split_once b'$' rest)) [
    | inl e' ↦ absurd (ground arith)
    | inr ((params, keys), e') ↦
        join_fields text rest params keys i s k v e e'
          (ground
            (arith, Option-cases (split_once b':' params), Option-cases (split_once b':' keys)))
          (ground
            (arith, Option-cases (split_once b':' params), Option-cases (split_once b':' keys)))
  ]
]

read :
    (crypto : Crypto) (text : Text) (w : Verifier) (i s k v : Text) (n : ℕ) (ds dk dv : Bytes)
    → text ≡ joined i s k v
    → parse_u32 i ≡ some n
    → crypto.decode s ≡ some ds
    → crypto.decode k ≡ some dk
    → crypto.decode v ≡ some dv
    → new n ds dk dv ≡ ok w
    → IsValid w × Reads crypto text w
unfolding new
read crypto text w i s k v n ds dk dv he hn hs hk hv built = (
  new-IsValid n ds dk dv (parse_u32-lt i n hn) built,
  record {
    iterations = i;
    salt = s;
    stored_key = k;
    server_key = v;
    text_eq = he;
    iterations_eq = hn ∙ ap some (ground arith);
    salt_eq = hs ∙ ap some (ground arith);
    stored_key_eq = hk ∙ ap some (ground arith);
    server_key_eq = hv ∙ ap some (ground arith);
  },
)

-- A text that is accepted has the four fields of the format, each read as the code reads it, and
-- gives a valid verifier: no count of zero or beyond 32 bits, no empty salt, keys of 32 bytes.
pub parse_sound :
    (crypto : Crypto) (text : Text) (w : Verifier)
    → parse crypto text ≡ ok w
    → IsValid w × Reads crypto text w
unfolding parse
parse_sound crypto text w h = elim (Option-cases (fields text)) [
  | inl e ↦ absurd (ground arith)
  | inr (((i, s), (k, v)), e) ↦ elim (Option-cases (parse_u32 i)) [
    | inl e' ↦ absurd (ground arith)
    | inr (n, en) ↦ elim (Option-cases (crypto.decode s)) [
      | inl e' ↦ absurd (ground arith)
      | inr (ds, es) ↦ elim (Option-cases (crypto.decode k)) [
        | inl e' ↦ absurd (ground arith)
        | inr (dk, ek) ↦ elim (Option-cases (crypto.decode v)) [
          | inl e' ↦ absurd (ground arith)
          | inr (dv, ev) ↦
              let built : new n ds dk dv ≡ ok w = ground arith in
              read crypto text w i s k v n ds dk dv (fields-eq_some text i s k v e) en es ek ev
                built
        ]
      ]
    ]
  ]
]
