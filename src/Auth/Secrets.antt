-- ===== src/Auth/Secrets.antt =====
-- What the `__repr__` of the credentials in src/auth.rs and src/scram_verifier.rs gives away.
use pywire.Base.{
  ◌<◌, ◌^◌, ◌≡◌, ◌↔◌, refl, ap, Bool, true, false, Option, none, some, [], ◌∷◌, ◌++◌, arith, Text,
  codes, length,
}
use pywire.Auth.{PyPassword}
use pywire.Auth.Repr.{salted, password_repr}
use pywire.Scram.Crypto.{Bytes}
use pywire.Scram.Verifier.{Verifier}
use pywire.Scram.Verifier.Repr.{verifier_repr}
use pywire.Debug.Decimal.{decimal-prefix}
use pywire.Debug.Quoted.{append-cancel, first}

abbrev pub is_salted : Option Bytes → Bool
is_salted none = false
is_salted (some salt) = true

salted-prefix :
    (s t : Option Bytes) (a b : Text)
    → salted s ++ a ≡ salted t ++ b
    → (is_salted s ≡ is_salted t) × (a ≡ b)
unfolding salted
salted-prefix none none a b h = (refl, append-cancel (codes "cleartext") a b h)
salted-prefix none (some t) a b h = absurd (omega (arith, ap first h))
salted-prefix (some s) none a b h = absurd (omega (arith, ap first h))
salted-prefix (some s) (some t) a b h = (refl, append-cancel (codes "salted") a b h)

salted-eq : (s t : Option Bytes) → is_salted s ≡ is_salted t → salted s ≡ salted t
unfolding salted
salted-eq none none h = refl
salted-eq none (some t) h = cc
salted-eq (some s) none h = cc
salted-eq (some s) (some t) h = refl

-- The `__repr__` of two passwords of less than 2^32 bytes is the same exactly where both have a salt
-- or neither has, and the passwords are equally long: it tells that much of a password, and nothing
-- of its bytes or its salt.
pub password_repr_iff :
    (p q : PyPassword)
    → length p.password < 2 ^ 32
    → length q.password < 2 ^ 32
    → (password_repr p ≡ password_repr q)
      ↔ ((is_salted p.salt ≡ is_salted q.salt) × (length p.password ≡ length q.password))
unfolding password_repr
password_repr_iff p q hp hq = (
  λ h.
      let (salts, behind) =
        salted-prefix p.salt q.salt _ _ (append-cancel (codes "Password(<") _ _ h) in
      (
        salts,
        (decimal-prefix (length p.password) (length q.password) b'-' _ _ hp hq refl
            (append-cancel (b' ' ∷ []) _ _ behind)).0,
      ),
  λ h. rw (salted-eq p.salt q.salt h.0, h.1) refl,
)

-- The `__repr__` of two stored verifiers whose counts and salt lengths are below 2^32 is the same
-- exactly where the iteration counts are equal and the salts are equally long: it tells nothing of
-- the keys or the bytes of the salt.
pub verifier_repr_iff :
    (v w : Verifier)
    → v.iterations < 2 ^ 32
    → w.iterations < 2 ^ 32
    → length v.salt < 2 ^ 32
    → length w.salt < 2 ^ 32
    → (verifier_repr v ≡ verifier_repr w)
      ↔ ((v.iterations ≡ w.iterations) × (length v.salt ≡ length w.salt))
unfolding verifier_repr
verifier_repr_iff v w hv hw sv sw = (
  λ h.
      let (counts, behind) =
        decimal-prefix v.iterations w.iterations b',' _ _ hv hw refl
          (append-cancel (codes "ScramVerifier(iterations=") _ _ h) in
      (
        counts,
        (decimal-prefix (length v.salt) (length w.salt) b'-' _ _ sv sw refl
            (append-cancel (codes " <") _ _ behind)).0,
      ),
  λ h. rw (h.0, h.1) refl,
)
