-- ===== src/Scram/Exchange/Xor.antt =====
-- The exclusive or of src/scram_verifier.rs undoes itself on bytes.
use pywire.Base.{
  ℕ, zero, suc, ◌<◌, ◌≡◌, refl, ap, Bool, true, false, ◌&&◌, if◌then◌else◌, inl, inr, Bool-cases,
  [], ◌∷◌, arith, length, bit_xor, ltb, ◌==◌,
}
use mathlib.Core.Path.{ap₂}
use pywire.Scram.Crypto.{Bytes, IsBytes}
use pywire.Scram.Exchange.{xor}

-- A test that passes at every number under a bound.
passes : (ℕ → Bool) → ℕ → Bool
passes test zero = true
passes test (suc bound) = if test bound then passes test bound else false

passes-at : (test : ℕ → Bool) (bound i : ℕ) → i < bound → passes test bound ≡ true → test i ≡ true
unfolding passes
passes-at test zero i below h = absurd (omega arith)
passes-at test (suc bound) i below h = elim (Bool-cases (i == bound)) [
  | inl last ↦ ground (arith, h, last)
  | inr before ↦ passes-at test bound i (ground (arith, before, below)) (ground (arith, h))
]

-- What is checked of a pair of bytes: the second undoes itself, and the result is a byte.
abbrev undoes : ℕ → ℕ → Bool
undoes k s = (bit_xor (bit_xor k s) s == k) && ltb (bit_xor k s) 256

all_pairs : passes (λ k. passes (undoes k) 256) 256 ≡ true
unfolding passes
all_pairs = refl

undoes-bytes : (k s : ℕ) → k < 256 → s < 256 → undoes k s ≡ true
undoes-bytes k s hk hs =
    passes-at (undoes k) 256 s hs (passes-at (λ k. passes (undoes k) 256) 256 k hk all_pairs)

bit_xor_twice : (k s : ℕ) → k < 256 → s < 256 → bit_xor (bit_xor k s) s ≡ k
bit_xor_twice k s hk hs = ground (arith, undoes-bytes k s hk hs)

bit_xor-lt : (k s : ℕ) → k < 256 → s < 256 → bit_xor k s < 256
bit_xor-lt k s hk hs = ground (arith, undoes-bytes k s hk hs)

pub xor-IsBytes : (k s : Bytes) → IsBytes k → IsBytes s → IsBytes (xor k s)
unfolding xor
xor-IsBytes [] s hk hs = tt
xor-IsBytes (a ∷ k) [] hk hs = tt
xor-IsBytes (a ∷ k) (b ∷ s) hk hs = (bit_xor-lt a b hk.0 hs.0, xor-IsBytes k s hk.1 hs.1)

-- The server recovers the client key from the proof that the client made of it.
pub xor_twice : (k s : Bytes) → length k ≡ length s → IsBytes k → IsBytes s → xor (xor k s) s ≡ k
unfolding xor
xor_twice [] s e hk hs = refl
xor_twice (a ∷ k) [] e hk hs = absurd (omega arith)
xor_twice (a ∷ k) (b ∷ s) e hk hs =
    ap₂ (λ x y. x ∷ y) (bit_xor_twice a b hk.0 hs.0) (xor_twice k s (omega arith) hk.1 hs.1)

pub length-xor : (k s : Bytes) → length k ≡ length s → length (xor k s) ≡ length k
unfolding xor
length-xor [] s e = refl
length-xor (a ∷ k) [] e = omega arith
length-xor (a ∷ k) (b ∷ s) e = ap suc (length-xor k s (omega arith))
