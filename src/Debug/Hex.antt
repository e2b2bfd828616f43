-- ===== src/Debug/Hex.antt =====
-- The hexadecimal digits of `\u{...}`, which src/ prints with `{:?}`, can be read back.
use pywire.Base.{
  ℕ, zero, suc, ◌+◌, ◌-◌, ◌*◌, ◌/◌, ◌%◌, ◌<◌, ◌≡◌, refl, ◌∙◌, true, false, [], ◌∷◌, ◌++◌, arith,
  Text, All-append, ltb, ◌==◌, if◌then◌else◌, Bool-cases, inl, inr,
}
use pywire.Debug.{hex_digit, hex_digits}
use pywire.Scram.Split.Laws.{Lacks}

abbrev hex_value : ℕ → ℕ
hex_value c = if ltb c b'a' then c - b'0' else c - b'a' + 10

unfoldable pub read_hex : ℕ → Text → ℕ
read_hex n [] = n
read_hex n (c ∷ s) = read_hex (n * 16 + hex_value c) s

read_hex-append :
    (n : ℕ) (s : Text) (c : ℕ) → read_hex n (s ++ (c ∷ [])) ≡ read_hex n s * 16 + hex_value c
unfolding read_hex
read_hex-append n [] c = refl
read_hex-append n (d ∷ s) c = read_hex-append (n * 16 + hex_value d) s c

hex_value-hex_digit : (d : ℕ) → d < 16 → hex_value (hex_digit d) ≡ d
hex_value-hex_digit d h = ground arith

hex_digits_last : (fuel n : ℕ) → ltb n 16 ≡ true → hex_digits (suc fuel) n ≡ hex_digit n ∷ []
unfolding hex_digits
hex_digits_last fuel n h = ground arith

hex_digits_more :
    (fuel n : ℕ)
    → ltb n 16 ≡ false
    → hex_digits (suc fuel) n ≡ hex_digits fuel (n / 16) ++ (hex_digit (n % 16) ∷ [])
unfolding hex_digits
hex_digits_more fuel n h = ground arith

pub read_hex-hex_digits : (fuel n : ℕ) → n < fuel → read_hex 0 (hex_digits fuel n) ≡ n
read_hex-hex_digits zero n h = absurd (omega (arith, h))
read_hex-hex_digits (suc fuel) n h = elim (Bool-cases (ltb n 16)) [
  | inl small ↦
      rw (hex_digits_last fuel n small)
        (unfold read_hex in omega (arith, hex_value-hex_digit n (ground arith)))
  | inr more ↦ rw (hex_digits_more fuel n more) (
      read_hex-append 0 (hex_digits fuel (n / 16)) (hex_digit (n % 16))
      ∙ omega (
        arith,
        read_hex-hex_digits fuel (n / 16) (ground arith),
        hex_value-hex_digit (n % 16) (omega arith),
      ))
]

hex_digit-differs : (d : ℕ) → d < 16 → (hex_digit d == b'}') ≡ false
hex_digit-differs d h = ground arith

pub hex_digits-Lacks : (fuel n : ℕ) → Lacks b'}' (hex_digits fuel n)
hex_digits-Lacks zero n = unfold hex_digits in tt
hex_digits-Lacks (suc fuel) n = elim (Bool-cases (ltb n 16)) [
  | inl small ↦ rw (hex_digits_last fuel n small) (hex_digit-differs n (ground arith), tt)
  | inr more ↦ rw (hex_digits_more fuel n more) (
      All-append (λ c. (c == b'}') ≡ false) (hex_digits fuel (n / 16)) _
        (hex_digits-Lacks fuel (n / 16)) (hex_digit-differs (n % 16) (omega arith), tt))
]
