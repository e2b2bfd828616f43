-- ===== src/Scram/Decimal.antt =====
-- `u32::from_str` and `Display for u32`, which src/scram_verifier.rs reads and writes iteration
-- counts with.
use pywire.Base.{
  ℕ, zero, suc, ◌+◌, ◌-◌, ◌*◌, ◌/◌, ◌%◌, ◌^◌, ◌<◌, ◌≡◌, ◌∙◌, Bool, true, false, ◌&&◌, Option, none,
  some, [], ◌∷◌, ◌++◌, arith, Text, All, All-append, ltb, leb, ◌==◌, if◌then◌else◌, Bool-cases,
  Option-cases, inl, inr,
}
use pywire.Scram.Split.Laws.{Lacks}

abbrev pub u32_max : ℕ
u32_max = 2 ^ 32 - 1

abbrev pub is_digit : ℕ → Bool
is_digit c = leb b'0' c && leb c b'9'

-- A digit more, unless the number no longer fits.
digit : ℕ → ℕ → Option ℕ
digit n c =
    if is_digit c
    then if ltb u32_max (n * 10 + (c - b'0')) then none else some (n * 10 + (c - b'0'))
    else none

digits : ℕ → Text → Option ℕ
unfolding digit
digits n [] = some n
digits n (c ∷ s) = elim (digit n c) [ none ↦ none | some m ↦ digits m s ]

-- `u32::from_str`: digits behind an optional sign `+`, at least one.
unfoldable pub parse_u32 : Text → Option ℕ
unfolding digits
parse_u32 [] = none
parse_u32 (c ∷ []) = if c == b'+' then none else digits 0 (c ∷ [])
parse_u32 (c ∷ d ∷ s) = if c == b'+' then digits 0 (d ∷ s) else digits 0 (c ∷ d ∷ s)

-- The decimal digits, with one unit of fuel for each.
to_digits : ℕ → ℕ → Text
to_digits zero n = []
to_digits (suc fuel) n = elim (ltb n 10) [
  | true ↦ (b'0' + n) ∷ []
  | false ↦ to_digits fuel (n / 10) ++ ((b'0' + n % 10) ∷ [])
]

unfoldable pub format_u32 : ℕ → Text
unfolding to_digits
format_u32 n = to_digits (suc n) n

digits-append :
    (n : ℕ) (s : Text) (c : ℕ) {m : ℕ} → digits n s ≡ some m → digits n (s ++ (c ∷ [])) ≡ digit m c
unfolding digits
digits-append n [] c {m} h = ground (arith, Option-cases (digit n c), Option-cases (digit m c))
digits-append n (d ∷ s) c {m} h = elim (Option-cases (digit n d)) [
  | inl e ↦ absurd (ground arith)
  | inr (k, e) ↦ rw (e, digits) (digits-append k s c (ground arith))
]

digit_value : (n : ℕ) → n < 2 ^ 32 → digit (n / 10) (b'0' + n % 10) ≡ some n
unfolding digit
digit_value n h = ground arith

to_digits_last : (fuel n : ℕ) → ltb n 10 ≡ true → to_digits (suc fuel) n ≡ (b'0' + n) ∷ []
unfolding to_digits
to_digits_last fuel n h = ground arith

to_digits_more :
    (fuel n : ℕ)
    → ltb n 10 ≡ false
    → to_digits (suc fuel) n ≡ to_digits fuel (n / 10) ++ ((b'0' + n % 10) ∷ [])
unfolding to_digits
to_digits_more fuel n h = ground arith

digits-to_digits : (fuel n : ℕ) → n < fuel → n < 2 ^ 32 → digits 0 (to_digits fuel n) ≡ some n
digits-to_digits zero n h k = elim h [ ]
digits-to_digits (suc fuel) n h k = elim (Bool-cases (ltb n 10)) [
  | inl small ↦ rw (to_digits_last fuel n small) (unfold digits digit in ground arith)
  | inr more ↦ rw (to_digits_more fuel n more) (
      digits-append 0 (to_digits fuel (n / 10)) (b'0' + n % 10)
        (digits-to_digits fuel (n / 10) (ground arith) (ground arith))
      ∙ digit_value n k)
]

-- Text of digits, with one at least.
abbrev Digits : Text → Type 0
Digits [] = ⊥
Digits (c ∷ s) = All (λ c. is_digit c ≡ true) (c ∷ s)

Digits-append : (s : Text) (c : ℕ) → Digits s → is_digit c ≡ true → Digits (s ++ (c ∷ []))
Digits-append [] c h k = elim h [ ]
Digits-append (d ∷ s) c h k = (h.0, All-append (λ c. is_digit c ≡ true) s (c ∷ []) h.1 (k, tt))

Digits-to_digits : (fuel n : ℕ) → n < fuel → Digits (to_digits fuel n)
Digits-to_digits zero n h = elim h [ ]
Digits-to_digits (suc fuel) n h = elim (Bool-cases (ltb n 10)) [
  | inl small ↦ rw (to_digits_last fuel n small) (ground arith)
  | inr more ↦ rw (to_digits_more fuel n more) (
      Digits-append (to_digits fuel (n / 10)) (b'0' + n % 10)
        (Digits-to_digits fuel (n / 10) (ground arith)) (ground arith))
]

parse_u32-digits : (s : Text) → Digits s → parse_u32 s ≡ digits 0 s
unfolding parse_u32
parse_u32-digits [] h = elim h [ ]
parse_u32-digits (c ∷ []) h = ground arith
parse_u32-digits (c ∷ d ∷ s) h = ground arith

-- A printed `u32` reads back as itself.
pub parse_u32-format_u32 : (n : ℕ) → n < 2 ^ 32 → parse_u32 (format_u32 n) ≡ some n
unfolding format_u32
parse_u32-format_u32 n h =
    parse_u32-digits (to_digits (suc n) n) (Digits-to_digits (suc n) n (omega arith))
    ∙ digits-to_digits (suc n) n (omega arith) h

Lacks-of_digits :
    (sep : ℕ) (s : Text) → is_digit sep ≡ false → All (λ c. is_digit c ≡ true) s → Lacks sep s
Lacks-of_digits sep [] h d = tt
Lacks-of_digits sep (c ∷ s) h d = (ground (arith, d.0), Lacks-of_digits sep s h d.1)

Digits-All : (s : Text) → Digits s → All (λ c. is_digit c ≡ true) s
Digits-All [] h = elim h [ ]
Digits-All (c ∷ s) h = h

-- A printed number holds no separator.
pub format_u32-Lacks : (sep n : ℕ) → is_digit sep ≡ false → Lacks sep (format_u32 n)
unfolding format_u32
format_u32-Lacks sep n h =
    Lacks-of_digits sep _ h
      (Digits-All (to_digits (suc n) n) (Digits-to_digits (suc n) n (omega arith)))

digit-le : (n c : ℕ) {m : ℕ} → digit n c ≡ some m → m < 2 ^ 32
unfolding digit
digit-le n c h = ground arith

digits-lt : (s : Text) (n m : ℕ) → n < 2 ^ 32 → digits n s ≡ some m → m < 2 ^ 32
unfolding digits
digits-lt [] n m k h = ground arith
digits-lt (c ∷ s) n m k h = elim (Option-cases (digit n c)) [
  | inl e ↦ absurd (ground arith)
  | inr (j, e) ↦ digits-lt s j m (digit-le n c e) (ground arith)
]

-- What is read fits 32 bits.
pub parse_u32-lt : (s : Text) (n : ℕ) → parse_u32 s ≡ some n → n < 2 ^ 32
unfolding parse_u32
parse_u32-lt [] n h = cc
parse_u32-lt (c ∷ []) n h = digits-lt (c ∷ []) 0 n (omega arith) (ground arith)
parse_u32-lt (c ∷ d ∷ s) n h = elim (Bool-cases (c == b'+')) [
  | inl plus ↦ digits-lt (d ∷ s) 0 n (omega arith) (ground arith)
  | inr other ↦ digits-lt (c ∷ d ∷ s) 0 n (omega arith) (ground arith)
]
