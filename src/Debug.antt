-- ===== src/Debug.antt =====
-- Rust's formatting, which the `__repr__` methods under src/ use: `{}` of numbers and `{:?}` of
-- texts, options and maps.
pub mod Decimal
pub mod Hex
pub mod Quoted
use pywire.Base.{
  ℕ, zero, suc, ◌+◌, ◌-◌, ◌/◌, ◌%◌, ◌^◌, Bool, true, false, Option, none, some, List, [], ◌∷◌, ◌++◌,
  Text, String, codes, ltb, ◌==◌, if◌then◌else◌,
}
use pywire.Scram.Decimal.{format_u32}

-- `{}` of an unsigned number of any width, and of a signed one of `bits` bits by its bit pattern.
abbrev pub decimal : ℕ → Text
decimal = format_u32

unfoldable pub signed : ℕ → ℕ → Text
signed bits n = if ltb n (2 ^ (bits - 1)) then decimal n else b'-' ∷ decimal (2 ^ bits - n)

abbrev pub hex_digit : ℕ → ℕ
hex_digit d = if ltb d 10 then b'0' + d else b'a' + (d - 10)

-- The hexadecimal digits, with one unit of fuel for each.
unfoldable pub hex_digits : ℕ → ℕ → Text
hex_digits zero n = []
hex_digits (suc fuel) n = elim (ltb n 16) [
  | true ↦ hex_digit n ∷ []
  | false ↦ hex_digits fuel (n / 16) ++ (hex_digit (n % 16) ∷ [])
]

-- `\u{...}`
unfoldable pub escape_unicode : ℕ → Text
unfolding hex_digits
escape_unicode c = b'\\' ∷ b'u' ∷ b'{' ∷ (hex_digits (suc c) c ++ (b'}' ∷ []))

-- `printable` is Unicode's table of the characters that `{:?}` writes as they are.
module _ (printable : ℕ → Bool) where
  -- `char::escape_debug` within a `str`, where a single quote stands for itself.
  unfoldable pub escape : ℕ → Text
  unfolding escape_unicode
  escape c =
      if c == 0
      then b'\\' ∷ b'0' ∷ []
      else if c == b'\t'
      then b'\\' ∷ b't' ∷ []
      else if c == b'\r'
      then b'\\' ∷ b'r' ∷ []
      else if c == b'\n'
      then b'\\' ∷ b'n' ∷ []
      else if c == b'"'
      then b'\\' ∷ b'"' ∷ []
      else if c == b'\\'
      then b'\\' ∷ b'\\' ∷ []
      else if printable c
      then c ∷ []
      else escape_unicode c

  unfoldable pub escapes : Text → Text
  unfolding escape
  escapes [] = []
  escapes (c ∷ s) = escape c ++ escapes s

  -- `{:?}` of a `str`.
  unfoldable pub quoted : Text → Text
  unfolding escapes
  quoted s = b'"' ∷ (escapes s ++ (b'"' ∷ []))

  -- `{:?}` of a `String`.
  abbrev pub quote : String → Text
  quote s = quoted (codes s)

-- `{:?}` of an `Option`, over that of its value.
unfoldable pub debug_option {ℓ} : {A : Type ℓ} → (A → Text) → Option A → Text
debug_option show none = codes "None"
debug_option show (some a) = codes "Some(" ++ (show a ++ (b')' ∷ []))

-- A keyword argument that may be left out.
unfoldable pub or_default {ℓ} : {A : Type ℓ} → A → Option A → A
or_default a none = a
or_default a (some b) = b

-- `join(", ")`.
unfoldable pub join : List Text → Text
join [] = []
join (a ∷ []) = a
join (a ∷ b ∷ rest) = a ++ (b',' ∷ b' ' ∷ join (b ∷ rest))
