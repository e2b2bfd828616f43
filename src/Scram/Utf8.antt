-- ===== src/Scram/Utf8.antt =====
-- `std::str::from_utf8`, which src/scram_verifier.rs checks messages with.
use pywire.Base.{
  ℕ, Bool, true, false, ◌&&◌, ◌||◌, ◌+◌, ◌/◌, ◌%◌, [], ◌∷◌, ◌++◌, if◌then◌else◌, Text, leb, ltb,
  ◌==◌,
}

abbrev within : ℕ → ℕ → ℕ → Bool
within lo hi b = leb lo b && leb b hi

-- A continuation byte.
abbrev continues : ℕ → Bool
continues = within 0x80 0xbf

two : ℕ → ℕ → Bool
two a b = within 0xc2 0xdf a && continues b

three : ℕ → ℕ → ℕ → Bool
three a b c =
    ((a == 0xe0 && within 0xa0 0xbf b)
      || ((within 0xe1 0xec a || within 0xee 0xef a) && continues b)
      || (a == 0xed && within 0x80 0x9f b))
    && continues c

four : ℕ → ℕ → ℕ → ℕ → Bool
four a b c d =
    ((a == 0xf0 && within 0x90 0xbf b)
      || (within 0xf1 0xf3 a && continues b)
      || (a == 0xf4 && within 0x80 0x8f b))
    && (continues c && continues d)

-- Well-formed byte sequences of the Unicode standard, one character after the other.
unfoldable pub is_utf8 : Text → Bool
unfolding two three four
is_utf8 [] = true
is_utf8 (a ∷ []) = ltb a 0x80
is_utf8 (a ∷ b ∷ []) = elim (ltb a 0x80) [ true ↦ ltb b 0x80 | false ↦ two a b ]
is_utf8 (a ∷ b ∷ c ∷ []) = elim (ltb a 0x80) [
  | true ↦ is_utf8 (b ∷ c ∷ [])
  | false ↦ elim (two a b) [ true ↦ ltb c 0x80 | false ↦ three a b c ]
]
is_utf8 (a ∷ b ∷ c ∷ d ∷ s) = elim (ltb a 0x80) [
  | true ↦ is_utf8 (b ∷ c ∷ d ∷ s)
  | false ↦ elim (two a b) [
    | true ↦ is_utf8 (c ∷ d ∷ s)
    | false ↦ elim (three a b c) [ true ↦ is_utf8 (d ∷ s) | false ↦ four a b c d && is_utf8 s ]
  ]
]

encode_char : ℕ → Text
encode_char c =
    if ltb c 0x80
    then c ∷ []
    else if ltb c 0x800
    then (0xc0 + c / 64) ∷ (0x80 + c % 64) ∷ []
    else if ltb c 0x10000
    then (0xe0 + c / 4096) ∷ (0x80 + c / 64 % 64) ∷ (0x80 + c % 64) ∷ []
    else (0xf0 + c / 262144) ∷ (0x80 + c / 4096 % 64) ∷ (0x80 + c / 64 % 64) ∷ (0x80 + c % 64) ∷ []

-- `str::as_bytes`, of the characters of a text.
unfoldable pub encode_utf8 : Text → Text
unfolding encode_char
encode_utf8 [] = []
encode_utf8 (c ∷ cs) = encode_char c ++ encode_utf8 cs
