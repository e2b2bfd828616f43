-- ===== src/Extended/EmptyQuery.antt =====
-- `is_empty_query` of src/extended.rs: a query of blanks, semicolons and comments only.
pub mod Grammar
pub mod Fuel
use pywire.Base.{
  ℕ, zero, suc, ◌-◌, ◌≡◌, refl, Bool, true, false, ◌&&◌, ◌||◌, Option, none, some, List, [], ◌∷◌,
  ◌==◌, Text, length,
}

-- `ch.is_ascii_whitespace() || ch == ';'`
unfoldable pub is_skipped : ℕ → Bool
is_skipped c = c == b' ' || c == b'\t' || c == b'\n' || c == 12 || c == b'\r' || c == b';'

-- `comment_ch == '\n' || comment_ch == '\r'`
unfoldable pub ends_line : ℕ → Bool
ends_line c = c == b'\n' || c == b'\r'

-- `ch == '-'` and `next_if_eq(&'-')`
unfoldable pub is_dashes : ℕ → ℕ → Bool
is_dashes c d = c == b'-' && d == b'-'

-- `ch == '/'` and `next_if_eq(&'*')`
unfoldable pub opens : ℕ → ℕ → Bool
opens c d = c == b'/' && d == b'*'

-- `comment_ch == '*'` and `next_if_eq(&'/')`
unfoldable pub closes : ℕ → ℕ → Bool
closes c d = c == b'*' && d == b'/'

-- The `for` loop over a line comment: the characters that it leaves.
unfoldable pub skip_line : Text → Text
skip_line [] = []
skip_line (c ∷ rest) = elim (ends_line c) [ true ↦ rest | false ↦ skip_line rest ]

-- The `while` loop over a block comment at the nesting `depth`: the characters that it leaves, or
-- `none` where the text ends with the comment open.
unfoldable pub skip_block : ℕ → Text → Option Text
skip_block depth [] = none
skip_block depth (c ∷ []) = none
skip_block depth (c ∷ d ∷ rest) = elim (opens c d) [
  | true ↦ skip_block (suc depth) rest
  | false ↦ elim (closes c d) [
    | true ↦ elim (depth - 1 == 0) [ true ↦ some rest | false ↦ skip_block (depth - 1) rest ]
    | false ↦ skip_block depth (d ∷ rest)
  ]
]

-- The outer loop, a round for each unit of fuel. A comment is tried only where two characters are
-- left.
unfoldable pub scan : ℕ → Text → Bool
scan zero sql = false
scan (suc fuel) [] = true
scan (suc fuel) (c ∷ []) = elim (is_skipped c) [ true ↦ scan fuel [] | false ↦ false ]
scan (suc fuel) (c ∷ d ∷ rest) = elim (is_skipped c) [
  | true ↦ scan fuel (d ∷ rest)
  | false ↦ elim (is_dashes c d) [
    | true ↦ scan fuel (skip_line rest)
    | false ↦ elim (opens c d) [
      | true ↦ elim (skip_block 1 rest) [ none ↦ false | some left ↦ scan fuel left ]
      | false ↦ false
    ]
  ]
]

-- Each round takes a character at least, so one round more than there are characters is enough.
unfoldable pub is_empty_query : Text → Bool
unfolding is_skipped ends_line is_dashes opens closes skip_line skip_block scan
is_empty_query sql = scan (suc (length sql)) sql
