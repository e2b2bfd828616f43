-- ===== src/Extended/EmptyQuery/Fuel.antt =====
-- The loop of `is_empty_query` in src/extended.rs ends: each round leaves fewer characters.
use pywire.Base.{
  ℕ, zero, suc, ◌-◌, ◌<◌, ◌≤◌, ◌≡◌, refl, some, [], ◌∷◌, arith, Text, length, Option-cases, inl,
  inr,
}
use pywire.Extended.EmptyQuery.{skip_line, skip_block, scan, is_empty_query}

skip_line_le : (s : Text) → length (skip_line s) ≤ length s
unfolding skip_line
skip_line_le [] = omega arith
skip_line_le (c ∷ s) = ground (arith, skip_line_le s)

skip_block_le :
    (depth : ℕ) (s left : Text) → skip_block depth s ≡ some left → length left ≤ length s
unfolding skip_block
skip_block_le depth [] left h = absurd (ground (arith, h))
skip_block_le depth (c ∷ []) left h = absurd (ground (arith, h))
skip_block_le depth (c ∷ d ∷ s) left h = ground (
  arith,
  h,
  skip_block_le (suc depth) s left,
  skip_block_le (depth - 1) s left,
  skip_block_le depth (d ∷ s) left,
)

enough : (f g : ℕ) (s : Text) → length s < f → length s < g → scan f s ≡ scan g s
unfolding scan
enough zero g s h k = absurd (omega (arith, h))
enough (suc f) zero s h k = absurd (omega (arith, k))
enough (suc f) (suc g) [] h k = refl
enough (suc f) (suc g) (c ∷ []) h k = ground (arith, enough f g [])
enough (suc f) (suc g) (c ∷ d ∷ s) h k = elim (Option-cases (skip_block 1 s)) [
  | inl e ↦ ground (arith, e, enough f g (d ∷ s), enough f g (skip_line s), skip_line_le s)
  | inr (left, e) ↦ ground (
    arith,
    e,
    enough f g (d ∷ s),
    enough f g (skip_line s),
    skip_line_le s,
    enough f g left,
    skip_block_le 1 s left e,
  )
]

-- The loop of `is_empty_query` ends within one round more than the query has characters: with any
-- allowance of rounds above the number of characters the answer is the same, so that the rounds never
-- run out and the answer is that of the loop.
pub scan-is_empty_query :
    (rounds : ℕ) (sql : Text) → length sql < rounds → scan rounds sql ≡ is_empty_query sql
unfolding is_empty_query
scan-is_empty_query rounds sql h = enough rounds (suc (length sql)) sql h (omega arith)
