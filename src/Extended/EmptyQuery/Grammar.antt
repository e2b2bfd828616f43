-- ===== src/Extended/EmptyQuery/Grammar.antt =====
-- What `is_empty_query` of src/extended.rs accepts, as a grammar.
use mathlib.Core.Path.{subst}
use pywire.Base.{
  ℕ, zero, suc, ◌≤◌, ◌<◌, ◌≡◌, refl, ◌↔◌, inl, inr, true, false, some, [], ◌∷◌, arith, Text, length,
  Bool-cases, Option-cases,
}
use pywire.Extended.EmptyQuery.{
  is_skipped, ends_line, is_dashes, opens, closes, skip_line, skip_block, scan, is_empty_query,
}

-- A line comment runs through the end of its line, or of the text.
pub data LineComment : Text → Text → Type 0 where
  at_end : LineComment [] []
  newline : {c : ℕ} {s : Text} → ends_line c ≡ true → LineComment (c ∷ s) s
  char : {c : ℕ} {s r : Text} → ends_line c ≡ false → LineComment s r → LineComment (c ∷ s) r

-- From inside `depth` block comments the text closes them all, and `r` follows.
pub data BlockComment : ℕ → Text → Text → Type 0 where
  last : {c d : ℕ} {s : Text} → closes c d ≡ true → BlockComment (suc zero) (c ∷ d ∷ s) s
  inner :
      {n c d : ℕ} {s r : Text}
      → closes c d ≡ true
      → BlockComment (suc n) s r
      → BlockComment (suc (suc n)) (c ∷ d ∷ s) r
  nest :
      {n c d : ℕ} {s r : Text}
      → opens c d ≡ true
      → BlockComment (suc (suc n)) s r
      → BlockComment (suc n) (c ∷ d ∷ s) r
  char :
      {n c d : ℕ} {s r : Text}
      → opens c d ≡ false
      → closes c d ≡ false
      → BlockComment (suc n) (d ∷ s) r
      → BlockComment (suc n) (c ∷ d ∷ s) r

-- Blanks, semicolons and closed comments.
pub data Blank : Text → Type 0 where
  done : Blank []
  skip : {c : ℕ} {s : Text} → is_skipped c ≡ true → Blank s → Blank (c ∷ s)
  line :
      {c d : ℕ} {s r : Text} → is_dashes c d ≡ true → LineComment s r → Blank r → Blank (c ∷ d ∷ s)
  block :
      {c d : ℕ} {s r : Text}
      → opens c d ≡ true
      → BlockComment (suc zero) s r
      → Blank r
      → Blank (c ∷ d ∷ s)

LineComment-skip_line : (s : Text) → LineComment s (skip_line s)
unfolding skip_line
LineComment-skip_line [] = at_end
LineComment-skip_line (c ∷ s) = elim (Bool-cases (ends_line c)) [
  | inl e ↦ rw (e, skip_line) (LineComment.newline e)
  | inr e ↦ rw (e, skip_line) (LineComment.char e (LineComment-skip_line s))
]

LineComment-eq : {s r : Text} → LineComment s r → skip_line s ≡ r
unfolding skip_line
LineComment-eq at_end = refl
LineComment-eq (newline e) = ground arith
LineComment-eq (LineComment.char e l) = ground (arith, LineComment-eq l)

LineComment-le : {s r : Text} → LineComment s r → length r ≤ length s
LineComment-le at_end = omega arith
LineComment-le (newline e) = omega arith
LineComment-le (LineComment.char e l) = omega (arith, LineComment-le l)

BlockComment-le : {n : ℕ} {s r : Text} → BlockComment n s r → length r ≤ length s
BlockComment-le (last e) = omega arith
BlockComment-le (inner e b) = omega (arith, BlockComment-le b)
BlockComment-le (nest e b) = omega (arith, BlockComment-le b)
BlockComment-le (BlockComment.char e f b) = omega (arith, BlockComment-le b)

disjoint : (c d : ℕ) → closes c d ≡ true → opens c d ≡ false
unfolding closes opens
disjoint c d e = ground arith

BlockComment-eq : {n : ℕ} {s r : Text} → BlockComment n s r → skip_block n s ≡ some r
unfolding skip_block
BlockComment-eq (last {c} {d} e) = ground (arith, disjoint c d e)
BlockComment-eq (inner {n} {c} {d} e b) = ground (arith, disjoint c d e, BlockComment-eq b)
BlockComment-eq (nest e b) = ground (arith, BlockComment-eq b)
BlockComment-eq (BlockComment.char e f b) = ground (arith, BlockComment-eq b)

BlockComment-skip_block :
    (n : ℕ) (s r : Text) → skip_block (suc n) s ≡ some r → BlockComment (suc n) s r
unfolding skip_block
BlockComment-skip_block n [] r h = cc
BlockComment-skip_block n (c ∷ []) r h = cc
BlockComment-skip_block zero (c ∷ d ∷ s) r h = elim (Bool-cases (opens c d)) [
  | inl o ↦ nest o (BlockComment-skip_block 1 s r (ground arith))
  | inr o ↦ elim (Bool-cases (closes c d)) [
    | inl e ↦
        let same : s ≡ r = ground arith in subst (λ t. BlockComment 1 (c ∷ d ∷ s) t) same (last e)
    | inr e ↦ BlockComment.char o e (BlockComment-skip_block zero (d ∷ s) r (ground arith))
  ]
]
BlockComment-skip_block (suc n) (c ∷ d ∷ s) r h = elim (Bool-cases (opens c d)) [
  | inl o ↦ nest o (BlockComment-skip_block (suc (suc n)) s r (ground arith))
  | inr o ↦ elim (Bool-cases (closes c d)) [
    | inl e ↦ inner e (BlockComment-skip_block n s r (ground arith))
    | inr e ↦ BlockComment.char o e (BlockComment-skip_block (suc n) (d ∷ s) r (ground arith))
  ]
]

-- What the loop accepts is blank, whatever the fuel.
scan-Blank : (fuel : ℕ) (s : Text) → scan fuel s ≡ true → Blank s
unfolding scan
scan-Blank zero s h = cc
scan-Blank (suc fuel) [] h = done
scan-Blank (suc fuel) (c ∷ []) h = let k : is_skipped c ≡ true = ground arith in skip k done
scan-Blank (suc fuel) (c ∷ d ∷ s) h = elim (Bool-cases (is_skipped c)) [
  | inl k ↦ skip k (scan-Blank fuel (d ∷ s) (ground arith))
  | inr k ↦ elim (Bool-cases (is_dashes c d)) [
    | inl l ↦ line l (LineComment-skip_line s) (scan-Blank fuel (skip_line s) (ground arith))
    | inr l ↦ elim (Bool-cases (opens c d)) [
      | inl o ↦ elim (Option-cases (skip_block 1 s)) [
        | inl unclosed ↦ absurd (ground arith)
        | inr (r, e) ↦ block o (BlockComment-skip_block 0 s r e) (scan-Blank fuel r (ground arith))
      ]
      | inr o ↦ absurd (ground arith)
    ]
  ]
]

dashes_first : (c d : ℕ) → is_dashes c d ≡ true → (is_skipped c ≡ false) × (opens c d ≡ false)
unfolding is_skipped is_dashes opens
dashes_first c d e = ground arith

opens_first : (c d : ℕ) → opens c d ≡ true → (is_skipped c ≡ false) × (is_dashes c d ≡ false)
unfolding is_skipped is_dashes opens
opens_first c d e = ground arith

-- Blank text is accepted, with a round for each character and one to spare.
Blank-scan : {s : Text} (fuel : ℕ) → Blank s → length s < fuel → scan fuel s ≡ true
unfolding scan
Blank-scan zero b h = elim h [ ]
Blank-scan (suc fuel) done h = refl
Blank-scan (suc fuel) (skip {s = []} k b) h = ground (arith, Blank-scan fuel b)
Blank-scan (suc fuel) (skip {s = d ∷ s} k b) h = ground (arith, Blank-scan fuel b)
Blank-scan (suc fuel) (line {c} {d} l m b) h =
    ground (arith, dashes_first c d l, LineComment-eq m, LineComment-le m, Blank-scan fuel b)
Blank-scan (suc fuel) (block {c} {d} o m b) h =
    ground (arith, opens_first c d o, BlockComment-eq m, BlockComment-le m, Blank-scan fuel b)

-- A query counts as empty exactly if it is a sequence of ASCII blanks, semicolons, line comments
-- and closed block comments, which nest.
pub is_empty_query-iff-Blank : (sql : Text) → (is_empty_query sql ≡ true) ↔ Blank sql
unfolding is_empty_query
is_empty_query-iff-Blank sql =
    (scan-Blank (suc (length sql)) sql, λ b. Blank-scan (suc (length sql)) b (omega arith))
