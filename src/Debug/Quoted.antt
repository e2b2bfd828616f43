-- ===== src/Debug/Quoted.antt =====
-- A text that src/ prints with `{:?}` can be read back, wherever it stands: no two texts print alike.
use mathlib.Core.List.{append_assoc}
use pywire.Base.{
  ℕ, zero, suc, ◌+◌, ◌<◌, ◌≡◌, refl, ap, sym, ◌∙◌, Bool, true, false, Option, none, some, [], ◌∷◌,
  ◌++◌, codes, String, drop, arith, Text, length, ◌==◌, if◌then◌else◌, Bool-cases, inl, inr,
}
use text.Mathlib.TextEquality.{Char-path}
use pywire.Debug.{quote, debug_option, escape, escapes, quoted, escape_unicode, hex_digits}
use pywire.Debug.Hex.{read_hex, read_hex-hex_digits, hex_digits-Lacks}
use pywire.Scram.Split.{split_once}
use pywire.Scram.Split.Laws.{split_once-append}

-- The character of `\u{...}` behind its `{`.
read_unicode : Option (Text × Text) → Option (ℕ × Text)
read_unicode none = none
read_unicode (some (hex, rest)) = some (read_hex 0 hex, rest)

-- The character that an escape behind its backslash stands for.
read_escape : Text → Option (ℕ × Text)
unfolding read_unicode
read_escape [] = none
read_escape (c ∷ s) =
    if c == b'0'
    then some (0, s)
    else if c == b't'
    then some (b'\t', s)
    else if c == b'r'
    then some (b'\r', s)
    else if c == b'n'
    then some (b'\n', s)
    else if c == b'u'
    then read_unicode (split_once b'}' (drop 1 s))
    else some (c, s)

-- The first character of a text between quotes, or `none` at the closing one.
read_char : Text → Option (ℕ × Text)
unfolding read_escape
read_char [] = none
read_char (c ∷ s) = if c == b'\\' then read_escape s else if c == b'"' then none else some (c, s)

add_char : ℕ → Option (Text × Text) → Option (Text × Text)
add_char c none = none
add_char c (some (s, rest)) = some (c ∷ s, rest)

-- The text up to the closing quote and what stands behind it, a round for each unit of fuel.
read_text : ℕ → Text → Option (Text × Text)
unfolding add_char read_char
read_text zero s = none
read_text (suc fuel) [] = none
read_text (suc fuel) (c ∷ s) = elim (c == b'"') [
  | true ↦ some ([], s)
  | false ↦ elim (read_char (c ∷ s)) [
    | none ↦ none
    | some (d, rest) ↦ add_char d (read_text fuel rest)
  ]
]

-- A text that begins with a character does not begin with the closing quote.
read_text-read_char :
    (fuel : ℕ) (x : Text) (c : ℕ) (s : Text)
    → read_char x ≡ some (c, s)
    → read_text (suc fuel) x ≡ add_char c (read_text fuel s)
unfolding read_char read_text
read_text-read_char fuel [] c s h = cc
read_text-read_char fuel (d ∷ x) c s h = elim (Bool-cases (d == b'"')) [
  | inl is_quote ↦ absurd (ground (arith, is_quote, h))
  | inr other ↦ ground (arith, other, h)
]

read_text_step :
    (fuel : ℕ) (x : Text) (c : ℕ) (s t rest : Text)
    → read_char x ≡ some (c, s)
    → read_text fuel s ≡ some (t, rest)
    → read_text (suc fuel) x ≡ some (c ∷ t, rest)
unfolding add_char
read_text_step fuel x c s t rest h k = read_text-read_char fuel x c s h ∙ ap (add_char c) k

both :
    (s t a b : Text)
    → ◌≡◌ {A = Option (Text × Text)} (some (s, a)) (some (t, b))
    → (s ≡ t) × (a ≡ b)
both s t a b h = (cc, cc)

module _ (printable : ℕ → Bool) where
  read_char_unicode : (c : ℕ) (s : Text) → read_char (escape_unicode c ++ s) ≡ some (c, s)
  unfolding read_char read_escape escape_unicode
  read_char_unicode c s = rw append_assoc (
      rw (split_once-append b'}' (hex_digits (suc c) c) s (hex_digits-Lacks (suc c) c)) (
        unfold read_unicode in ap (λ n. some (n, s)) (read_hex-hex_digits (suc c) c (omega arith))))

  -- What one character prints as is read back, whatever follows.
  read_char-escape : (c : ℕ) (s : Text) → read_char (escape printable c ++ s) ≡ some (c, s)
  unfolding escape read_char read_escape
  read_char-escape c s = ground (arith, read_char_unicode c s)

  read_text-escapes :
      (fuel : ℕ) (s rest : Text)
      → length s < fuel
      → read_text fuel (escapes printable s ++ (b'"' ∷ rest)) ≡ some (s, rest)
  unfolding escapes
  read_text-escapes zero s rest h = absurd (omega (arith, h))
  read_text-escapes (suc fuel) [] rest h = unfold read_text in refl
  read_text-escapes (suc fuel) (c ∷ s) rest h = rw append_assoc (
      read_text_step fuel _ c _ s rest (read_char-escape c _)
        (read_text-escapes fuel s rest (omega (arith, h))))

  -- Two texts in quotes that begin alike are the same text, and what follows them is the same.
  pub quoted-prefix :
      (s t a b : Text) → quoted printable s ++ a ≡ quoted printable t ++ b → (s ≡ t) × (a ≡ b)
  unfolding quoted
  quoted-prefix s t a b h =
      let fuel = suc (length s + length t) in
      let behind : (escapes printable s ++ (b'"' ∷ [])) ++ a
          ≡ (escapes printable t ++ (b'"' ∷ [])) ++ b =
        ap (drop 1) h in
      let same : escapes printable s ++ (b'"' ∷ a) ≡ escapes printable t ++ (b'"' ∷ b) =
        simp append_assoc at behind in
      both s t a b (
        sym (read_text-escapes fuel s a (omega arith))
        ∙ ap (read_text fuel) same
        ∙ read_text-escapes fuel t b (omega arith))

abbrev pub first : Text → ℕ
first [] = 0
first (c ∷ s) = c

-- What stands behind a common beginning.
pub append-cancel : (p a b : Text) → p ++ a ≡ p ++ b → a ≡ b
append-cancel [] a b h = h
append-cancel (c ∷ p) a b h = append-cancel p a b (ap (drop 1) h)

pub codes-injective : (s t : String) → codes s ≡ codes t → s ≡ t
codes-injective String.[] String.[] h = refl
codes-injective String.[] (String.◌∷◌ d t) h = cc
codes-injective (String.◌∷◌ c s) String.[] h = cc
codes-injective (String.◌∷◌ c s) (String.◌∷◌ d t) h =
    let same : c ≡ d = Char-path c d cc in rw (same, codes-injective s t cc) refl

module _ (printable : ℕ → Bool) where
  pub quote-prefix :
      (s t : String) (a b : Text)
      → quote printable s ++ a ≡ quote printable t ++ b
      → (s ≡ t) × (a ≡ b)
  quote-prefix s t a b h =
      let (same, rest) = quoted-prefix printable (codes s) (codes t) a b h in
      (codes-injective s t same, rest)

  pub debug_option-prefix :
      (x y : Option String) (a b : Text)
      → debug_option (quote printable) x ++ a ≡ debug_option (quote printable) y ++ b
      → (x ≡ y) × (a ≡ b)
  unfolding debug_option
  debug_option-prefix none none a b h = (refl, append-cancel (codes "None") a b h)
  debug_option-prefix none (some t) a b h = absurd (omega (arith, ap first h))
  debug_option-prefix (some s) none a b h = absurd (omega (arith, ap first h))
  debug_option-prefix (some s) (some t) a b h =
      let behind : quote printable s ++ (b')' ∷ a) ≡ quote printable t ++ (b')' ∷ b) =
        append-cancel (codes "Some(") _ _ (simp append_assoc at h) in
      let (same, rest) = quote-prefix s t (b')' ∷ a) (b')' ∷ b) behind in
      (ap some same, ap (drop 1) rest)
