-- ===== src/Scram/Split.antt =====
-- The `str` methods that src/scram_verifier.rs parses with, over the bytes of a text.
pub mod Laws
use mathlib.Core.Option
use pywire.Base.{
  ℕ, ◌≡◌, Bool, true, false, Option, none, some, List, [], ◌∷◌, Text, ◌==◌, if◌then◌else◌,
}

-- `str::strip_prefix`.
unfoldable pub strip_prefix : Text → Text → Option Text
strip_prefix [] s = some s
strip_prefix (c ∷ p) [] = none
strip_prefix (c ∷ p) (d ∷ s) = if c == d then strip_prefix p s else none

abbrev pub prepend : ℕ → Text × Text → Text × Text
prepend c (a, b) = (c ∷ a, b)

-- `str::split_once` at a character.
unfoldable pub split_once : ℕ → Text → Option (Text × Text)
split_once sep [] = none
split_once sep (c ∷ s) =
    if c == sep then some ([], s) else Option.map (prepend c) (split_once sep s)

abbrev pub cons_head : ℕ → List Text → List Text
cons_head c [] = (c ∷ []) ∷ []
cons_head c (p ∷ ps) = (c ∷ p) ∷ ps

-- `str::split` at a character.
unfoldable pub split : ℕ → Text → List Text
split sep [] = [] ∷ []
split sep (c ∷ s) = if c == sep then [] ∷ split sep s else cons_head c (split sep s)

-- The match at the front of a text, if there is none further on.
abbrev pub last_match : ℕ → Option (Text × Text) → Option Text → Option (Text × Text)
last_match c (some (a, b)) here = some (c ∷ a, b)
last_match c none (some b) = some ([], b)
last_match c none none = none

-- `str::rsplit_once` at a text: the split at its last occurrence.
unfoldable pub rsplit_once : Text → Text → Option (Text × Text)
unfolding strip_prefix
rsplit_once p [] = none
rsplit_once p (c ∷ s) = last_match c (rsplit_once p s) (strip_prefix p (c ∷ s))
