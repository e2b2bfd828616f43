-- ===== src/Scram/Split/Laws.antt =====
-- Splitting undoes joining, and what was split can be joined again: `str` methods of
-- src/scram_verifier.rs.
use pywire.Base.{
  ℕ, ◌≡◌, refl, false, none, some, List, [], ◌∷◌, ◌++◌, arith, Text, All, All-append, ◌==◌, inl,
  inr, Bool-cases, Option-cases,
}
use pywire.Scram.Split.{strip_prefix, split_once, split, cons_head, rsplit_once}

-- The character does not stand in the text.
abbrev pub Lacks : ℕ → Text → Type 0
Lacks sep = All (λ c. (c == sep) ≡ false)

pub strip_prefix-append : (p s : Text) → strip_prefix p (p ++ s) ≡ some s
unfolding strip_prefix
strip_prefix-append [] s = refl
strip_prefix-append (c ∷ p) s = ground (arith, strip_prefix-append p s)

pub strip_prefix-eq_some : (p s r : Text) → strip_prefix p s ≡ some r → s ≡ p ++ r
unfolding strip_prefix
strip_prefix-eq_some [] s r h = ground arith
strip_prefix-eq_some (c ∷ p) [] r h = cc
strip_prefix-eq_some (c ∷ p) (d ∷ s) r h = ground (arith, strip_prefix-eq_some p s r)

pub split_once-append :
    (sep : ℕ) (a b : Text) → Lacks sep a → split_once sep (a ++ (sep ∷ b)) ≡ some (a, b)
unfolding split_once
split_once-append sep [] b h = ground arith
split_once-append sep (c ∷ a) b h = ground (arith, split_once-append sep a b h.1)

pub split_once-eq_some :
    (sep : ℕ) (s a b : Text) → split_once sep s ≡ some (a, b) → (s ≡ a ++ (sep ∷ b)) × Lacks sep a
unfolding split_once
split_once-eq_some sep [] a b h = cc
split_once-eq_some sep (c ∷ s) [] b h = ground arith
split_once-eq_some sep (c ∷ s) (d ∷ a) b h = ground (arith, split_once-eq_some sep s a b)

-- The first part of a split text, and the parts behind it.
pub split-append :
    (sep : ℕ) (a b : Text) → Lacks sep a → split sep (a ++ (sep ∷ b)) ≡ a ∷ split sep b
unfolding split
split-append sep [] b h = ground arith
split-append sep (c ∷ a) b h = ground (arith, split-append sep a b h.1)

pub split-Lacks : (sep : ℕ) (a : Text) → Lacks sep a → split sep a ≡ a ∷ []
unfolding split
split-Lacks sep [] h = refl
split-Lacks sep (c ∷ a) h = ground (arith, split-Lacks sep a h.1)

-- A split has a part at least, and its first part lacks the separator.
pub split-eq_cons :
    (sep : ℕ) (s : Text) → (a : Text) × (rest : List Text) × (split sep s ≡ a ∷ rest) × Lacks sep a
unfolding split
split-eq_cons sep [] = ([], [], refl, tt)
split-eq_cons sep (c ∷ s) =
    let (a, rest, e, l) = split-eq_cons sep s in
    elim (Bool-cases (c == sep)) [
      | inl at_sep ↦ ([], split sep s, ground arith, tt)
      | inr other ↦ (c ∷ a, rest, ground arith, (other, l))
    ]

cons_head-All :
    (sep c : ℕ) (ps : List Text)
    → (c == sep) ≡ false
    → All (Lacks sep) ps
    → All (Lacks sep) (cons_head c ps)
cons_head-All sep c [] h a = ((h, tt), tt)
cons_head-All sep c (p ∷ ps) h a = ((h, a.0), a.1)

-- No part of a split text holds the separator.
pub split-All-Lacks : (sep : ℕ) (s : Text) → All (Lacks sep) (split sep s)
unfolding split
split-All-Lacks sep [] = (tt, tt)
split-All-Lacks sep (c ∷ s) = elim (Bool-cases (c == sep)) [
  | inl at_sep ↦ rw at_sep (tt, split-All-Lacks sep s)
  | inr differs ↦ rw differs (cons_head-All sep c (split sep s) differs (split-All-Lacks sep s))
]

rsplit_once-none : (sep : ℕ) (p s : Text) → Lacks sep s → rsplit_once (sep ∷ p) s ≡ none
unfolding rsplit_once
rsplit_once-none sep p [] h = refl
rsplit_once-none sep p (c ∷ s) h = ground (arith, rsplit_once-none sep p s h.1)

pub Lacks-append : (sep : ℕ) (a b : Text) → Lacks sep a → Lacks sep b → Lacks sep (a ++ b)
Lacks-append sep = All-append (λ c. (c == sep) ≡ false)

rsplit_once_front :
    (sep : ℕ) (p b : Text)
    → Lacks sep p
    → Lacks sep b
    → rsplit_once (sep ∷ p) (sep ∷ (p ++ b)) ≡ some ([], b)
unfolding rsplit_once
rsplit_once_front sep p b hp hb =
    rw (rsplit_once-none sep p (p ++ b) (Lacks-append sep p b hp hb))
      (ground (arith, strip_prefix-append p b))

rsplit_once_step :
    (p : Text) (c : ℕ) (s : Text) {a b : Text}
    → rsplit_once p s ≡ some (a, b)
    → rsplit_once p (c ∷ s) ≡ some (c ∷ a, b)
unfolding rsplit_once
rsplit_once_step p c s h = rw h refl

-- A text that stands once more behind `a`, with no separator after it, is found there.
pub rsplit_once-append :
    (sep : ℕ) (p a b : Text)
    → Lacks sep p
    → Lacks sep b
    → rsplit_once (sep ∷ p) (a ++ (sep ∷ (p ++ b))) ≡ some (a, b)
rsplit_once-append sep p [] b hp hb = rsplit_once_front sep p b hp hb
rsplit_once-append sep p (c ∷ a) b hp hb =
    rsplit_once_step (sep ∷ p) c _ (rsplit_once-append sep p a b hp hb)

pub rsplit_once-eq_some : (p s a b : Text) → rsplit_once p s ≡ some (a, b) → s ≡ a ++ (p ++ b)
unfolding rsplit_once
rsplit_once-eq_some p [] a b h = cc
rsplit_once-eq_some p (c ∷ s) [] b h = elim (Option-cases (rsplit_once p s)) [
  | inr (r, e) ↦ absurd (ground arith)
  | inl e ↦ strip_prefix-eq_some p (c ∷ s) b (ground (arith, Option-cases (strip_prefix p (c ∷ s))))
]
rsplit_once-eq_some p (c ∷ s) (d ∷ a) b h =
    ground (arith, Option-cases (strip_prefix p (c ∷ s)), rsplit_once-eq_some p s a b)
