-- ===== src/Debug/Decimal.antt =====
-- A number of 32 bits that src/ prints in decimal can be read back up to the text behind it.
use pywire.Base.{ℕ, ◌<◌, ◌^◌, ◌≡◌, sym, ap, ◌∙◌, false, Option, some, ◌∷◌, ◌++◌, Text}
use pywire.Scram.Decimal.{is_digit, parse_u32, parse_u32-format_u32, format_u32-Lacks}
use pywire.Scram.Split.{split_once}
use pywire.Scram.Split.Laws.{split_once-append}
use pywire.Debug.{decimal}

parts :
    (s t a b : Text)
    → ◌≡◌ {A = Option (Text × Text)} (some (s, a)) (some (t, b))
    → (s ≡ t) × (a ≡ b)
parts s t a b h = (cc, cc)

value : (n m : ℕ) → ◌≡◌ {A = Option ℕ} (some n) (some m) → n ≡ m
value n m h = cc

-- Two numbers that print alike up to a character that is no digit are equal, and so is what follows.
pub decimal-prefix :
    (n m sep : ℕ) (a b : Text)
    → n < 2 ^ 32
    → m < 2 ^ 32
    → is_digit sep ≡ false
    → decimal n ++ (sep ∷ a) ≡ decimal m ++ (sep ∷ b)
    → (n ≡ m) × (a ≡ b)
decimal-prefix n m sep a b hn hm other h =
    let (digits, rest) = parts (decimal n) (decimal m) a b (
      sym (split_once-append sep (decimal n) a (format_u32-Lacks sep n other))
      ∙ ap (split_once sep) h
      ∙ split_once-append sep (decimal m) b (format_u32-Lacks sep m other)) in
    let same =
      value n m
        (sym (parse_u32-format_u32 n hn) ∙ ap parse_u32 digits ∙ parse_u32-format_u32 m hm) in
    (same, rest)
