-- ===== src/Error/Text.antt =====
-- Texts of src/errors.rs: the prefix that `py_err_to_pywire` strips.
use Prim.Native.Char.{code}
use Prim.Native.String.{◌++◌ as str_append}
use Prim.Native.String.append
use pywire.Base.{◌≡◌, ap, sym, ◌∙◌, Option, none, some, String, ◌==◌, if◌then◌else◌, ==_refl}

-- `str::strip_prefix`.
unfoldable pub strip_prefix : String → String → Option String
strip_prefix String.[] s = some s
strip_prefix (String.◌∷◌ c p) String.[] = none
strip_prefix (String.◌∷◌ c p) (String.◌∷◌ d s) = if code c == code d then strip_prefix p s else none

pub strip_prefix-append : (p s : String) → strip_prefix p (str_append p s) ≡ some s
unfolding strip_prefix
strip_prefix-append String.[] s = ap some (append.nil s)
strip_prefix-append (String.◌∷◌ c p) s =
    rw (append.cons c p s) (rw (==_refl (code c), strip_prefix) (strip_prefix-append p s))

pub str_append_assoc :
    (s t u : String) → str_append (str_append s t) u ≡ str_append s (str_append t u)
str_append_assoc String.[] t u = ap (λ v. str_append v u) (append.nil t) ∙ sym (append.nil _)
str_append_assoc (String.◌∷◌ c s) t u =
    ap (λ v. str_append v u) (append.cons c s t)
    ∙ append.cons c (str_append s t) u
    ∙ ap (λ v. String.◌∷◌ c v) (str_append_assoc s t u)
    ∙ sym (append.cons c s (str_append t u))
