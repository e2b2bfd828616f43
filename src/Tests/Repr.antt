-- ===== src/Tests/Repr.antt =====
-- Witnesses for what the classes print, and runs of their `__repr__` and constructors.
use pywire.Base.{
  ℕ, ◌≡◌, ◌↔◌, refl, Bool, ◌&&◌, none, some, [], ◌∷◌, arith, codes, length, ltb, leb, replicate,
  err,
}
use pywire.Auth.{PyLoginInfo, PyPassword}
use pywire.Auth.Repr.{login_info_new, login_info_repr, password_repr, login_info_repr-injective}
use pywire.Auth.Secrets.{is_salted, password_repr_iff, verifier_repr_iff}
use pywire.Error.Classes.{other}
use pywire.Scram.Verifier.{Verifier}
use pywire.Scram.Verifier.Repr.{py_new, verifier_repr}
use pywire.Messages.New.{startup_new}
use pywire.Messages.Repr.{startup_repr}
use pywire.Query.Repr.{query_of, response_repr}

-- The characters of ASCII that print.
abbrev printable : ℕ → Bool
printable c = leb 32 c && ltb c 127

abbrev login : PyLoginInfo
login = record { user = some "a\"\n"; database = none; host = "127.0.0.1" }

login_prints :
    login_info_repr printable (login_info_new (some "a\"\n") none none)
    ≡ codes "LoginInfo(user=Some(\"a\\\"\\n\"), database=None, host=\"127.0.0.1\")"
unfolding login_info_repr login_info_new pywire.Debug.quoted
login_prints = refl

startup_prints :
    startup_repr printable (startup_new none none (some (("user", "\u{7f}") ∷ ("b", "") ∷ [])))
    ≡ codes
        "Startup(protocol_number_major=3, protocol_number_minor=0, parameters={\"user\": \"\\u{7f}\", \"b\": \"\"})"
unfolding startup_repr startup_new pywire.Debug.quoted pywire.Scram.Decimal.format_u32
startup_prints = refl

query_prints :
    response_repr printable (query_of [] ([] ∷ []) none)
    ≡ codes "Response.query(command_tag=\"SELECT\", fields=0, rows=1)"
unfolding response_repr query_of pywire.Debug.quoted pywire.Scram.Decimal.format_u32
query_prints = refl

salt_missing :
    py_new 4096 [] [] []
    ≡ err (record { class = other "ValueError"; text = "salt must not be empty" })
unfolding py_new
salt_missing = refl

-- Two logins that print alike.
same_login : login ≡ login_info_new (some "a\"\n") none none
unfolding login_info_new
same_login =
    login_info_repr-injective printable login (login_info_new (some "a\"\n") none none) refl

abbrev secret : PyPassword
secret = record { password = 1 ∷ 2 ∷ []; salt = none }

abbrev guess : PyPassword
guess = record { password = 7 ∷ 7 ∷ []; salt = none }

password_repr_iff_example : (password_repr secret ≡ password_repr guess) ↔ (
    (is_salted secret.salt ≡ is_salted guess.salt)
    × (length secret.password ≡ length guess.password))
password_repr_iff_example = password_repr_iff secret guess (omega arith) (omega arith)

abbrev stored : Verifier
stored = record {
  iterations = 4096;
  salt = 1 ∷ 2 ∷ [];
  stored_key = replicate 32 5;
  server_key = replicate 32 9;
}

abbrev leaked : Verifier
leaked = record {
  iterations = 4096;
  salt = 8 ∷ 9 ∷ [];
  stored_key = replicate 32 0;
  server_key = replicate 32 0;
}

verifier_repr_iff_example :
    (verifier_repr stored ≡ verifier_repr leaked)
    ↔ ((stored.iterations ≡ leaked.iterations) × (length stored.salt ≡ length leaked.salt))
verifier_repr_iff_example =
    verifier_repr_iff stored leaked (omega arith) (omega arith) (omega arith) (omega arith)
