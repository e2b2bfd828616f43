-- ===== src/Auth/Repr.antt =====
-- The constructors and the `__repr__` of the classes of src/auth.rs.
use pywire.Base.{ℕ, ◌≡◌, Bool, Option, none, some, ◌∷◌, ◌++◌, Text, String, codes, length}
use pywire.Auth.{PyLoginInfo, PyPassword}
use pywire.Scram.Crypto.{Bytes}
use pywire.Debug.{decimal, quote, debug_option, or_default}
use pywire.Debug.Quoted.{append-cancel, quote-prefix, debug_option-prefix}

-- `PyLoginInfo::new`, with `none` for a host that is not given.
unfoldable pub login_info_new : Option String → Option String → Option String → PyLoginInfo
unfolding or_default
login_info_new user database host = record {
  user = user;
  database = database;
  host = or_default "127.0.0.1" host;
}

-- `PyPassword::new`.
unfoldable pub password_new : Bytes → Option Bytes → PyPassword
password_new password salt = record { password = password; salt = salt }

-- `PyPassword::__repr__`.
unfoldable pub salted : Option Bytes → Text
salted none = codes "cleartext"
salted (some salt) = codes "salted"

unfoldable pub password_repr : PyPassword → Text
unfolding salted
password_repr p =
    codes "Password(<"
    ++ (salted p.salt ++ (b' ' ∷ (decimal (length p.password) ++ codes "-byte password>)")))

module _ (printable : ℕ → Bool) where
  -- `PyLoginInfo::__repr__`.
  unfoldable pub login_info_repr : PyLoginInfo → Text
  unfolding debug_option
  login_info_repr info =
      codes "LoginInfo(user="
      ++ (debug_option (quote printable) info.user
          ++ (codes ", database="
              ++ (debug_option (quote printable) info.database
                  ++ (codes ", host=" ++ (quote printable info.host ++ codes ")")))))

  -- Two logins that print alike are the same, whatever their texts hold.
  pub login_info_repr-injective :
      (x y : PyLoginInfo) → login_info_repr x ≡ login_info_repr y → x ≡ y
  unfolding login_info_repr
  login_info_repr-injective x y h =
      let (user, h1) =
        debug_option-prefix printable x.user y.user _ _
          (append-cancel (codes "LoginInfo(user=") _ _ h) in
      let (database, h2) =
        debug_option-prefix printable x.database y.database _ _
          (append-cancel (codes ", database=") _ _ h1) in
      let (host, _) =
        quote-prefix printable x.host y.host _ _ (append-cancel (codes ", host=") _ _ h2) in
      λ i. record { user = user i; database = database i; host = host i }
