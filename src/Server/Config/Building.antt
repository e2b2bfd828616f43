-- ===== src/Server/Config/Building.antt =====
-- What `HandlerConfig::build` of src/server.rs makes for SCRAM over passwords.
use pywire.Base.{ℕ, ◌≡◌, ◌≢◌, Option, none, some, arith, ok, err}
use pywire.Error.PgWire.{PgWireResult}
use pywire.Query.Response.{Py}
use pywire.Scram.Crypto.{Bytes}
use pywire.Step.{Ending, done, failed, panicked}
use pywire.Server.Config.{noop, scram_password, scram_configured, build_scram}

-- It builds or fails, it does not panic.
abbrev pub Returns : {A : Type 0} → Ending A → Type 0
Returns (done a) = Unit
Returns (failed e) = Unit
Returns panicked = ⊥

pub scram-Returns :
    (configure : Bytes → PgWireResult (Unit {0})) (n : ℕ) (pem : Option Bytes) (p : Py)
    → Returns (build_scram configure n pem (some p))
unfolding build_scram
scram-Returns configure n none p = tt
scram-Returns configure n (some pem) p = of_result (configure pem)
  where
    of_result : (r : PgWireResult (Unit {0})) → Returns (scram_configured p n pem r)
    of_result (ok v) = tt
    of_result (err e) = tt

pub scram_checks :
    (configure : Bytes → PgWireResult (Unit {0})) (n : ℕ) (pem : Option Bytes) (o : Option Py)
    → build_scram configure n pem o ≢ done noop
unfolding build_scram
scram_checks configure n pem none h = absurd (ground (arith, h))
scram_checks configure n none (some p) h = absurd (ground (arith, h))
scram_checks configure n (some pem) (some p) h = of_result (configure pem) h
  where
    of_result : (r : PgWireResult (Unit {0})) → scram_configured p n pem r ≢ done noop
    of_result (ok v) g = absurd (ground (arith, g))
    of_result (err e) g = absurd (ground (arith, g))

pub scram_given :
    (configure : Bytes → PgWireResult (Unit {0})) (n : ℕ) (pem : Option Bytes) (o : Option Py)
    (auth : Py) (k : ℕ) (p : Option Bytes)
    → build_scram configure n pem o ≡ done (scram_password auth k p)
    → (k ≡ n) × (p ≡ pem)
unfolding build_scram
scram_given configure n pem none auth k p h = absurd (ground (arith, h))
scram_given configure n none (some source) auth k p h = (ground (arith, h), ground (arith, h))
scram_given configure n (some b) (some source) auth k p h = of_result (configure b) h
  where
    of_result :
        (r : PgWireResult (Unit {0}))
        → scram_configured source n b r ≡ done (scram_password auth k p)
        → (k ≡ n) × (p ≡ some b)
    of_result (ok v) g = (ground (arith, g), ground (arith, g))
    of_result (err e) g = absurd (ground (arith, g))
