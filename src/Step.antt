-- ===== src/Step.antt =====
-- Fallible code that changes a state, as actions: they end with a value, with an error that pgwire
-- reports, or in a panic (`expect`). What was changed before an error stays changed. And the
-- conditions that a chain of actions meets.
use pywire.Base.{◌≡◌, refl, Option, none, some, Result, ok, err, arith}
use pywire.Error.Classes.{PyErr}
use pywire.Error.PgWire.{PgWireError, PgWireResult}
use pywire.Error.Boundary.{py_err_to_pywire}

pub data Ending (A : Type 0) : Type 0 where
  done : A → Ending A
  failed : PgWireError → Ending A
  panicked : Ending A

abbrev pub Step : Type 0 → Type 0 → Type 0
Step S A = S → Ending A × S

module _ {S : Type 0} where
  abbrev pub pure : {A : Type 0} → A → Step S A
  pure a c = (done a, c)

  abbrev pub fail : {A : Type 0} → PgWireError → Step S A
  fail e c = (failed e, c)

  abbrev pub gets : {A : Type 0} → (S → A) → Step S A
  gets f c = (done (f c), c)

  abbrev pub modify : (S → S) → Step S Unit
  modify f c = (done tt, f c)

  abbrev pub continue : {A B : Type 0} → Ending A → (A → Step S B) → Step S B
  continue (done a) f c = f a c
  continue (failed e) f c = (failed e, c)
  continue panicked f c = (panicked, c)

  infixl 5 ◌>>=◌ ◌>>◌
  abbrev pub ◌>>=◌ : {A B : Type 0} → Step S A → (A → Step S B) → Step S B
  ◌>>=◌ m f c = let (r, c') = m c in continue r f c'

  abbrev pub ◌>>◌ : {A B : Type 0} → Step S A → Step S B → Step S B
  m >> k = m >>= λ _. k

  -- `?` on a result.
  abbrev pub lift : {A : Type 0} → PgWireResult A → Step S A
  lift (ok a) c = (done a, c)
  lift (err e) c = (failed e, c)

  -- `map_err(py_error)?`
  abbrev pub lift_py : {A : Type 0} → Result PyErr A → Step S A
  lift_py (ok a) c = (done a, c)
  lift_py (err e) c = (failed (py_err_to_pywire e), c)

  -- `.expect(…)`
  abbrev pub expect : {A : Type 0} → Option A → Step S A
  expect none c = (panicked, c)
  expect (some a) c = (done a, c)

-- What a run has to meet: `Q` if it returned, `I` if it ended in an error; and it does not panic.
abbrev pub Post : {A S : Type 0} → (S → Type 0) → (A → S → Type 0) → Ending A × S → Type 0
Post I Q (done a, c) = Q a c
Post I Q (failed e, c) = I c
Post I Q (panicked, c) = ⊥

module _ {S A B : Type 0} (I : S → Type 0) where
  continue_post :
      (Q : A → S → Type 0) (R : B → S → Type 0) (r : Ending A × S) (f : A → Step S B)
      → Post I Q r
      → ((a : A) (c : S) → Q a c → Post I R (f a c))
      → Post I R (continue r.0 f r.1)
  continue_post Q R (done a, c) f h k = k a c h
  continue_post Q R (failed e, c) f h k = h
  continue_post Q R (panicked, c) f h k = absurd h

  pub bind_post :
      (Q : A → S → Type 0) (R : B → S → Type 0) (m : Step S A) (f : A → Step S B) (c : S)
      → Post I Q (m c)
      → ((a : A) (c' : S) → Q a c' → Post I R (f a c'))
      → Post I R ((m >>= f) c)
  bind_post Q R m f c h k = continue_post Q R (m c) f h k

module _ {S A : Type 0} (I : S → Type 0) where
  -- The same with less to show.
  pub weaken_post :
      (Q R : A → S → Type 0) (r : Ending A × S)
      → Post I Q r
      → ((a : A) (c : S) → Q a c → R a c)
      → Post I R r
  weaken_post Q R (done a, c) h k = k a c h
  weaken_post Q R (failed e, c) h k = h
  weaken_post Q R (panicked, c) h k = absurd h

  -- The same on both ways out.
  pub imply_post :
      (J : S → Type 0) (Q R : A → S → Type 0) (r : Ending A × S)
      → Post I Q r
      → ((c : S) → I c → J c)
      → ((a : A) (c : S) → Q a c → R a c)
      → Post J R r
  imply_post J Q R (done a, c) h i k = k a c h
  imply_post J Q R (failed e, c) h i k = i c h
  imply_post J Q R (panicked, c) h i k = h

  -- A result behind `?`: the rest runs in the same state.
  pub bind_lift_post :
      {B : Type 0} (R : B → S → Type 0) (r : PgWireResult A) (f : A → Step S B) (c : S)
      → I c
      → ((a : A) → r ≡ ok a → Post I R (f a c))
      → Post I R ((lift r >>= f) c)
  bind_lift_post R (ok a) f c h k = k a refl
  bind_lift_post R (err e) f c h k = h

  pub bind_lift_py_post :
      {B : Type 0} (R : B → S → Type 0) (r : Result PyErr A) (f : A → Step S B) (c : S)
      → I c
      → ((a : A) → r ≡ ok a → Post I R (f a c))
      → Post I R ((lift_py r >>= f) c)
  bind_lift_py_post R (ok a) f c h k = k a refl
  bind_lift_py_post R (err e) f c h k = h

module _ {S A B : Type 0} where
  -- A chain that returned is two actions that returned.
  pub bind-done :
      (m : Step S A) (f : A → Step S B) (c : S) (b : B) (d : S)
      → (m >>= f) c ≡ (done b, d)
      → (a : A) × (c' : S) × (m c ≡ (done a, c')) × (f a c' ≡ (done b, d))
  bind-done m f c b d h = split (m c) refl h
    where
      split :
          (x : Ending A × S)
          → m c ≡ x
          → continue x.0 f x.1 ≡ (done b, d)
          → (a : A) × (c' : S) × (m c ≡ (done a, c')) × (f a c' ≡ (done b, d))
      split (done a, c') e g = (a, c', e, g)
      split (failed e', c') e g = absurd (ground (arith, g))
      split (panicked, c') e g = absurd (ground (arith, g))
