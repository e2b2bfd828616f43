-- ===== src/Extended/Frame.antt =====
-- What the handlers of src/extended.rs leave alone, whatever they end in: conditions between the
-- state before an action and the state behind it.
pub mod Closing
pub mod Bind
pub mod Tables
pub mod Queries
pub mod Handlers
use pywire.Base.{
  ◌≡◌, ◌⊎◌, refl, sym, ap, ◌∙◌, Bool, true, false, Option, none, some, List, [], ◌∷◌, arith, String,
  str_eq, if◌then◌else◌, Result, ok, err, inl, inr, Bool-cases,
}
use pywire.HashMap.{lookup, lookup-remove}
use pywire.Error.Classes.{PyErr}
use pywire.Error.PgWire.{PgWireError, PgWireResult}
use pywire.Query.Response.{Py}
use pywire.Extended.State.{
  BoundPortal, PortalEntry, Call, Message, Entry, StoredStatement, Client, PortalStore, IsStore,
  World,
}
use pywire.Extended.Action.{
  Ending, done, failed, panicked, Action, continue, ◌>>=◌, lift, lift_py, expect, call_method, send,
  flush,
}

-- The same as before, or gone.
abbrev pub KeptOrGone : {A : Type 0} → Option A → Option A → Type 0
KeptOrGone before after = (after ≡ before) ⊎ (after ≡ none)

KeptOrGone-trans :
    {A : Type 0} (x y z : Option A) → KeptOrGone x y → KeptOrGone y z → KeptOrGone x z
KeptOrGone-trans x y z h (inr gone) = inr gone
KeptOrGone-trans x y z (inl e) (inl f) = inl (f ∙ e)
KeptOrGone-trans x y z (inr gone) (inl f) = inr (f ∙ gone)

-- `opens_portal` and `opens_statement` say which names are asked for.
module _ {Store : Type 0} (store : PortalStore Store) (laws : IsStore store)
    (opens_portal opens_statement : String → Bool) where
  -- Nothing that was not asked for is opened or changed.
  pub record Frame (c d : Client Store) : Type 0 where
    pub portal :
        (n : String)
        → opens_portal n ≡ false
        → KeptOrGone (lookup n c.resources.portals) (lookup n d.resources.portals)
    pub statement :
        (n : String)
        → opens_statement n ≡ false
        → KeptOrGone (store.get_statement c.store n) (store.get_statement d.store n)

  pub Frame-refl : (c : Client Store) → Frame c c
  Frame-refl c = record { portal = λ n h. inl refl; statement = λ n h. inl refl }

  pub Frame-trans : (c d e : Client Store) → Frame c d → Frame d e → Frame c e
  Frame-trans c d e p q = record {
    portal = λ n h. KeptOrGone-trans _ _ _ (p.portal n h) (q.portal n h);
    statement = λ n h. KeptOrGone-trans _ _ _ (p.statement n h) (q.statement n h);
  }

  -- An action keeps the frame from every state, in each of its endings.
  abbrev pub Framed : {A : Type 0} → Action Store A → Type 0
  Framed m = (c : Client Store) → Frame c (m c).1

  continue-Frame :
      {A B : Type 0} (c : Client Store) (x : Ending A × Client Store) (f : A → Action Store B)
      → Frame c x.1
      → ((a : A) → Framed (f a))
      → Frame c (continue x.0 f x.1).1
  continue-Frame c (done a, d) f h k = Frame-trans c d _ h (k a d)
  continue-Frame c (failed e, d) f h k = h
  continue-Frame c (panicked, d) f h k = h

  pub bind-Framed :
      {A B : Type 0} (m : Action Store A) (f : A → Action Store B)
      → Framed m
      → ((a : A) → Framed (f a))
      → Framed (m >>= f)
  bind-Framed m f h k c = continue-Frame c (m c) f (h c) k

  pub if-Frame :
      {A : Type 0} (b : Bool) (c : Client Store) (x y : Ending A × Client Store)
      → Frame c x.1
      → Frame c y.1
      → Frame c (if b then x else y).1
  if-Frame true c x y h k = h
  if-Frame false c x y h k = k

  pub lift-Frame :
      {A : Type 0} (r : PgWireResult A) (c d : Client Store) → Frame c d → Frame c (lift r d).1
  lift-Frame (ok a) c d h = h
  lift-Frame (err e) c d h = h

  pub lift_py-Frame :
      {A : Type 0} (r : Result PyErr A) (c d : Client Store) → Frame c d → Frame c (lift_py r d).1
  lift_py-Frame (ok a) c d h = h
  lift_py-Frame (err e) c d h = h

  pub expect-Frame :
      {A : Type 0} (o : Option A) (c d : Client Store) → Frame c d → Frame c (expect o d).1
  expect-Frame none c d h = h
  expect-Frame (some a) c d h = h

  -- The tables and the store are as before.
  pub untouched :
      (c d : Client Store)
      → d.resources.portals ≡ c.resources.portals
      → d.store ≡ c.store
      → Frame c d
  untouched c d p s = record {
    portal = λ n h. inl (ap (lookup n) p);
    statement = λ n h. inl (ap (λ x. store.get_statement x n) s);
  }

  module _ (w : World) (handler : Option Py) where
    pub call_method-Framed : (call : Call) → Framed (call_method w call)
    unfolding call_method
    call_method-Framed call c = lift_py-Frame (w.answer c.calls call) c _ (untouched c _ refl refl)

    pub send-Framed : (m : Message) → Framed (send w m)
    unfolding send
    send-Framed m c = lift-Frame (w.send c.sent m) c _ (untouched c _ refl refl)

    pub flush-Framed : Framed (flush w)
    unfolding flush
    flush-Framed c = lift-Frame (w.flush c.sent) c c (Frame-refl c)
