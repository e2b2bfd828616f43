-- ===== src/Extended/Frame/Closing.antt =====
-- Closing in src/extended.rs opens and changes nothing, whatever it ends in.
use pywire.Base.{
  refl, Bool, true, false, Option, none, some, List, [], ◌∷◌, arith, String, str_eq, if◌then◌else◌,
  inl, inr,
}
use pywire.HashMap.{lookup, remove, keys, lookup-remove}
use pywire.Query.Response.{Py}
use pywire.Extended.State.{BoundPortal, Call, Client, PortalStore, IsStore, World}
use pywire.Extended.Action.{Action, pure, gets, modify, ◌>>=◌, ◌>>◌, call_method}
use pywire.Extended.Close.{
  call_close, close_portal, drop_portal, drop_each, close_all_portals, call_close_statement,
  forget_statement, close_statement, names_of, bound_of, is_value, instance_for,
}
use pywire.Extended.Frame.{
  KeptOrGone, Frame, Frame-refl, Framed, bind-Framed, if-Frame, call_method-Framed,
}

module _ {Store : Type 0} (store : PortalStore Store) (laws : IsStore store)
    (opens_portal opens_statement : String → Bool) (w : World) (handler : Option Py) where
  abbrev pub F : Client Store → Client Store → Type 0
  F = Frame store laws opens_portal opens_statement

  abbrev pub Keeps : {A : Type 0} → Action Store A → Type 0
  Keeps = Framed store laws opens_portal opens_statement

  abbrev pub seq :
      {A B : Type 0} (m : Action Store A) (f : A → Action Store B)
      → Keeps m
      → ((a : A) → Keeps (f a))
      → Keeps (m >>= f)
  seq = bind-Framed store laws opens_portal opens_statement

  abbrev pub calls : (call : Call) → Keeps (call_method w call)
  calls = call_method-Framed store laws opens_portal opens_statement w handler

  abbrev pub still : (c : Client Store) → F c c
  still = Frame-refl store laws opens_portal opens_statement

  gone : {A : Type 0} (b : Bool) (x : Option A) → KeptOrGone x (if b then none else x)
  gone true x = inr refl
  gone false x = inl refl

  removed :
      (name : String) (c : Client Store)
      → F c (record c {
        resources = record c.resources { portals = remove name c.resources.portals };
      })
  removed name c = record {
    portal = λ n h. ground (
      arith,
      lookup-remove name n c.resources.portals,
      gone (str_eq name n) (lookup n c.resources.portals),
    );
    statement = λ n h. inl refl;
  }

  lost_portal :
      (name : String) (c : Client Store) → F c (record c { store = store.rm_portal c.store name })
  lost_portal name c = record {
    portal = λ n h. inl refl;
    statement = λ n h. inl (laws.statement-rm_portal c.store name n);
  }

  pub choice :
      {A : Type 0} (b : Bool) (x y : Action Store A)
      → Keeps x
      → Keeps y
      → (c : Client Store) → F c (if b then x c else y c).1
  choice b x y h k c = if-Frame store laws opens_portal opens_statement b c (x c) (y c) (h c) (k c)

  -- What the handlers do to the connection between their calls.
  abbrev without_entry : String → Client Store → Client Store
  without_entry name c = record c {
    resources = record c.resources { portals = remove name c.resources.portals };
  }

  abbrev without_portal : String → Client Store → Client Store
  without_portal name c = record c { store = store.rm_portal c.store name }

  abbrev without_statement : String → Client Store → Client Store
  without_statement name c = record c {
    resources = record c.resources { statements = remove name c.resources.statements };
    store = store.rm_statement c.store name;
  }

  call_close-Keeps :
      (name : String) (b : Option BoundPortal) → Keeps (call_close store w handler name b)
  unfolding call_close
  call_close-Keeps name none = still
  call_close-Keeps name (some b) =
      seq (call_method w (Call.close_portal b.instance_ref name)) (λ _. pure tt) (calls _)
        (λ _ c. still c)

  close_portal-Keeps : (name : String) → Keeps (close_portal store w handler name)
  unfolding close_portal
  close_portal-Keeps name c =
      let close = call_close store w handler name (bound_of (lookup name c.resources.portals)) in
      choice c.installed (close >> modify (without_entry name)) (pure tt)
        (seq close (λ _. modify (without_entry name)) (call_close-Keeps name _)
          (λ _ d. removed name d))
        still c

  pub drop_portal-Keeps : (name : String) → Keeps (drop_portal store w handler name)
  unfolding drop_portal
  drop_portal-Keeps name =
      seq (close_portal store w handler name) (λ _. modify (without_portal name))
        (close_portal-Keeps name) (λ _ d. lost_portal name d)

  drop_each-Keeps : (names : List String) → Keeps (drop_each store w handler names)
  unfolding drop_each
  drop_each-Keeps [] = still
  drop_each-Keeps (name ∷ names) =
      seq (drop_portal store w handler name) (λ _. drop_each store w handler names)
        (drop_portal-Keeps name) (λ _. drop_each-Keeps names)

  pub close_all_portals-Keeps : Keeps (close_all_portals store w handler)
  unfolding close_all_portals
  close_all_portals-Keeps =
      seq (gets (λ c. if c.installed then keys c.resources.portals else []))
        (λ names. drop_each store w handler names >> modify (without_portal w.default_name)) still
        (λ names.
          seq (drop_each store w handler names) (λ _. modify (without_portal w.default_name))
            (drop_each-Keeps names) (λ _ d. lost_portal w.default_name d))

  call_close_statement-Keeps :
      (name : String) (b : Bool) (o : Option Py)
      → Keeps (call_close_statement store w handler name b o)
  unfolding call_close_statement
  call_close_statement-Keeps name false o = still
  call_close_statement-Keeps name true none = still
  call_close_statement-Keeps name true (some i) =
      seq (call_method w (Call.close_statement i name)) (λ _. pure tt) (calls _) (λ _ c. still c)

  forgotten : (name : String) (c : Client Store) → F c (without_statement name c)
  forgotten name c = record {
    portal = λ n h. inl refl;
    statement = λ n h. ground (
      arith,
      laws.get-rm_statement c.store name n,
      gone (str_eq name n) (store.get_statement c.store n),
    );
  }

  forget_statement-Keeps : (name : String) → Keeps (forget_statement store w handler name)
  unfolding forget_statement
  forget_statement-Keeps name c =
      let close =
        call_close_statement store w handler name (is_value (store.get_statement c.store name))
          (instance_for store w handler c) in
      seq close (λ _. modify (without_statement name)) (call_close_statement-Keeps name _ _)
        (λ _ d. forgotten name d) c

  pub close_statement-Keeps : (name : String) → Keeps (close_statement store w handler name)
  unfolding close_statement
  close_statement-Keeps name c =
      let names = names_of name c.resources.portals in
      choice c.installed (drop_each store w handler names >> forget_statement store w handler name)
        (pure tt)
        (seq (drop_each store w handler names) (λ _. forget_statement store w handler name)
          (drop_each-Keeps names) (λ _. forget_statement-Keeps name))
        still c
