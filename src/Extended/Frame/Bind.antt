-- ===== src/Extended/Frame/Bind.antt =====
-- `on_bind` of src/extended.rs opens and changes nothing but the portal that it names, whatever it
-- ends in.
use pywire.Base.{
  ◌≡◌, Bool, false, Option, none, some, arith, String, str_eq, if◌then◌else◌, Result, inl,
}
use pywire.HashMap.{insert, lookup-insert}
use pywire.Error.Classes.{PyErr}
use pywire.Error.PgWire.{PgWireResult}
use pywire.Query.Response.{Py}
use pywire.Extended.State.{
  PortalEntry, Call, StoredStatement, Portal, Entry, value, empty, bind_complete, Bind, Client,
  PortalStore, IsStore, World, name_or,
}
use pywire.Extended.Action.{
  Action, pure, fail, gets, modify, lift, lift_py, ◌>>=◌, ◌>>◌, call_method, send,
}
use pywire.Extended.Close.{drop_portal, instance_for}
use pywire.Extended.Bind.{
  check_codes, check_empty, bind_call, open_portal, open_empty_portal, expect_installed,
  ok_or_not_configured, bind_statement, check_portal, on_bind,
}
use pywire.Extended.Frame.{lift-Frame, lift_py-Frame, expect-Frame, send-Framed}
use pywire.Extended.Frame.Closing.{F, Keeps, seq, calls, still, choice, drop_portal-Keeps}

module _ {Store : Type 0} (store : PortalStore Store) (laws : IsStore store)
    (opens_portal opens_statement : String → Bool) (w : World) (handler : Option Py) where
  abbrev pub K : {A : Type 0} → Action Store A → Type 0
  K = Keeps store laws opens_portal opens_statement w handler

  abbrev pub G : Client Store → Client Store → Type 0
  G = F store laws opens_portal opens_statement w handler

  abbrev pub stays : (c : Client Store) → G c c
  stays = still store laws opens_portal opens_statement w handler

  abbrev pub both :
      {A B : Type 0} (m : Action Store A) (f : A → Action Store B)
      → K m
      → ((a : A) → K (f a))
      → K (m >>= f)
  both = seq store laws opens_portal opens_statement w handler

  abbrev pub either :
      {A : Type 0} (b : Bool) (x y : Action Store A)
      → K x
      → K y
      → (c : Client Store) → G c (if b then x c else y c).1
  either = choice store laws opens_portal opens_statement w handler

  abbrev pub called : (call : Call) → K (call_method w call)
  called = calls store laws opens_portal opens_statement w handler

  pub lift-K : {A : Type 0} (r : PgWireResult A) → K (lift r)
  lift-K r c = lift-Frame store laws opens_portal opens_statement r c c (stays c)

  pub lift_py-K : {A : Type 0} (r : Result PyErr A) → K (lift_py r)
  lift_py-K r c = lift_py-Frame store laws opens_portal opens_statement r c c (stays c)

  pub send-K : (m : _) → K (send w m)
  send-K = send-Framed store laws opens_portal opens_statement w handler

  pub expect_installed-K : K (expect_installed store w handler)
  unfolding expect_installed
  expect_installed-K c =
      expect-Frame store laws opens_portal opens_statement (if c.installed then some tt else none) c
        c (stays c)

  -- `on_bind`, where `opens_portal` has the name of the portal.
  module _ (portal_name statement_name : String)
      (asked : (n : String) → opens_portal n ≡ false → str_eq portal_name n ≡ false) where
    inserted :
        (e : PortalEntry) (s : Store) (c : Client Store)
        → ((n : String) → store.get_statement s n ≡ store.get_statement c.store n)
        → G c (record c {
          resources = record c.resources { portals = insert portal_name e c.resources.portals };
          store = s;
        })
    inserted e s c h = record {
      portal =
          λ n k. inl (ground (arith, lookup-insert portal_name n e c.resources.portals, asked n k));
      statement = λ n k. inl (h n);
    }

    open_portal-K :
        (i : Py) (portal : Portal)
        → K (open_portal store w handler i portal_name statement_name portal)
    unfolding open_portal
    open_portal-K i portal =
        both (call_method w (bind_call store w handler i portal))
          (λ py_portal. modify (λ c. record c {
            resources = record c.resources {
              portals =
                  insert portal_name
                    (record {
                      statement_name = statement_name;
                      bound = some (record { instance_ref = i; portal = py_portal });
                    })
                    c.resources.portals;
            };
            store = store.put_portal c.store portal;
          }))
          (called _)
          (λ v c.
            inserted _ (store.put_portal c.store portal) c
              (laws.statement-put_portal c.store portal))

    open_empty_portal-K : K (open_empty_portal store w handler portal_name statement_name)
    unfolding open_empty_portal
    open_empty_portal-K c =
        inserted _ (store.put_empty_portal c.store portal_name) c
          (laws.statement-put_empty_portal c.store portal_name)

    ok_or_not_configured-K : (o : Option Py) → K (ok_or_not_configured store w handler o)
    unfolding ok_or_not_configured
    ok_or_not_configured-K none = stays
    ok_or_not_configured-K (some i) = stays

    bind_statement-K :
        (m : Bind) (o : Option (Entry StoredStatement))
        → K (bind_statement store w handler portal_name statement_name m o)
    unfolding bind_statement
    bind_statement-K m (some (value statement)) =
        both (lift (w.try_new m statement))
          (λ portal. gets (instance_for store w handler) >>= λ found.
            ok_or_not_configured store w handler found >>= λ i.
            drop_portal store w handler portal_name
            >> (expect_installed store w handler
                >> open_portal store w handler i portal_name statement_name portal))
          (lift-K _)
          (λ portal c.
            both (ok_or_not_configured store w handler (instance_for store w handler c))
              (λ i.
                drop_portal store w handler portal_name
                >> (expect_installed store w handler
                    >> open_portal store w handler i portal_name statement_name portal))
              (ok_or_not_configured-K _)
              (λ i.
                both (drop_portal store w handler portal_name)
                  (λ _.
                    expect_installed store w handler
                    >> open_portal store w handler i portal_name statement_name portal)
                  (drop_portal-Keeps store laws opens_portal opens_statement w handler portal_name)
                  (λ _.
                    both (expect_installed store w handler)
                      (λ _. open_portal store w handler i portal_name statement_name portal)
                      expect_installed-K (λ _. open_portal-K i portal)))
              c)
    bind_statement-K m (some empty) =
        both (lift (check_empty w statement_name m))
          (λ _.
            drop_portal store w handler portal_name
            >> (expect_installed store w handler
                >> open_empty_portal store w handler portal_name statement_name))
          (lift-K _)
          (λ _.
            both (drop_portal store w handler portal_name)
              (λ _.
                expect_installed store w handler
                >> open_empty_portal store w handler portal_name statement_name)
              (drop_portal-Keeps store laws opens_portal opens_statement w handler portal_name)
              (λ _.
                both (expect_installed store w handler)
                  (λ _. open_empty_portal store w handler portal_name statement_name)
                  expect_installed-K (λ _. open_empty_portal-K)))
    bind_statement-K m none = stays

  -- The rest of `on_bind`, and the whole.
  pub on_bind-K :
      (m : Bind)
      → ((n : String)
          → opens_portal n ≡ false
          → str_eq (name_or w.default_name m.portal_name) n ≡ false)
      → K (on_bind store w handler m)
  unfolding on_bind check_portal
  on_bind-K m asked =
      let statement_name = name_or w.default_name m.statement_name in
      let portal_name = name_or w.default_name m.portal_name in
      let found = λ (c : Client Store). store.get_statement c.store statement_name in
      let bound = λ (o : Option (Entry StoredStatement)).
        bind_statement store w handler portal_name statement_name m o >> send w bind_complete in
      both (check_portal store w handler portal_name)
        (λ _. lift (check_codes w m) >> (gets found >>= bound))
        (λ c. either _ (fail _) (pure tt) stays stays c)
        (λ _.
          both (lift (check_codes w m)) (λ _. gets found >>= bound) (lift-K _)
            (λ _ c.
              both (bind_statement store w handler portal_name statement_name m (found c))
                (λ _. send w bind_complete)
                (bind_statement-K portal_name statement_name asked m (found c))
                (λ _. send-K bind_complete) c))
