-- ===== src/Extended/Close.antt =====
-- Closing in src/extended.rs: `instance_for`, `call_python`, `close_portal`, `close_all_portals` and
-- `close_statement` of `PyExtendedHandler`.
use pywire.Base.{
  Bool, true, false, Option, none, some, List, [], ◌∷◌, String, str_eq, if◌then◌else◌,
}
use pywire.HashMap.{HashMap, lookup, remove, keys}
use pywire.Query.Response.{Py}
use pywire.Extended.State.{
  BoundPortal, PortalEntry, Call, Entry, value, empty, Client, PortalStore, World,
}
use pywire.Extended.Action.{Action, pure, gets, modify, ◌>>=◌, ◌>>◌, call_method}

-- `Option::or_else`.
abbrev pub or_else {ℓ} : {A : Type ℓ} → Option A → Option A → Option A
or_else none b = b
or_else (some a) b = some a

-- `entry.bound`, behind a lookup.
abbrev pub bound_of : Option PortalEntry → Option BoundPortal
bound_of none = none
bound_of (some e) = e.bound

-- The names of the portals that were bound from a statement: the `filter` of `close_statement`.
unfoldable pub names_of : String → HashMap PortalEntry → List String
names_of name [] = []
names_of name ((j, e) ∷ m) =
    let rest = names_of name m in if str_eq e.statement_name name then j ∷ rest else rest

abbrev pub is_value : {A : Type 0} → Option (Entry A) → Bool
is_value none = false
is_value (some (value a)) = true
is_value (some empty) = false

-- `handler` is the object that the server was configured with, `PyExtendedHandler::instance`.
module _ {Store : Type 0} (store : PortalStore Store) (w : World) (handler : Option Py) where
  -- `instance_for`.
  unfoldable pub instance_for : Client Store → Option Py
  instance_for c = or_else c.session_ref handler

  abbrev remove_entry : String → Client Store → Client Store
  remove_entry name c = record c {
    resources = record c.resources { portals = remove name c.resources.portals };
  }

  -- The call of `close_portal`, if there is an object to call.
  unfoldable pub call_close : String → Option BoundPortal → Action Store Unit
  unfolding call_method
  call_close name none = pure tt
  call_close name (some b) = do call_method w (Call.close_portal b.instance_ref name); pure tt

  -- `close_portal`: without the connection's resources nothing is done.
  unfoldable pub close_portal : String → Action Store Unit
  unfolding call_close
  close_portal name c =
      if c.installed
      then (do
        call_close name (bound_of (lookup name c.resources.portals))
        modify (remove_entry name))
          c
      else (pure tt) c

  -- `close_portal(client, name).await?; client.portal_store().rm_portal(name);`
  unfoldable pub drop_portal : String → Action Store Unit
  unfolding close_portal
  drop_portal name = do
    close_portal name
    modify (λ c. record c { store = store.rm_portal c.store name })

  -- The `for` loop over portal names.
  unfoldable pub drop_each : List String → Action Store Unit
  unfolding drop_portal
  drop_each [] = pure tt
  drop_each (name ∷ names) = do drop_portal name; drop_each names

  -- `close_all_portals`.
  unfoldable pub close_all_portals : Action Store Unit
  unfolding drop_each
  close_all_portals = do
    names ← gets (λ c. if c.installed then keys c.resources.portals else [])
    drop_each names
    modify (λ c. record c { store = store.rm_portal c.store w.default_name })

  -- That of `close_statement`.
  unfoldable pub call_close_statement : String → Bool → Option Py → Action Store Unit
  unfolding call_method
  call_close_statement name false _ = pure tt
  call_close_statement name true none = pure tt
  call_close_statement name true (some instance_ref) = do
    call_method w (Call.close_statement instance_ref name)
    pure tt

  -- The end of `close_statement`, behind the loop.
  unfoldable pub forget_statement : String → Action Store Unit
  unfolding call_close_statement instance_for
  forget_statement name = do
    c ← gets (λ c. c)
    call_close_statement name (is_value (store.get_statement c.store name)) (instance_for c)
    modify (λ c. record c {
      resources = record c.resources { statements = remove name c.resources.statements };
      store = store.rm_statement c.store name;
    })

  -- `close_statement`.
  unfoldable pub close_statement : String → Action Store Unit
  unfolding drop_each forget_statement
  close_statement name c =
      if c.installed
      then (do
        names ← gets (λ c. names_of name c.resources.portals)
        drop_each names
        forget_statement name)
          c
      else (pure tt) c
