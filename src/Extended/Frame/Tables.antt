-- ===== src/Extended/Frame/Tables.antt =====
-- `on_parse`, `on_sync` and `on_close` of src/extended.rs open and change nothing but the statement
-- that a Parse names, whatever they end in.
use pywire.Base.{
  ◌≡◌, refl, Bool, true, false, Option, none, some, map, arith, String, str_eq, if◌then◌else◌,
  codes, ◌==◌, inl,
}
use pywire.HashMap.{insert}
use pywire.Query.Response.{Py}
use pywire.Extended.EmptyQuery.{is_empty_query}
use pywire.Extended.State.{
  Call, StoredStatement, parse_complete, close_complete, ready_for_query, Parse, Close, Client,
  PortalStore, IsStore, World, name_or,
}
use pywire.Extended.Action.{Action, pure, fail, gets, modify, ◌>>=◌, ◌>>◌, call_method, send, flush}
use pywire.Extended.Close.{close_all_portals, close_statement, instance_for}
use pywire.Extended.Bind.{is_some, target_statement, target_portal, expect_installed}
use pywire.Extended.Handlers.{
  is_idle, parameter_type, store_statement, make_room, prepare, on_parse, close_if_idle, on_sync,
  close_target, on_close,
}
use pywire.Extended.Frame.{flush-Framed}
use pywire.Extended.Frame.Closing.{
  close_all_portals-Keeps, close_statement-Keeps, drop_portal-Keeps,
}
use pywire.Extended.Frame.Bind.{K, G, stays, both, either, called, send-K, expect_installed-K}

module _ {Store : Type 0} (store : PortalStore Store) (laws : IsStore store)
    (opens_portal opens_statement : String → Bool) (w : World) (handler : Option Py) where
  abbrev T : {A : Type 0} → Action Store A → Type 0
  T = K store laws opens_portal opens_statement w handler

  abbrev same_state : (c : Client Store) → G store laws opens_portal opens_statement w handler c c
  same_state = stays store laws opens_portal opens_statement w handler

  abbrev chain :
      {A B : Type 0} (m : Action Store A) (f : A → Action Store B)
      → T m
      → ((a : A) → T (f a))
      → T (m >>= f)
  chain = both store laws opens_portal opens_statement w handler

  abbrev branch :
      {A : Type 0} (b : Bool) (x y : Action Store A)
      → T x
      → T y
      → (c : Client Store)
      → G store laws opens_portal opens_statement w handler c (if b then x c else y c).1
  branch = either store laws opens_portal opens_statement w handler

  close_all : T (close_all_portals store w handler)
  close_all = close_all_portals-Keeps store laws opens_portal opens_statement w handler

  close_one : (name : String) → T (close_statement store w handler name)
  close_one = close_statement-Keeps store laws opens_portal opens_statement w handler

  sends : (m : _) → T (send w m)
  sends = send-K store laws opens_portal opens_statement w handler

  calls : (call : Call) → T (call_method w call)
  calls = called store laws opens_portal opens_statement w handler

  module _ (name : String)
      (asked : (n : String) → opens_statement n ≡ false → str_eq name n ≡ false) where
    abbrev statement_of : Parse → Py → StoredStatement
    statement_of m statement = record {
      id = name;
      statement = statement;
      parameter_types = map (parameter_type store w handler) m.type_oids;
    }

    abbrev stored : Parse → Py → Py → Client Store → Client Store
    stored m i statement c = record c {
      resources = record c.resources { statements = insert name i c.resources.statements };
      store = store.put_statement c.store (statement_of m statement);
    }

    stored-G :
        (m : Parse) (i statement : Py) (c : Client Store)
        → G store laws opens_portal opens_statement w handler c (stored m i statement c)
    stored-G m i statement c = record {
      portal = λ n k. inl refl;
      statement = λ n k.
          inl (
            ground (arith, laws.get-put_statement c.store (statement_of m statement) n, asked n k));
    }

    store_statement-T : (m : Parse) (o : Option Py) → T (store_statement store w handler name m o)
    unfolding store_statement
    store_statement-T m none = same_state
    store_statement-T m (some i) =
        chain (call_method w (Call.parse_statement i name m.query m.type_oids))
          (λ statement. expect_installed store w handler >> modify (stored m i statement)) (calls _)
          (λ statement.
            chain (expect_installed store w handler) (λ _. modify (stored m i statement))
              (expect_installed-K store laws opens_portal opens_statement w handler)
              (λ _ c. stored-G m i statement c))

    emptied :
        (c : Client Store)
        → G store laws opens_portal opens_statement w handler c
            (record c { store = store.put_empty_statement c.store name })
    emptied c = record {
      portal = λ n k. inl refl;
      statement =
          λ n k. inl (ground (arith, laws.get-put_empty_statement c.store name n, asked n k));
    }

    prepare-T : (m : Parse) → T (prepare store w handler name m)
    unfolding prepare
    prepare-T m c =
        branch (is_empty_query (codes m.query))
          (modify (λ c. record c { store = store.put_empty_statement c.store name }))
          (store_statement store w handler name m (instance_for store w handler c)) emptied
          (store_statement-T m _) c

    make_room-T : T (make_room store w handler name)
    unfolding make_room
    make_room-T c =
        branch (str_eq name w.default_name) (close_statement store w handler name)
          (λ c. if is_some (store.get_statement c.store name) then fail _ c else (pure tt) c)
          (close_one name) (λ c. branch _ (fail _) (pure tt) same_state same_state c) c

  pub on_parse-T :
      (m : Parse)
      → ((n : String)
          → opens_statement n ≡ false
          → str_eq (name_or w.default_name m.name) n ≡ false)
      → T (on_parse store w handler m)
  unfolding on_parse
  on_parse-T m asked =
      let name = name_or w.default_name m.name in
      chain (make_room store w handler name)
        (λ _. prepare store w handler name m >> send w parse_complete) (make_room-T name asked)
        (λ _.
          chain (prepare store w handler name m) (λ _. send w parse_complete)
            (prepare-T name asked m) (λ _. sends parse_complete))

  pub on_sync-T : T (on_sync store w handler)
  unfolding on_sync close_if_idle
  on_sync-T =
      chain (close_if_idle store w handler)
        (λ _. gets (λ (c : Client Store). c.status) >>= λ status.
          send w (ready_for_query status) >> flush w)
        (λ c.
          branch (is_idle c.status) (close_all_portals store w handler) (pure tt) close_all
            same_state c)
        (λ _ c.
          chain (send w (ready_for_query c.status)) (λ _. flush w) (sends _)
            (λ _. flush-Framed store laws opens_portal opens_statement w handler) c)

  test : {A : Type 0} (b : Bool) (x y : Action Store A) → T x → T y → T (if b then x else y)
  test true x y h k = h
  test false x y h k = k

  pub on_close-T : (m : Close) → T (on_close store w handler m)
  unfolding on_close close_target
  on_close-T m =
      let name = name_or w.default_name m.name in
      chain (close_target store w handler m.target_type name) (λ _. send w close_complete)
        (test (m.target_type == target_statement) _ _ (close_one name) (
          test (m.target_type == target_portal) _ (fail _)
            (drop_portal-Keeps store laws opens_portal opens_statement w handler name) same_state))
        (λ _. sends close_complete)
