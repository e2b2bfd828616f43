-- ===== src/Extended/Handlers.antt =====
-- `on_parse`, `on_sync`, `on_close`, the describe callbacks and `do_query` of `PyExtendedHandler` in
-- src/extended.rs.
use Prim.Native.String.{◌++◌ as str_append}
use pywire.Base.{
  ℕ, Bool, true, false, Option, none, some, List, [], map, String, str_eq, codes, ◌==◌,
  if◌then◌else◌,
}
use pywire.HashMap.{insert, lookup}
use pywire.Error.PgWire.{portal_not_found, invalid_target_type}
use pywire.Query.Field
use pywire.Query.Field.{PgType, FieldInfo, pg_type}
use pywire.Query.Response.{Py}
use pywire.Query.Response.Convert.{Response, into_pg, is_transaction_end}
use pywire.Extended.EmptyQuery.{is_empty_query}
use pywire.Extended.State.{
  Call, StoredStatement, Portal, TransactionStatus, idle, transaction, error, parse_complete,
  close_complete, ready_for_query, Parse, Close, PortalStore, World, name_or,
}
use pywire.Extended.Action.{
  done, failed, Action, pure, fail, gets, modify, lift_py, expect, ◌>>=◌, ◌>>◌, call_method, send,
  flush, user_err,
}
use pywire.Extended.Close.{bound_of, instance_for, drop_portal, close_all_portals, close_statement}
use pywire.Extended.Bind.{
  is_some, target_statement, target_portal, not_configured, expect_installed,
}

abbrev pub is_idle : TransactionStatus → Bool
is_idle idle = true
is_idle transaction = false
is_idle error = false

module _ {Store : Type 0} (store : PortalStore Store) (w : World) (handler : Option Py) where
  -- The `types` of `on_parse`.
  abbrev pub parameter_type : ℕ → Option PgType
  parameter_type oid = if oid == 0 then none else some (pg_type w.types oid)

  -- `parse_statement`.
  abbrev pub parse_statement : String → Parse → Option Py → Action Store Py
  parse_statement name m none = fail not_configured
  parse_statement name m (some instance_ref) =
      call_method w (Call.parse_statement instance_ref name m.query m.type_oids)

  -- `parse_statement`, the `expect` of its instance, the entry in the table and `put_statement`.
  unfoldable pub store_statement : String → Parse → Option Py → Action Store Unit
  unfolding call_method expect_installed
  store_statement name m instance = do
    statement ← parse_statement name m instance
    instance_ref ← expect instance
    expect_installed store w handler
    modify (λ c. record c {
      resources = record c.resources {
        statements = insert name instance_ref c.resources.statements;
      };
      store = store.put_statement c.store (record {
        id = name;
        statement = statement;
        parameter_types = map parameter_type m.type_oids;
      });
    })

  -- The statement of that name is closed, if it is the unnamed one, and must not exist otherwise.
  unfoldable pub make_room : String → Action Store Unit
  unfolding close_statement
  make_room name c =
      if str_eq name w.default_name
      then close_statement store w handler name c
      else if is_some (store.get_statement c.store name)
      then (fail (
            user_err "42P05"
              (str_append "prepared statement " (str_append (w.quoted name) " already exists"))))
          c
      else (pure tt) c

  -- The part of `on_parse` behind that.
  unfoldable pub prepare : String → Parse → Action Store Unit
  unfolding store_statement instance_for is_empty_query
  prepare name m c =
      if is_empty_query (codes m.query)
      then (modify (λ c. record c { store = store.put_empty_statement c.store name })) c
      else store_statement name m (instance_for store w handler c) c

  -- `on_parse`.
  unfoldable pub on_parse : Parse → Action Store Unit
  unfolding make_room prepare send
  on_parse m =
      let name = name_or w.default_name m.name in
      do make_room name; prepare name m; send w parse_complete

  -- The test of `on_sync`.
  unfoldable pub close_if_idle : Action Store Unit
  unfolding close_all_portals
  close_if_idle c = if is_idle c.status then close_all_portals store w handler c else (pure tt) c

  -- `on_sync`.
  unfoldable pub on_sync : Action Store Unit
  unfolding close_if_idle send flush
  on_sync = do
    close_if_idle
    status ← gets (λ c. c.status)
    send w (ready_for_query status)
    flush w

  -- The `match` of `on_close`.
  unfoldable pub close_target : ℕ → String → Action Store Unit
  unfolding close_statement drop_portal
  close_target target name =
      if target == target_statement
      then close_statement store w handler name
      else if target == target_portal
      then drop_portal store w handler name
      else fail (invalid_target_type target)

  -- `on_close`.
  unfoldable pub on_close : Close → Action Store Unit
  unfolding close_target send
  on_close m = do close_target m.target_type (name_or w.default_name m.name); send w close_complete

  -- `portal_for`.
  unfoldable pub portal_for : String → Action Store Py
  portal_for name c =
      elim (bound_of (if c.installed then lookup name c.resources.portals else none)) [
        | none ↦ (failed (portal_not_found name), c)
        | some b ↦ (done b.portal, c)
      ]

  unfoldable pub describe_statement_by :
      StoredStatement → Option Py → Action Store (List PgType × List FieldInfo)
  unfolding call_method
  describe_statement_by target none = pure ([], [])
  describe_statement_by target (some instance_ref) = do
    result ← call_method w (Call.describe_statement instance_ref target.statement)
    parameters ← lift_py (w.get_parameter_types result)
    fields ← lift_py (w.get_fields result)
    pure (map (pg_type w.types) parameters, map (Field.into_pg w.types) fields)

  -- `do_describe_statement`; without a handler it answers with nothing.
  unfoldable pub do_describe_statement :
      StoredStatement → Action Store (List PgType × List FieldInfo)
  unfolding instance_for describe_statement_by
  do_describe_statement target c = describe_statement_by target (instance_for store w handler c) c

  unfoldable pub describe_portal_by : Portal → Option Py → Action Store (List FieldInfo)
  unfolding call_method portal_for
  describe_portal_by target none = pure []
  describe_portal_by target (some instance_ref) = do
    portal ← portal_for target.name
    result ← call_method w (Call.describe_portal instance_ref portal)
    fields ← lift_py (w.get_fields result)
    pure (map (Field.into_pg w.types) fields)

  -- `do_describe_portal`.
  unfoldable pub do_describe_portal : Portal → Action Store (List FieldInfo)
  unfolding instance_for describe_portal_by
  do_describe_portal target c = describe_portal_by target (instance_for store w handler c) c

  -- The test of `do_query` on the response.
  unfoldable pub after_response : Response → Action Store Response
  unfolding close_all_portals is_transaction_end
  after_response response c =
      if is_transaction_end response
      then (do close_all_portals store w handler; pure response) c
      else (pure response) c

  unfoldable pub run_portal : Portal → ℕ → Option Py → Action Store Response
  unfolding call_method portal_for after_response into_pg
  run_portal portal max_rows none = fail not_configured
  run_portal portal max_rows (some instance_ref) = do
    py_portal ← portal_for portal.name
    result ← call_method w (Call.do_query instance_ref py_portal max_rows)
    response ← lift_py (w.get_response result)
    after_response (into_pg w.types response)

  -- `do_query`.
  unfoldable pub do_query : Portal → ℕ → Action Store Response
  unfolding run_portal instance_for
  do_query portal max_rows c = run_portal portal max_rows (instance_for store w handler c) c
