-- ===== src/Extended/Bind.antt =====
-- `on_bind` and `bind_portal` of `PyExtendedHandler` in src/extended.rs.
use Prim.Native.String.{◌++◌ as str_append}
pub use pywire.Base.{is_some}
use pywire.Base.{
  ℕ, not, ◌&&◌, Option, none, some, List, [], ◌∷◌, ◌++◌, String, str_eq, codes, length, ltb, ◌==◌,
  if◌then◌else◌, ok, err,
}
use pywire.HashMap.{insert}
use pywire.Error.PgWire.{PgWireError, PgWireResult, api_error, statement_not_found}
use pywire.Query.Field.{format_codes, result_format_codes}
use pywire.Query.Response.{Py}
use pywire.Extended.State.{
  Call, StoredStatement, Portal, Entry, value, empty, bind_complete, Bind, PortalStore, World,
  name_or,
}
use pywire.Extended.Action.{
  Action, pure, fail, gets, modify, lift, expect, ◌>>=◌, ◌>>◌, call_method, send, user_err,
}
use pywire.Extended.Close.{instance_for, drop_portal}

-- `TARGET_TYPE_BYTE_STATEMENT` and `TARGET_TYPE_BYTE_PORTAL` of pgwire.
abbrev pub target_statement : ℕ
target_statement = b'S'

abbrev pub target_portal : ℕ
target_portal = b'P'

abbrev pub not_configured : PgWireError
not_configured = api_error "extended query callback is not configured"

-- The first code that is neither 0 nor 1.
unfoldable pub bad_code : List ℕ → Option ℕ
bad_code [] = none
bad_code (code ∷ codes) = if not (code == 0) && not (code == 1) then some code else bad_code codes

-- The checks of `on_bind` on the message alone, in their order.
unfoldable pub check_codes : World → Bind → PgWireResult (Unit {0})
unfolding bad_code
check_codes w m =
    let count = length m.parameter_format_codes in
    if ltb 1 count && not (count == length m.parameters)
    then err (
        user_err "08P01" (
          str_append "bind message supplies " (
            str_append (w.decimal count) (
              str_append " parameter format codes for "
                (str_append (w.decimal (length m.parameters)) " parameters")))))
    else elim (bad_code (m.parameter_format_codes ++ m.result_column_format_codes)) [
      | some code ↦
          err
            (user_err "08P01" (str_append "bind message has invalid format code " (w.decimal code)))
      | none ↦ ok tt
    ]

-- Those on a statement with no query, which has no columns and no parameters.
unfoldable pub check_empty : World → String → Bind → PgWireResult (Unit {0})
check_empty w statement_name m =
    if ltb 1 (length m.result_column_format_codes)
    then err (
        user_err "08P01" (
          str_append "bind message supplies " (
            str_append (w.decimal (length m.result_column_format_codes))
              " result format codes for 0 columns")))
    else if not (length m.parameters == 0)
    then err (
        user_err "08P01" (
          str_append "bind message supplies " (
            str_append (w.decimal (length m.parameters)) (
              str_append " parameters, but prepared statement "
                (str_append (w.quoted statement_name) " requires 0")))))
    else ok tt

module _ {Store : Type 0} (store : PortalStore Store) (w : World) (handler : Option Py) where
  -- The call of `bind_portal`.
  abbrev pub bind_call : Py → Portal → Call
  bind_call instance_ref portal =
      Call.bind_portal instance_ref portal.name portal.statement.statement portal.parameters
        (format_codes portal.parameter_format (length portal.parameters))
        (result_format_codes portal.result_column_format)

  -- `bind_portal`, the entry in the table, and `put_portal`.
  unfoldable pub open_portal : Py → String → String → Portal → Action Store Unit
  unfolding call_method format_codes result_format_codes
  open_portal instance_ref portal_name statement_name portal = do
    py_portal ← call_method w (bind_call instance_ref portal)
    modify (λ c. record c {
      resources = record c.resources {
        portals =
            insert portal_name
              (record {
                statement_name = statement_name;
                bound = some (record { instance_ref = instance_ref; portal = py_portal });
              })
              c.resources.portals;
      };
      store = store.put_portal c.store portal;
    })

  -- The entry of a portal with no query, and `put_empty_portal`.
  unfoldable pub open_empty_portal : String → String → Action Store Unit
  open_empty_portal portal_name statement_name = modify (λ c. record c {
    resources = record c.resources {
      portals =
          insert portal_name (record { statement_name = statement_name; bound = none })
            c.resources.portals;
    };
    store = store.put_empty_portal c.store portal_name;
  })

  -- `get::<Arc<PythonPortals>>().expect("startup installed connection resources")`
  unfoldable pub expect_installed : Action Store Unit
  expect_installed c = expect (if c.installed then some tt else none) c

  -- `ok_or_else` on the object that serves the connection.
  unfoldable pub ok_or_not_configured : Option Py → Action Store Py
  ok_or_not_configured none = fail not_configured
  ok_or_not_configured (some instance_ref) = pure instance_ref

  -- The `match` of `on_bind` on the stored statement.
  unfoldable pub bind_statement :
      String → String → Bind → Option (Entry StoredStatement) → Action Store Unit
  unfolding ok_or_not_configured drop_portal open_portal open_empty_portal expect_installed
      check_empty
  bind_statement portal_name statement_name m (some (value statement)) = do
    portal ← lift (w.try_new m statement)
    found ← gets (instance_for store w handler)
    instance_ref ← ok_or_not_configured found
    drop_portal store w handler portal_name
    expect_installed
    open_portal instance_ref portal_name statement_name portal
  bind_statement portal_name statement_name m (some empty) = do
    lift (check_empty w statement_name m)
    drop_portal store w handler portal_name
    expect_installed
    open_empty_portal portal_name statement_name
  bind_statement portal_name statement_name m none = fail (statement_not_found statement_name)

  -- The check of `on_bind` for a portal of that name.
  unfoldable pub check_portal : String → Action Store Unit
  check_portal portal_name c =
      if not (str_eq portal_name w.default_name) && is_some (store.get_portal c.store portal_name)
      then (fail (
            user_err "42P03"
              (str_append "portal " (str_append (w.quoted portal_name) " already exists"))))
          c
      else (pure tt) c

  -- `on_bind`.
  unfoldable pub on_bind : Bind → Action Store Unit
  unfolding bind_statement check_portal check_codes send
  on_bind m =
      let statement_name = name_or w.default_name m.statement_name in
      let portal_name = name_or w.default_name m.portal_name in
      do
        check_portal portal_name
        lift (check_codes w m)
        found ← gets (λ c. store.get_statement c.store statement_name)
        bind_statement portal_name statement_name m found
        send w bind_complete
