-- ===== src/Tests/Store.antt =====
-- A portal store of two association lists, and Python objects that answer every call with the
-- object 7.
use pywire.Base.{refl, sym, ap, true, none, some, [], ◌∷◌, String, ok, err}
use pywire.HashMap.{HashMap, lookup, insert, remove, lookup-insert, lookup-remove}
use pywire.Error.PgWire.{PgWireResult}
use pywire.Query.Field.{unified_text, PgType, Types}
use pywire.Query.Response.{execution, end}
use pywire.Extended.State.{
  StoredStatement, Portal, Entry, value, empty, idle, Parse, Bind, Close, Client, PortalStore,
  IsStore, World, MakesPortals, name_or,
}

pub record Store : Type 0 where
  pub statements : HashMap (Entry StoredStatement)
  pub portals : HashMap (Entry Portal)

abbrev pub store : PortalStore Store
store = record {
  get_statement = λ m k. lookup k m.statements;
  put_statement = λ m x. record m { statements = insert x.id (value x) m.statements };
  put_empty_statement = λ m k. record m { statements = insert k empty m.statements };
  rm_statement = λ m k. record m { statements = remove k m.statements };
  get_portal = λ m k. lookup k m.portals;
  put_portal = λ m p. record m { portals = insert p.name (value p) m.portals };
  put_empty_portal = λ m k. record m { portals = insert k empty m.portals };
  rm_portal = λ m k. record m { portals = remove k m.portals };
}

pub laws : IsStore store
laws = record {
  get-put_statement = λ m x j. lookup-insert x.id j (value x) m.statements;
  get-put_empty_statement = λ m k j. lookup-insert k j empty m.statements;
  get-rm_statement = λ m k j. lookup-remove k j m.statements;
  get-put_portal = λ m p j. lookup-insert p.name j (value p) m.portals;
  get-put_empty_portal = λ m k j. lookup-insert k j empty m.portals;
  get-rm_portal = λ m k j. lookup-remove k j m.portals;
  statement-put_portal = λ m p j. refl;
  statement-put_empty_portal = λ m k j. refl;
  statement-rm_portal = λ m k j. refl;
  portal-put_statement = λ m x j. refl;
  portal-put_empty_statement = λ m k j. refl;
  portal-rm_statement = λ m k j. refl;
}

abbrev int4 : PgType
int4 = record { oid = 23; name = "int4"; schema = "pg_catalog" }

abbrev pub types : Types
types = record { from_oid = λ oid. none; unknown = int4; oid_name = λ oid. "oid" }

abbrev pub world : World
world = record {
  answer = λ calls call. ok 7;
  get_parameter_types = λ v. ok (23 ∷ []);
  get_fields = λ v. ok [];
  get_response = λ v. ok (execution "COMMIT" none none (some end));
  get_responses = λ v. ok (execution "COMMIT" none none (some end) ∷ []);
  has_close = λ v. true;
  send = λ sent m. ok tt;
  flush = λ sent. ok tt;
  try_new = λ b s. ok (record {
    name = name_or "" b.portal_name;
    statement = s;
    parameter_format = unified_text;
    parameters = b.parameters;
    result_column_format = unified_text;
  });
  default_name = "";
  types = types;
  quoted = λ s. s;
  decimal = λ n. "1";
}

pub makes : MakesPortals world
makes b s p h = (
  ap (λ (r : PgWireResult Portal). name_of r) (sym h),
  ap (λ (r : PgWireResult Portal). statement_of r) (sym h),
)
  where
    name_of : PgWireResult Portal → String
    name_of (ok q) = q.name
    name_of (err e) = ""

    statement_of : PgWireResult Portal → StoredStatement
    statement_of (ok q) = q.statement
    statement_of (err e) = s

-- A connection that startup has prepared.
abbrev pub fresh : Client Store
fresh = record {
  store = record { statements = []; portals = [] };
  ready = true;
  status = idle;
  session_ref = none;
  installed = true;
  resources = record { portals = []; statements = []; session = none };
  sent = [];
  calls = [];
}

abbrev pub parse_s : Parse
parse_s = record { name = some "s"; query = "SELECT 1"; type_oids = 23 ∷ [] }

abbrev pub bind_p : Bind
bind_p = record {
  portal_name = some "p";
  statement_name = some "s";
  parameter_format_codes = 0 ∷ [];
  parameters = some (1 ∷ []) ∷ [];
  result_column_format_codes = [];
}

abbrev pub close_s : Close
close_s = record { target_type = b'S'; name = some "s" }
