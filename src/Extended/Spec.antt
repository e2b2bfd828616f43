-- ===== src/Extended/Spec.antt =====
-- What the extended protocol promises a client: a session of prepared statements and portals, without
-- tables, stores or Python objects. src/extended.rs is held against it.
pub mod Views
use pywire.Base.{
  ◌≡◌, ◌⊎◌, refl, Bool, true, false, not, Option, none, some, String, str_eq, if◌then◌else◌, codes,
  ◌==◌,
}
use pywire.HashMap.{lookup}
use pywire.Extended.EmptyQuery.{is_empty_query}
use pywire.Extended.State.{PortalEntry, Parse, Bind, Close, Client, PortalStore, World, name_or}
use pywire.Extended.Bind.{is_some, target_statement}
use pywire.Extended.Requests.{
  Request, parse, bind, sync, close, describe_statement, describe_portal, execute,
}
use pywire.Extended.Invariant.{stored_kind}

-- By name: whether a statement has a query; and a portal's statement, with the same.
pub record SessionView : Type 0 where
  pub statements : String → Option Bool
  pub portals : String → Option (String × Bool)

abbrev pub view_entry : Option PortalEntry → Option (String × Bool)
view_entry none = none
view_entry (some e) = some (e.statement_name, is_some e.bound)

abbrev pub view : {Store : Type 0} → PortalStore Store → Client Store → SessionView
view store c = record {
  statements = λ n. stored_kind (store.get_statement c.store n);
  portals = λ n. view_entry (lookup n c.resources.portals);
}

-- A portal of the statement `name`.
abbrev pub is_of : String → Option (String × Bool) → Bool
is_of name none = false
is_of name (some (statement_name, kind)) = str_eq statement_name name

-- Closing: a portal; a statement with all its portals; all portals.
abbrev pub forget_portal : String → SessionView → SessionView
forget_portal name s = record s { portals = λ n. if str_eq name n then none else s.portals n }

abbrev pub forget_statement : String → SessionView → SessionView
forget_statement name s = record {
  statements = λ n. if str_eq name n then none else s.statements n;
  portals = λ n. if is_of name (s.portals n) then none else s.portals n;
}

abbrev pub forget_portals : SessionView → SessionView
forget_portals s = record s { portals = λ n. none }

abbrev pub prepare : String → Bool → SessionView → SessionView
prepare name kind s = record s {
  statements = λ n. if str_eq name n then some kind else s.statements n;
}

abbrev pub opened : String → Option Bool → Option (String × Bool)
opened statement_name none = none
opened statement_name (some kind) = some (statement_name, kind)

abbrev pub open_portal : String → String → SessionView → SessionView
open_portal name statement_name s = record s {
  portals = λ n.
      if str_eq name n then opened statement_name (s.statements statement_name) else s.portals n;
}

-- The unnamed statement is replaced, a named one is not.
abbrev pub parse_spec : World → Parse → SessionView → SessionView
parse_spec w m s =
    let name = name_or w.default_name m.name in
    prepare name (not (is_empty_query (codes m.query)))
      (if str_eq name w.default_name then forget_statement name s else s)

abbrev pub bind_spec : World → Bind → SessionView → SessionView
bind_spec w m s =
    open_portal (name_or w.default_name m.portal_name) (name_or w.default_name m.statement_name) s

abbrev pub sync_spec : Bool → SessionView → SessionView
sync_spec idle s = if idle then forget_portals s else s

abbrev pub close_spec : World → Close → SessionView → SessionView
close_spec w m s =
    let name = name_or w.default_name m.name in
    if m.target_type == target_statement then forget_statement name s else forget_portal name s

-- Two sessions that no client can tell apart.
pub record SameView (a b : SessionView) : Type 0 where
  pub statements : (n : String) → a.statements n ≡ b.statements n
  pub portals : (n : String) → a.portals n ≡ b.portals n

pub SameView-refl : (a : SessionView) → SameView a a
SameView-refl a = record { statements = λ n. refl; portals = λ n. refl }

-- What the protocol promises of a request that returned, inside and outside of a transaction. Only an
-- execution is not determined: it may have ended the transaction.
abbrev pub Promises : World → Bool → Request → SessionView → SessionView → Type 0
Promises w idle (parse m) a b = SameView b (parse_spec w m a)
Promises w idle (bind m) a b = SameView b (bind_spec w m a)
Promises w idle sync a b = SameView b (sync_spec idle a)
Promises w idle (close m) a b = SameView b (close_spec w m a)
Promises w idle (describe_statement target) a b = SameView b a
Promises w idle (describe_portal target) a b = SameView b a
Promises w idle (execute portal max_rows) a b = SameView b a ⊎ SameView b (forget_portals a)
