-- ===== src/Extended/Frame/Queries.antt =====
-- The describe callbacks and `do_query` of src/extended.rs open and change nothing, whatever they
-- end in.
use pywire.Base.{ℕ, Bool, Option, none, some, List, map, String, if◌then◌else◌, Result}
use pywire.HashMap.{lookup}
use pywire.Error.Classes.{PyErr}
use pywire.Query.Field
use pywire.Query.Field.{pg_type, FieldInfo, PgType}
use pywire.Query.Response.{Py}
use pywire.Query.Response.Convert
use pywire.Query.Response.{PyResponse}
use pywire.Query.Field.{PyFieldInfo}
use pywire.Error.PgWire.{portal_not_found}
use pywire.Query.Response.Convert.{Response, into_pg, is_transaction_end}
use pywire.Extended.State.{
  BoundPortal, Call, StoredStatement, Portal, Client, PortalStore, IsStore, World,
}
use pywire.Extended.Action.{Ending, done, failed, Action, pure, lift_py, ◌>>=◌, ◌>>◌, call_method}
use pywire.Extended.Close.{close_all_portals, bound_of}
use pywire.Extended.Handlers.{
  portal_for, describe_statement_by, describe_portal_by, after_response, run_portal,
}
use pywire.Extended.Frame.Closing.{close_all_portals-Keeps}
use pywire.Extended.Frame.Bind.{K, G, stays, both, either, called, lift_py-K}

module _ {Store : Type 0} (store : PortalStore Store) (laws : IsStore store)
    (opens_portal opens_statement : String → Bool) (w : World) (handler : Option Py) where
  abbrev T : {A : Type 0} → Action Store A → Type 0
  T = K store laws opens_portal opens_statement w handler

  abbrev same_state : (c : Client Store) → G store laws opens_portal opens_statement w handler c c
  same_state = stays store laws opens_portal opens_statement w handler

  abbrev chain :
      {A B : Type 0} (m : Action Store A) (f : A → Action Store B)
      → T m
      → ((a : A) → T (f a))
      → T (m >>= f)
  chain = both store laws opens_portal opens_statement w handler

  abbrev branch :
      {A : Type 0} (b : Bool) (x y : Action Store A)
      → T x
      → T y
      → (c : Client Store)
      → G store laws opens_portal opens_statement w handler c (if b then x c else y c).1
  branch = either store laws opens_portal opens_statement w handler

  close_all : T (close_all_portals store w handler)
  close_all = close_all_portals-Keeps store laws opens_portal opens_statement w handler

  reads : {A : Type 0} (r : Result PyErr A) → T (lift_py r)
  reads = lift_py-K store laws opens_portal opens_statement w handler

  calls : (call : Call) → T (call_method w call)
  calls = called store laws opens_portal opens_statement w handler

  portal_for-T : (name : String) → T (portal_for store w handler name)
  unfolding portal_for
  portal_for-T name c =
      by_entry (bound_of (if c.installed then lookup name c.resources.portals else none))
    where
      by_entry :
          (o : Option BoundPortal)
          → G store laws opens_portal opens_statement w handler c
              (elim o as (λ _. Ending Py × Client Store) [
                | none ↦ (failed (portal_not_found name), c)
                | some b ↦ (done b.portal, c)
              ]).1
      by_entry none = same_state c
      by_entry (some b) = same_state c

  pub describe_statement-T :
      (target : StoredStatement) (o : Option Py)
      → T (describe_statement_by store w handler target o)
  unfolding describe_statement_by
  describe_statement-T target none = same_state
  describe_statement-T target (some i) =
      let answer : List ℕ → List PyFieldInfo → List PgType × List FieldInfo = λ parameters fields.
        (map (pg_type w.types) parameters, map (Field.into_pg w.types) fields) in
      chain (call_method w (Call.describe_statement i target.statement))
        (λ result. lift_py (w.get_parameter_types result) >>= λ parameters.
          lift_py (w.get_fields result) >>= λ fields. pure (answer parameters fields))
        (calls _)
        (λ result.
          chain (lift_py (w.get_parameter_types result))
            (λ parameters.
              lift_py (w.get_fields result) >>= λ fields. pure (answer parameters fields))
            (reads _)
            (λ parameters.
              chain (lift_py (w.get_fields result)) (λ fields. pure (answer parameters fields))
                (reads _) (λ fields. same_state)))

  pub describe_portal-T :
      (target : Portal) (o : Option Py) → T (describe_portal_by store w handler target o)
  unfolding describe_portal_by
  describe_portal-T target none = same_state
  describe_portal-T target (some i) =
      let answer = λ (fields : List PyFieldInfo). map (Field.into_pg w.types) fields in
      let rest =
        λ (result : Py). lift_py (w.get_fields result) >>= λ fields. pure (answer fields) in
      chain (portal_for store w handler target.name)
        (λ portal. call_method w (Call.describe_portal i portal) >>= rest)
        (portal_for-T target.name)
        (λ portal. chain (call_method w (Call.describe_portal i portal)) rest (calls _) (λ result.
          chain (lift_py (w.get_fields result)) (λ fields. pure (answer fields)) (reads _)
            (λ fields. same_state)))

  after_response-T : (response : Response) → T (after_response store w handler response)
  unfolding after_response
  after_response-T response =
      branch (is_transaction_end response) (close_all_portals store w handler >> pure response)
        (pure response)
        (chain (close_all_portals store w handler) (λ _. pure response) close_all (λ _. same_state))
        same_state

  pub run_portal-T :
      (portal : Portal) (max_rows : ℕ) (o : Option Py)
      → T (run_portal store w handler portal max_rows o)
  unfolding run_portal
  run_portal-T portal max_rows none = same_state
  run_portal-T portal max_rows (some i) =
      let respond = λ (response : PyResponse).
        after_response store w handler (Convert.into_pg w.types response) in
      let rest = λ (result : Py). lift_py (w.get_response result) >>= respond in
      chain (portal_for store w handler portal.name)
        (λ py_portal. call_method w (Call.do_query i py_portal max_rows) >>= rest)
        (portal_for-T portal.name)
        (λ py_portal.
          chain (call_method w (Call.do_query i py_portal max_rows)) rest (calls _) (λ result.
            chain (lift_py (w.get_response result)) respond (reads _)
              (λ response. after_response-T (Convert.into_pg w.types response))))

  pub discarded-T : {A : Type 0} (m : Action Store A) → T m → T (m >>= λ _. pure tt)
  discarded-T m h = chain m (λ _. pure tt) h (λ _. same_state)
