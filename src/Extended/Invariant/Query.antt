-- ===== src/Extended/Invariant/Query.antt =====
-- The describe callbacks and `do_query` of src/extended.rs keep the invariant.
use pywire.Base.{
  ◌≡◌, ◌⊎◌, refl, ap, Bool, Option, none, some, List, ◌∷◌, arith, ℕ, String, Result, ok, err, inl,
  inr, Bool-cases,
}
use pywire.Error.Classes.{PyErr}
use pywire.Query.Field.{PyFieldInfo, PgType, FieldInfo}
use pywire.Query.Response.{Py, PyResponse}
use pywire.Query.Response.Convert
use pywire.Query.Response.Convert.{Response, is_transaction_end}
use pywire.Extended.State.{Call, StoredStatement, Portal, Client, PortalStore, IsStore, World}
use pywire.Extended.Action.{pure, lift_py, call_method}
use pywire.Extended.Close.{instance_for, close_all_portals}
use pywire.Extended.Handlers.{
  portal_for, describe_statement_by, describe_portal_by, do_describe_statement, do_describe_portal,
  after_response, run_portal, do_query,
}
use pywire.HashMap.{lookup}
use pywire.Extended.Spec.{SessionView, view_entry, view, forget_portals, SameView}
use pywire.Extended.Spec.Views.{SameView-trans, view-Emptied}
use pywire.Extended.Invariant.{stored_kind, portal_event, statement_event, Inv, Post, bind_post}
use pywire.Extended.Invariant.Drop.{logged-Inv}
use pywire.Extended.Invariant.CloseAll.{Emptied, close_all_portals_post}

module _ {Store : Type 0} (store : PortalStore Store) (laws : IsStore store) (w : World)
    (handler : Option Py) where
  abbrev I : Client Store → Type 0
  I = Inv store w handler

  pub lift_py_post :
      {A : Type 0} (r : Result PyErr A) (c : Client Store)
      → Inv store w handler c
      → Post I (λ (_ : A) d. Inv store w handler d) (lift_py r c)
  lift_py_post (ok a) c inv = inv
  lift_py_post (err x) c inv = inv

  -- A call that neither opens nor closes anything, however it ends.
  pub call_post :
      (call : Call) (c : Client Store)
      → Inv store w handler c
      → ((r : Result PyErr Py) (j : String) (live : Bool) → portal_event j call r live ≡ live)
      → ((r : Result PyErr Py) (j : String) (live : Bool) → statement_event j call r live ≡ live)
      → Post I (λ (_ : Py) d. Inv store w handler d) (call_method w call c)
  unfolding call_method
  call_post call c inv p s =
      let r = w.answer c.calls call in
      lift_py_post r (record c { calls = record { call = call; outcome = r } ∷ c.calls })
        (logged-Inv store laws w handler c (record { call = call; outcome = r }) inv (p r) (s r))

  -- The state behind a callback that changes no table.
  pub record Kept (c d : Client Store) : Type 0 where
    pub inv_after : Inv store w handler d
    pub resources : d.resources ≡ c.resources
    pub stored : d.store ≡ c.store

  pub Kept-refl : (c : Client Store) → Inv store w handler c → Kept c c
  Kept-refl c inv = record { inv_after = inv; resources = refl; stored = refl }

  pub Kept-SameView : (c d : Client Store) → Kept c d → SameView (view store d) (view store c)
  Kept-SameView c d p = record {
    statements = λ n. ap (λ x. stored_kind (store.get_statement x n)) p.stored;
    portals = λ n. ap (λ x. view_entry (lookup n x.portals)) p.resources;
  }

  forget_portals-SameView :
      (a b : SessionView) → SameView a b → SameView (forget_portals a) (forget_portals b)
  forget_portals-SameView a b h = record { statements = h.statements; portals = λ n. refl }

  module _ (c0 : Client Store) where
    abbrev Kept0 : Client Store → Type 0
    Kept0 d = Kept c0 d

    -- An execution closes all portals if it ended a transaction, and else changes nothing.
    abbrev pub Executed : Client Store → Type 0
    Executed d =
        Inv store w handler d
        × (SameView (view store d) (view store c0)
            ⊎ SameView (view store d) (forget_portals (view store c0)))

    Kept-view : (c : Client Store) → Kept0 c → SameView (view store c) (view store c0)
    Kept-view c kept = Kept-SameView c0 c kept

    lift_py_kept :
        {A : Type 0} (r : Result PyErr A) (c : Client Store)
        → Kept0 c
        → Post I (λ (_ : A) d. Kept0 d) (lift_py r c)
    lift_py_kept (ok a) c kept = kept
    lift_py_kept (err x) c kept = kept.inv_after

    call_kept :
        (call : Call) (c : Client Store)
        → Kept0 c
        → ((r : Result PyErr Py) (j : String) (live : Bool) → portal_event j call r live ≡ live)
        → ((r : Result PyErr Py) (j : String) (live : Bool) → statement_event j call r live ≡ live)
        → Post I (λ (_ : Py) d. Kept0 d) (call_method w call c)
    unfolding call_method
    call_kept call c kept p s =
        let r = w.answer c.calls call in
        lift_py_kept r (record c { calls = record { call = call; outcome = r } ∷ c.calls })
          (record {
            inv_after =
                logged-Inv store laws w handler c (record { call = call; outcome = r })
                  kept.inv_after (p r) (s r);
            resources = kept.resources;
            stored = kept.stored;
          })

    portal_for_post :
        (name : String) (c : Client Store)
        → Kept0 c
        → Post I (λ (_ : Py) d. Kept0 d) (portal_for store w handler name c)
    unfolding portal_for
    portal_for_post name c inv = ground (arith, inv, inv.inv_after)

    after_response_post :
        (r : Response) (c : Client Store)
        → Kept0 c
        → Post I (λ (_ : Response) d. Executed d) (after_response store w handler r c)
    unfolding after_response
    after_response_post r c kept = elim (Bool-cases (is_transaction_end r)) [
      | inr e ↦ rw e (kept.inv_after, inl (Kept-view c kept))
      | inl e ↦ rw e (
          bind_post I (λ _ d. Emptied store laws w handler c d) (λ _ d. Executed d)
            (close_all_portals store w handler) (λ _. pure r) c
            (close_all_portals_post store laws w handler c kept.inv_after)
            (λ _ d p. (
              p.inv,
              inr (
                  SameView-trans (view-Emptied store laws w handler c d p)
                    (forget_portals-SameView _ _ (Kept-view c kept))),
            )))
    ]

    describe_statement_by_post :
        (target : StoredStatement) (o : Option Py) (c : Client Store)
        → Kept0 c
        → Post I
            (λ (_ : List PgType × List FieldInfo) d. Kept0 d)
            (describe_statement_by store w handler target o c)
    unfolding describe_statement_by
    describe_statement_by_post target none c inv = inv
    describe_statement_by_post target (some i) c inv =
        bind_post I (λ (_ : Py) d. Kept0 d) (λ (_ : List PgType × List FieldInfo) d. Kept0 d)
          (call_method w (Call.describe_statement i target.statement)) _ c
          (call_kept (Call.describe_statement i target.statement) c inv (λ r j live. refl)
            (λ r j live. refl))
          (λ result d inv'.
            bind_post I (λ (_ : List ℕ) d. Kept0 d)
              (λ (_ : List PgType × List FieldInfo) d. Kept0 d)
              (lift_py (w.get_parameter_types result)) _ d
              (lift_py_kept (w.get_parameter_types result) d inv')
              (λ parameters e inv''.
                bind_post I (λ (_ : List PyFieldInfo) d. Kept0 d)
                  (λ (_ : List PgType × List FieldInfo) d. Kept0 d) (lift_py (w.get_fields result))
                  _ e (lift_py_kept (w.get_fields result) e inv'') (λ fields f inv'''. inv''')))

    pub describe_statement_post :
        (target : StoredStatement) (c : Client Store)
        → Kept0 c
        → Post I
            (λ (_ : List PgType × List FieldInfo) d. Kept0 d)
            (do_describe_statement store w handler target c)
    unfolding do_describe_statement
    describe_statement_post target c inv =
        describe_statement_by_post target (instance_for store w handler c) c inv

    describe_portal_by_post :
        (target : Portal) (o : Option Py) (c : Client Store)
        → Kept0 c
        → Post I (λ (_ : List FieldInfo) d. Kept0 d) (describe_portal_by store w handler target o c)
    unfolding describe_portal_by
    describe_portal_by_post target none c inv = inv
    describe_portal_by_post target (some i) c inv =
        bind_post I (λ (_ : Py) d. Kept0 d) (λ (_ : List FieldInfo) d. Kept0 d)
          (portal_for store w handler target.name) _ c (portal_for_post target.name c inv)
          (λ portal d inv'.
            bind_post I (λ (_ : Py) d. Kept0 d) (λ (_ : List FieldInfo) d. Kept0 d)
              (call_method w (Call.describe_portal i portal)) _ d
              (call_kept (Call.describe_portal i portal) d inv' (λ r j live. refl)
                (λ r j live. refl))
              (λ result e inv''.
                bind_post I (λ (_ : List PyFieldInfo) d. Kept0 d)
                  (λ (_ : List FieldInfo) d. Kept0 d) (lift_py (w.get_fields result)) _ e
                  (lift_py_kept (w.get_fields result) e inv'') (λ fields f inv'''. inv''')))

    pub describe_portal_post :
        (target : Portal) (c : Client Store)
        → Kept0 c
        → Post I (λ (_ : List FieldInfo) d. Kept0 d) (do_describe_portal store w handler target c)
    unfolding do_describe_portal
    describe_portal_post target c inv =
        describe_portal_by_post target (instance_for store w handler c) c inv

    run_portal_post :
        (portal : Portal) (max_rows : ℕ) (o : Option Py) (c : Client Store)
        → Kept0 c
        → Post I (λ (_ : Response) d. Executed d) (run_portal store w handler portal max_rows o c)
    unfolding run_portal
    run_portal_post portal max_rows none c inv = inv.inv_after
    run_portal_post portal max_rows (some i) c inv =
        bind_post I (λ (_ : Py) d. Kept0 d) (λ (_ : Response) d. Executed d)
          (portal_for store w handler portal.name) _ c (portal_for_post portal.name c inv)
          (λ py_portal d inv'.
            bind_post I (λ (_ : Py) d. Kept0 d) (λ (_ : Response) d. Executed d)
              (call_method w (Call.do_query i py_portal max_rows)) _ d
              (call_kept (Call.do_query i py_portal max_rows) d inv' (λ r j live. refl)
                (λ r j live. refl))
              (λ result e inv''.
                bind_post I (λ (_ : PyResponse) d. Kept0 d) (λ (_ : Response) d. Executed d)
                  (lift_py (w.get_response result)) _ e
                  (lift_py_kept (w.get_response result) e inv'')
                  (λ response f inv'''.
                    after_response_post (Convert.into_pg w.types response) f inv''')))

    pub do_query_post :
        (portal : Portal) (max_rows : ℕ) (c : Client Store)
        → Kept0 c
        → Post I (λ (_ : Response) d. Executed d) (do_query store w handler portal max_rows c)
    unfolding do_query
    do_query_post portal max_rows c inv =
        run_portal_post portal max_rows (instance_for store w handler c) c inv
