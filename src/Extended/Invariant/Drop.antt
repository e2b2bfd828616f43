-- ===== src/Extended/Invariant/Drop.antt =====
-- Closing portals in src/extended.rs keeps the invariant.
use pywire.Base.{
  ◌≡◌, refl, sym, ap, ◌∙◌, Bool, true, false, Option, none, some, List, ◌∷◌, arith, String, str_eq,
  str_eq_iff, if◌then◌else◌, Result, ok, err, inl, inr, Option-cases, Result-cases,
}
use pywire.HashMap.{remove-Distinct, lookup, remove, lookup-remove}
use pywire.Error.Classes.{PyErr}
use pywire.Error.Boundary.{py_err_to_pywire}
use pywire.Query.Response.{Py}
use pywire.Extended.State.{
  BoundPortal, PortalEntry, Call, Event, Client, PortalStore, IsStore, World,
}
use pywire.Extended.Action.{done, failed}
use pywire.Extended.Close.{bound_of, is_value, instance_for, drop_portal}
use pywire.Extended.Bind.{is_some}
use pywire.Extended.Invariant.{
  stored_kind, live_portal, live_statement, portal_event, statement_event, Inv, Post,
}

module _ {Store : Type 0} (store : PortalStore Store) (laws : IsStore store) (w : World)
    (handler : Option Py) where
  -- The connection behind the removal of a portal, with the log `calls`.
  abbrev pub dropped : String → List Event → Client Store → Client Store
  dropped n calls c = record c {
    resources = record c.resources { portals = remove n c.resources.portals };
    store = store.rm_portal c.store n;
    calls = calls;
  }

  -- What dropping a portal leaves alone.
  pub record Same (c d : Client Store) : Type 0 where
    pub statement : (j : String) → store.get_statement d.store j ≡ store.get_statement c.store j
    pub status : d.status ≡ c.status
    pub session : d.session_ref ≡ c.session_ref
    pub statements : d.resources.statements ≡ c.resources.statements
    pub sent : d.sent ≡ c.sent

  module _ (n : String) (c : Client Store) (inv : Inv store w handler c) where
    -- The log has closed the portal `n` and tells nothing else.
    dropped-Inv :
        (calls : List Event)
        → ((j : String)
            → live_portal j calls ≡ (if str_eq n j then false else live_portal j c.calls))
        → ((j : String) → live_statement j calls ≡ live_statement j c.calls)
        → Inv store w handler (dropped n calls c)
    unfolding instance_for
    dropped-Inv calls closes same = record {
      installed = inv.installed;
      portals_agree = λ j. ground (
        arith,
        lookup-remove n j c.resources.portals,
        laws.get-rm_portal c.store n j,
        inv.portals_agree j,
      );
      statements_agree = λ j. laws_statement j;
      no_orphan = λ j e h. orphan j e h;
      portals_live =
          λ j. ground (arith, lookup-remove n j c.resources.portals, closes j, inv.portals_live j);
      statements_live = λ j. inv.statements_live j ∙ sym (same j);
      served = inv.served;
      distinct = remove-Distinct n c.resources.portals inv.distinct;
    }
      where
        laws_statement :
            (j : String)
            → is_some (lookup j c.resources.statements)
              ≡ is_value (store.get_statement (store.rm_portal c.store n) j)
        laws_statement j =
            inv.statements_agree j ∙ ap is_value (sym (laws.statement-rm_portal c.store n j))

        orphan :
            (j : String) (e : PortalEntry)
            → lookup j (remove n c.resources.portals) ≡ some e
            → stored_kind (store.get_statement (store.rm_portal c.store n) e.statement_name)
              ≡ some (is_some e.bound)
        orphan j e h =
            ap stored_kind (laws.statement-rm_portal c.store n e.statement_name)
            ∙ inv.no_orphan j e (ground (arith, lookup-remove n j c.resources.portals))

  abbrev pub close_event : String → BoundPortal → Result PyErr Py → Event
  close_event n b outcome = record { call = Call.close_portal b.instance_ref n; outcome = outcome }

  module _ (n : String) (c : Client Store) (installed : c.installed ≡ true) where
    drop_unbound :
        bound_of (lookup n c.resources.portals) ≡ none
        → drop_portal store w handler n c ≡ (done tt, dropped n c.calls c)
    unfolding drop_portal
    drop_unbound e = ground arith

    drop_bound :
        (b : BoundPortal) (v : Py)
        → bound_of (lookup n c.resources.portals) ≡ some b
        → w.answer c.calls (Call.close_portal b.instance_ref n) ≡ ok v
        → drop_portal store w handler n c
          ≡ (done tt, dropped n (close_event n b (ok v) ∷ c.calls) c)
    unfolding drop_portal
    drop_bound b v e a = ground arith

    drop_refused :
        (b : BoundPortal) (x : PyErr)
        → bound_of (lookup n c.resources.portals) ≡ some b
        → w.answer c.calls (Call.close_portal b.instance_ref n) ≡ err x
        → drop_portal store w handler n c
          ≡ (failed (py_err_to_pywire x), record c { calls = close_event n b (err x) ∷ c.calls })
    unfolding drop_portal
    drop_refused b x e a = ground arith

  -- A call that opens and closes nothing keeps the invariant.
  pub logged-Inv :
      (c : Client Store) (e : Event)
      → Inv store w handler c
      → ((j : String) (live : Bool) → portal_event j e.call e.outcome live ≡ live)
      → ((j : String) (live : Bool) → statement_event j e.call e.outcome live ≡ live)
      → Inv store w handler (record c { calls = e ∷ c.calls })
  unfolding instance_for live_portal live_statement
  logged-Inv c e inv p s = record {
    installed = inv.installed;
    portals_agree = inv.portals_agree;
    statements_agree = inv.statements_agree;
    no_orphan = inv.no_orphan;
    portals_live = λ j. inv.portals_live j ∙ sym (p j (live_portal j c.calls));
    statements_live = λ j. inv.statements_live j ∙ sym (s j (live_statement j c.calls));
    served = inv.served;
    distinct = inv.distinct;
  }

  -- What closing one portal has done: it is gone from the tables, and nothing else is.
  pub record Dropped (n : String) (c d : Client Store) : Type 0 where
    pub inv : Inv store w handler d
    pub same : Same c d
    pub portals :
        (j : String)
        → lookup j d.resources.portals ≡ (if str_eq n j then none else lookup j c.resources.portals)

  module _ (n : String) (c : Client Store) (inv : Inv store w handler c) where
    dropped-Dropped :
        (calls : List Event)
        → ((j : String)
            → live_portal j calls ≡ (if str_eq n j then false else live_portal j c.calls))
        → ((j : String) → live_statement j calls ≡ live_statement j c.calls)
        → Dropped n c (dropped n calls c)
    dropped-Dropped calls closes other = record {
      inv = dropped-Inv n c inv calls closes other;
      same = record {
        statement = laws.statement-rm_portal c.store n;
        status = refl;
        session = refl;
        statements = refl;
        sent = refl;
      };
      portals = λ j. lookup-remove n j c.resources.portals;
    }

    unbound_closes :
        bound_of (lookup n c.resources.portals) ≡ none
        → (j : String)
        → live_portal j c.calls ≡ (if str_eq n j then false else live_portal j c.calls)
    unbound_closes e j = ground (arith, str_eq_iff n j, inv.portals_live n)

    pub drop_portal_post :
        Post (Inv store w handler) (λ _ d. Dropped n c d) (drop_portal store w handler n c)
    unfolding live_portal live_statement
    drop_portal_post = elim (Option-cases (bound_of (lookup n c.resources.portals))) [
      | inl e ↦
          rw (drop_unbound n c inv.installed e)
            (dropped-Dropped c.calls (unbound_closes e) (λ j. refl))
      | inr (b, e) ↦ elim (Result-cases (w.answer c.calls (Call.close_portal b.instance_ref n))) [
        | inl (v, a) ↦
            rw (drop_bound n c inv.installed b v e a)
              (dropped-Dropped (close_event n b (ok v) ∷ c.calls) (λ j. refl) (λ j. refl))
        | inr (x, a) ↦
            rw (drop_refused n c inv.installed b x e a)
              (logged-Inv c (close_event n b (err x)) inv (λ j live. refl) (λ j live. refl))
      ]
    ]
