-- ===== src/Extended/Invariant/Bind.antt =====
-- Opening a portal in src/extended.rs keeps the invariant.
pub mod Statement
pub mod Handler
use pywire.Base.{
  ◌≡◌, refl, sym, ap, subst, ◌∙◌, true, false, Option, none, some, List, ◌∷◌, arith, String, str_eq,
  str_eq_iff, if◌then◌else◌, Result, ok, err, inl, inr, Option-cases, Result-cases,
}
use pywire.HashMap.{insert-Distinct, lookup, insert, lookup-insert}
use pywire.Error.Classes.{PyErr}
use pywire.Error.Boundary.{py_err_to_pywire}
use pywire.Error.PgWire.{PgWireError, statement_not_found}
use pywire.Query.Response.{Py}
use pywire.Extended.State.{
  BoundPortal, PortalEntry, Event, bind_complete, StoredStatement, Portal, Entry, value, empty,
  Bind, Client, PortalStore, IsStore, World, MakesPortals, name_or,
}
use pywire.Extended.Action.{done, failed, Action, send, lift, ◌>>◌}
use pywire.Extended.Close.{is_value, instance_for, drop_portal}
use pywire.Extended.Bind.{
  is_some, not_configured, bind_call, check_codes, check_empty, open_portal, open_empty_portal,
  expect_installed, bind_statement, check_portal, on_bind,
}
use pywire.Extended.Invariant.{
  stored_kind, live_portal, live_statement, Inv, Post, bind_post, weaken_post,
}
use pywire.Extended.Invariant.Drop.{Dropped, logged-Inv, drop_portal_post}
use pywire.Extended.Invariant.Parse.{send_post}

abbrev pub statement_of : Option PortalEntry → Option String
statement_of none = none
statement_of (some e) = some e.statement_name

module _ {Store : Type 0} (store : PortalStore Store) (laws : IsStore store) (w : World)
    (handler : Option Py) where
  abbrev I : Client Store → Type 0
  I = Inv store w handler

  -- What opening a portal has done: it is there, for its statement, and of its statement's kind.
  pub record Opened (portal_name statement_name : String) (c d : Client Store) : Type 0 where
    pub inv_after : Inv store w handler d
    pub entry : statement_of (lookup portal_name d.resources.portals) ≡ some statement_name
    pub kind :
        stored_kind (store.get_portal d.store portal_name)
        ≡ stored_kind (store.get_statement c.store statement_name)
    pub statement : (j : String) → store.get_statement d.store j ≡ store.get_statement c.store j
    pub others :
        (j : String)
        → str_eq portal_name j ≡ false
        → lookup j d.resources.portals ≡ lookup j c.resources.portals
    pub status : d.status ≡ c.status

  module _ (portal_name statement_name : String) (c : Client Store)
      (inv : Inv store w handler c) where
    abbrev with_entry : Option BoundPortal → Store → List Event → Client Store
    with_entry bound store' calls = record c {
      resources = record c.resources {
        portals =
            insert portal_name (record { statement_name = statement_name; bound = bound })
              c.resources.portals;
      };
      store = store';
      calls = calls;
    }

    entry_added :
        (bound : Option BoundPortal) (store' : Store) (calls : List Event)
        → statement_of (lookup portal_name (with_entry bound store' calls).resources.portals)
          ≡ some statement_name
    entry_added bound store' calls = ground (
      arith,
      lookup-insert portal_name portal_name
          (record { statement_name = statement_name; bound = bound }) c.resources.portals,
      str_eq_iff portal_name portal_name,
    )

    -- An entry with the store and the log to match.
    with_entry-Inv :
        (bound : Option BoundPortal) (store' : Store) (calls : List Event)
        → ((j : String)
            → stored_kind (store.get_portal store' j) ≡ (
                if str_eq portal_name j
                then some (is_some bound)
                else stored_kind (store.get_portal c.store j)))
        → ((j : String) → store.get_statement store' j ≡ store.get_statement c.store j)
        → ((j : String)
            → live_portal j calls
              ≡ (if str_eq portal_name j then is_some bound else live_portal j c.calls))
        → ((j : String) → live_statement j calls ≡ live_statement j c.calls)
        → stored_kind (store.get_statement c.store statement_name) ≡ some (is_some bound)
        → Inv store w handler (with_entry bound store' calls)
    unfolding instance_for
    with_entry-Inv bound store' calls portal_at statement_at opens same known =
        let entry : PortalEntry = record { statement_name = statement_name; bound = bound } in
        record {
          installed = inv.installed;
          portals_agree = λ j. ground (
            arith,
            lookup-insert portal_name j entry c.resources.portals,
            portal_at j,
            inv.portals_agree j,
          );
          statements_agree = λ j. inv.statements_agree j ∙ ap is_value (sym (statement_at j));
          no_orphan = λ j e h.
              ap stored_kind (statement_at e.statement_name)
              ∙ ground
                  (arith, lookup-insert portal_name j entry c.resources.portals, inv.no_orphan j e);
          portals_live = λ j. ground (
            arith,
            lookup-insert portal_name j entry c.resources.portals,
            opens j,
            inv.portals_live j,
          );
          statements_live = λ j. inv.statements_live j ∙ sym (same j);
          served = inv.served;
          distinct = insert-Distinct portal_name entry c.resources.portals inv.distinct;
        }

    with_entry-Opened :
        (bound : Option BoundPortal) (store' : Store) (calls : List Event)
        → ((j : String)
            → stored_kind (store.get_portal store' j) ≡ (
                if str_eq portal_name j
                then some (is_some bound)
                else stored_kind (store.get_portal c.store j)))
        → ((j : String) → store.get_statement store' j ≡ store.get_statement c.store j)
        → ((j : String)
            → live_portal j calls
              ≡ (if str_eq portal_name j then is_some bound else live_portal j c.calls))
        → ((j : String) → live_statement j calls ≡ live_statement j c.calls)
        → stored_kind (store.get_statement c.store statement_name) ≡ some (is_some bound)
        → Opened portal_name statement_name c (with_entry bound store' calls)
    with_entry-Opened bound store' calls portal_at statement_at opens same known = record {
      inv_after = with_entry-Inv bound store' calls portal_at statement_at opens same known;
      entry = entry_added bound store' calls;
      kind = ground (arith, portal_at portal_name, str_eq_iff portal_name portal_name);
      statement = statement_at;
      others = λ j h. ground (
        arith,
        lookup-insert portal_name j (record { statement_name = statement_name; bound = bound })
            c.resources.portals,
      );
      status = refl;
    }

    pub open_empty_portal-Opened :
        stored_kind (store.get_statement c.store statement_name) ≡ some false
        → live_portal portal_name c.calls ≡ false
        → Post I
            (λ _ d. Opened portal_name statement_name c d)
            (open_empty_portal store w handler portal_name statement_name c)
    unfolding open_empty_portal
    open_empty_portal-Opened known dead =
        with_entry-Opened none (store.put_empty_portal c.store portal_name) c.calls
          (λ j. ground (arith, laws.get-put_empty_portal c.store portal_name j))
          (laws.statement-put_empty_portal c.store portal_name)
          (λ j. ground (arith, str_eq_iff portal_name j)) (λ j. refl) known

    module _ (i : Py) (p : Portal) where
      abbrev bind_event : Result PyErr Py → Event
      bind_event outcome = record { call = bind_call store w handler i p; outcome = outcome }

      open_ok :
          (v : Py)
          → w.answer c.calls (bind_call store w handler i p) ≡ ok v
          → open_portal store w handler i portal_name statement_name p c ≡ (
            done tt,
            with_entry
                (some (record { instance_ref = i; portal = v }))
                (store.put_portal c.store p)
                (bind_event (ok v) ∷ c.calls),
          )
      unfolding open_portal
      open_ok v a = ground arith

      open_refused :
          (x : PyErr)
          → w.answer c.calls (bind_call store w handler i p) ≡ err x
          → open_portal store w handler i portal_name statement_name p c
            ≡ (failed (py_err_to_pywire x), record c { calls = bind_event (err x) ∷ c.calls })
      unfolding open_portal
      open_refused x a = ground arith

      pub open_portal-Opened :
          p.name ≡ portal_name
          → stored_kind (store.get_statement c.store statement_name) ≡ some true
          → Post I
              (λ _ d. Opened portal_name statement_name c d)
              (open_portal store w handler i portal_name statement_name p c)
      unfolding live_portal live_statement
      open_portal-Opened named known =
          elim (Result-cases (w.answer c.calls (bind_call store w handler i p))) [
            | inl (v, a) ↦ rw (open_ok v a) (
                with_entry-Opened (some (record { instance_ref = i; portal = v }))
                  (store.put_portal c.store p) (bind_event (ok v) ∷ c.calls)
                  (λ j. ground (arith, laws.get-put_portal c.store p j))
                  (laws.statement-put_portal c.store p)
                  (λ j. ap (λ n. if str_eq n j then true else live_portal j c.calls) named)
                  (λ j. refl) known)
            | inr (x, a) ↦ rw (open_refused x a) (
                logged-Inv store laws w handler c (bind_event (err x)) inv (λ j live. refl)
                  (λ j live. refl))
          ]
