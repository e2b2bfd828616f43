-- ===== src/Extended/Invariant/Forget.antt =====
-- `close_statement` of src/extended.rs keeps the invariant, and leaves no portal of its statement.
pub mod Statement
use pywire.Base.{
  ◌≡◌, refl, sym, ap, ◌∙◌, Bool, true, false, Option, none, some, List, [], ◌∷◌, arith, String,
  str_eq, str_eq_iff, if◌then◌else◌, Result, ok, err, inl, inr, Bool-cases, Option-cases,
  Result-cases,
}
use pywire.HashMap.{Distinct, HashMap, lookup, remove, lookup-remove}
use pywire.Error.Classes.{PyErr}
use pywire.Error.Boundary.{py_err_to_pywire}
use pywire.Query.Response.{Py}
use pywire.Extended.State.{PortalEntry, Call, Event, Client, PortalStore, IsStore, World}
use pywire.Extended.Action.{done, failed, ◌>>◌}
use pywire.Extended.Close.{
  is_value, instance_for, names_of, drop_each, forget_statement, close_statement,
}
use pywire.Extended.Invariant.{
  stored_kind, live_portal, live_statement, Inv, Post, bind_post, weaken_post,
}
use pywire.Extended.Invariant.Drop.{logged-Inv}
use pywire.Extended.Invariant.CloseAll.{member, EachDropped, drop_each_post}

module _ {Store : Type 0} (store : PortalStore Store) (laws : IsStore store) (w : World)
    (handler : Option Py) where
  abbrev I : Client Store → Type 0
  I = Inv store w handler

  -- No portal of the statement is left.
  abbrev pub NoPortalOf : String → Client Store → Type 0
  NoPortalOf name c =
      (j : String) (e : PortalEntry)
      → lookup j c.resources.portals ≡ some e
      → str_eq e.statement_name name ≡ false

  abbrev forgotten : String → List Event → Client Store → Client Store
  forgotten name calls c = record c {
    resources = record c.resources { statements = remove name c.resources.statements };
    store = store.rm_statement c.store name;
    calls = calls;
  }

  module _ (name : String) (c : Client Store) (inv : Inv store w handler c)
      (free : NoPortalOf name c) where
    forgotten-Inv :
        (calls : List Event)
        → ((j : String)
            → live_statement j calls ≡ (if str_eq name j then false else live_statement j c.calls))
        → ((j : String) → live_portal j calls ≡ live_portal j c.calls)
        → Inv store w handler (forgotten name calls c)
    unfolding instance_for
    forgotten-Inv calls closes same = record {
      installed = inv.installed;
      portals_agree =
          λ j. inv.portals_agree j ∙ ap stored_kind (sym (laws.portal-rm_statement c.store name j));
      statements_agree = λ j. ground (
        arith,
        lookup-remove name j c.resources.statements,
        laws.get-rm_statement c.store name j,
        inv.statements_agree j,
      );
      no_orphan = λ j e h. ground (
        arith,
        laws.get-rm_statement c.store name e.statement_name,
        inv.no_orphan j e h,
        free j e h,
        str_eq_iff e.statement_name name,
        str_eq_iff name e.statement_name,
      );
      portals_live = λ j. inv.portals_live j ∙ sym (same j);
      statements_live = λ j.
          ground
            (arith, lookup-remove name j c.resources.statements, closes j, inv.statements_live j);
      served = λ j h. ground (arith, lookup-remove name j c.resources.statements, inv.served j h);
      distinct = inv.distinct;
    }

    abbrev close_statement_event : Py → Result PyErr Py → Event
    close_statement_event i outcome = record {
      call = Call.close_statement i name;
      outcome = outcome;
    }

    forget_absent :
        is_value (store.get_statement c.store name) ≡ false
        → forget_statement store w handler name c ≡ (done tt, forgotten name c.calls c)
    unfolding forget_statement
    forget_absent e = ground arith

    forget_known :
        (i v : Py)
        → is_value (store.get_statement c.store name) ≡ true
        → instance_for store w handler c ≡ some i
        → w.answer c.calls (Call.close_statement i name) ≡ ok v
        → forget_statement store w handler name c
          ≡ (done tt, forgotten name (close_statement_event i (ok v) ∷ c.calls) c)
    unfolding forget_statement
    forget_known i v e f a = ground arith

    forget_refused :
        (i : Py) (x : PyErr)
        → is_value (store.get_statement c.store name) ≡ true
        → instance_for store w handler c ≡ some i
        → w.answer c.calls (Call.close_statement i name) ≡ err x
        → forget_statement store w handler name c ≡ (
          failed (py_err_to_pywire x),
          record c { calls = close_statement_event i (err x) ∷ c.calls },
        )
    unfolding forget_statement
    forget_refused i x e f a = ground arith

    -- What `close_statement` has done behind its loop.
    pub record Forgotten (d : Client Store) : Type 0 where
      pub inv_after : Inv store w handler d
      pub gone : store.get_statement d.store name ≡ none
      pub statement :
          (j : String)
          → str_eq name j ≡ false
          → store.get_statement d.store j ≡ store.get_statement c.store j
      pub status : d.status ≡ c.status
      pub session : d.session_ref ≡ c.session_ref
      pub portals : d.resources.portals ≡ c.resources.portals

    forgotten-Forgotten :
        (calls : List Event)
        → Inv store w handler (forgotten name calls c)
        → Forgotten (forgotten name calls c)
    forgotten-Forgotten calls inv' = record {
      inv_after = inv';
      gone = ground (arith, laws.get-rm_statement c.store name name, str_eq_iff name name);
      statement = λ j h. ground (arith, laws.get-rm_statement c.store name j);
      status = refl;
      session = refl;
      portals = refl;
    }

    not_live :
        is_value (store.get_statement c.store name) ≡ false
        → (j : String)
        → live_statement j c.calls ≡ (if str_eq name j then false else live_statement j c.calls)
    not_live e j =
        ground (arith, inv.statements_live name, inv.statements_agree name, str_eq_iff name j)

    pub forget_statement_post :
        Post I (λ _ d. Forgotten d) (forget_statement store w handler name c)
    unfolding live_portal live_statement
    forget_statement_post = elim (Bool-cases (is_value (store.get_statement c.store name))) [
      | inr e ↦
          rw (forget_absent e)
            (forgotten-Forgotten c.calls (forgotten-Inv c.calls (not_live e) (λ j. refl)))
      | inl e ↦ elim (Option-cases (instance_for store w handler c)) [
        | inl unserved ↦
            absurd (ground (arith, inv.served name unserved, inv.statements_agree name))
        | inr (i, f) ↦ elim (Result-cases (w.answer c.calls (Call.close_statement i name))) [
          | inl (v, a) ↦
              let calls = close_statement_event i (ok v) ∷ c.calls in
              rw (forget_known i v e f a)
                (forgotten-Forgotten calls (forgotten-Inv calls (λ j. refl) (λ j. refl)))
          | inr (x, a) ↦ rw (forget_refused i x e f a) (
              logged-Inv store laws w handler c (close_statement_event i (err x)) inv
                (λ j live. refl) (λ j live. refl))
        ]
      ]
    ]
