-- ===== src/Extended/Invariant/Parse/Handler.antt =====
-- `on_parse` of src/extended.rs keeps the invariant, and stores what it was asked to.
use pywire.Base.{
  if◌then◌else◌, Bool, false, ◌≡◌, refl, sym, ap, ◌∙◌, true, false, not, Option, none, some, ◌∷◌,
  map, arith, String, str_eq, str_eq_iff, codes, ok, err, inl, inr, Bool-cases, Option-cases,
  Result-cases,
}
use pywire.HashMap.{lookup, insert, lookup-insert}
use pywire.Error.Classes.{PyErr}
use pywire.Error.Boundary.{py_err_to_pywire}
use pywire.Query.Response.{Py}
use pywire.Extended.EmptyQuery.{is_empty_query}
use pywire.Extended.State.{
  PortalEntry, Call, parse_complete, StoredStatement, Parse, Client, PortalStore, IsStore, World,
  name_or,
}
use pywire.Extended.Action.{done, failed, send, ◌>>◌}
use pywire.Extended.Close.{instance_for}
use pywire.Extended.Bind.{not_configured}
use pywire.Extended.Handlers.{parameter_type, store_statement, make_room, prepare, on_parse}
use pywire.Extended.Invariant.{
  stored_kind, live_portal, live_statement, Inv, Post, bind_post, weaken_post,
}
use pywire.Extended.Spec
use pywire.Extended.Spec.{SessionView, view_entry, view, parse_spec, SameView}
use pywire.Extended.Spec.Views.{SameView-trans, view-sent}
use pywire.Extended.Invariant.Drop.{logged-Inv}
use pywire.Extended.Invariant.Parse.{Vacant, make_room_post, send_post}

module _ {Store : Type 0} (store : PortalStore Store) (laws : IsStore store) (w : World)
    (handler : Option Py) where
  abbrev I : Client Store → Type 0
  I = Inv store w handler

  module _ (name : String) (m : Parse) (c : Client Store) (inv : Inv store w handler c)
      (vacant : store.get_statement c.store name ≡ none) where
    unused :
        (j : String) (e : PortalEntry)
        → lookup j c.resources.portals ≡ some e
        → str_eq name e.statement_name ≡ false
    unused j e h = ground (arith, inv.no_orphan j e h, str_eq_iff name e.statement_name)

    abbrev with_empty : Client Store
    with_empty = record c { store = store.put_empty_statement c.store name }

    with_empty-Inv : Inv store w handler with_empty
    unfolding instance_for
    with_empty-Inv = record {
      installed = inv.installed;
      portals_agree = λ j.
          inv.portals_agree j
          ∙ ap stored_kind (sym (laws.portal-put_empty_statement c.store name j));
      statements_agree = λ j. ground (
        arith,
        laws.get-put_empty_statement c.store name j,
        inv.statements_agree j,
        str_eq_iff name j,
      );
      no_orphan = λ j e h. ground (
        arith,
        laws.get-put_empty_statement c.store name e.statement_name,
        inv.no_orphan j e h,
        unused j e h,
      );
      portals_live = inv.portals_live;
      statements_live = inv.statements_live;
      served = inv.served;
      distinct = inv.distinct;
    }

    module _ (i : Py) where
      abbrev parse_call : Call
      parse_call = Call.parse_statement i name m.query m.type_oids

      abbrev stored_statement : Py → StoredStatement
      stored_statement v = record {
        id = name;
        statement = v;
        parameter_types = map (parameter_type store w handler) m.type_oids;
      }

      abbrev with_statement : Py → Client Store
      with_statement v = record c {
        resources = record c.resources { statements = insert name i c.resources.statements };
        store = store.put_statement c.store (stored_statement v);
        calls = record { call = parse_call; outcome = ok v } ∷ c.calls;
      }

      with_statement-Inv :
          (v : Py)
          → instance_for store w handler c ≡ some i
          → Inv store w handler (with_statement v)
      unfolding instance_for live_portal live_statement
      with_statement-Inv v e = record {
        installed = inv.installed;
        portals_agree =
            λ j. inv.portals_agree j ∙ ap stored_kind (sym (laws.portal-put_statement c.store _ j));
        statements_agree = λ j. ground (
          arith,
          laws.get-put_statement c.store (stored_statement v) j,
          lookup-insert name j i c.resources.statements,
          inv.statements_agree j,
        );
        no_orphan = λ j x h. ground (
          arith,
          laws.get-put_statement c.store (stored_statement v) x.statement_name,
          inv.no_orphan j x h,
          unused j x h,
        );
        portals_live = inv.portals_live;
        statements_live = λ j.
            ground (arith, lookup-insert name j i c.resources.statements, inv.statements_live j);
        served = λ j h. absurd (ground arith);
        distinct = inv.distinct;
      }

      stored :
          (v : Py)
          → instance_for store w handler c ≡ some i
          → w.answer c.calls parse_call ≡ ok v
          → store_statement store w handler name m (some i) c ≡ (done tt, with_statement v)
      unfolding store_statement
      stored v e a = ground (arith, inv.installed)

      parse_refused :
          (x : PyErr)
          → w.answer c.calls parse_call ≡ err x
          → store_statement store w handler name m (some i) c ≡ (
            failed (py_err_to_pywire x),
            record c { calls = record { call = parse_call; outcome = err x } ∷ c.calls },
          )
      unfolding store_statement
      parse_refused x a = ground arith

    -- What `on_parse` leaves: the statement is there, with a Python object unless the query is empty.
    pub record Parsed (d : Client Store) : Type 0 where
      pub inv_after : Inv store w handler d
      pub kind :
          stored_kind (store.get_statement d.store name)
          ≡ some (not (is_empty_query (codes m.query)))
      pub others :
          (j : String)
          → str_eq name j ≡ false
          → store.get_statement d.store j ≡ store.get_statement c.store j
      pub portals : d.resources.portals ≡ c.resources.portals

    empty_Parsed : is_empty_query (codes m.query) ≡ true → Parsed with_empty
    empty_Parsed e = record {
      inv_after = with_empty-Inv;
      kind = ground (arith, laws.get-put_empty_statement c.store name name, str_eq_iff name name);
      others = λ j h. ground (arith, laws.get-put_empty_statement c.store name j);
      portals = refl;
    }

    statement_Parsed :
        (i v : Py)
        → is_empty_query (codes m.query) ≡ false
        → instance_for store w handler c ≡ some i
        → Parsed (with_statement i v)
    statement_Parsed i v e f = record {
      inv_after = with_statement-Inv i v f;
      kind =
          ground (
            arith,
            laws.get-put_statement c.store (stored_statement i v) name,
            str_eq_iff name name,
          );
      others = λ j h. ground (arith, laws.get-put_statement c.store (stored_statement i v) j);
      portals = refl;
    }

    prepare_empty :
        is_empty_query (codes m.query) ≡ true
        → prepare store w handler name m c ≡ (done tt, with_empty)
    unfolding prepare
    prepare_empty e = ground arith

    prepare_query :
        is_empty_query (codes m.query) ≡ false
        → prepare store w handler name m c
          ≡ store_statement store w handler name m (instance_for store w handler c) c
    unfolding prepare
    prepare_query e = ground arith

    unserved : store_statement store w handler name m none c ≡ (failed not_configured, c)
    unfolding store_statement
    unserved = refl

    prepare_post : Post I (λ _ d. Parsed d) (prepare store w handler name m c)
    unfolding live_portal live_statement
    prepare_post = elim (Bool-cases (is_empty_query (codes m.query))) [
      | inl e ↦ rw (prepare_empty e) (empty_Parsed e)
      | inr e ↦ elim (Option-cases (instance_for store w handler c)) [
        | inl f ↦ rw (prepare_query e, f, unserved) inv
        | inr (i, f) ↦ elim (Result-cases (w.answer c.calls (parse_call i))) [
          | inl (v, a) ↦ rw (prepare_query e, f, stored i v f a) (statement_Parsed i v e f)
          | inr (x, a) ↦
              rw (prepare_query e, f, parse_refused i x a)
                (logged-Inv store laws w handler c (record { call = parse_call i; outcome = err x })
                  inv (λ j live. refl) (λ j live. refl))
        ]
      ]
    ]

    Parsed-view :
        (d : Client Store)
        → Parsed d
        → SameView
            (view store d)
            (Spec.prepare name (not (is_empty_query (codes m.query))) (view store c))
    Parsed-view d p = record {
      statements = λ j. elim (Bool-cases (str_eq name j)) [
        | inl same ↦ rw same (
            ap (λ n. stored_kind (store.get_statement d.store n)) (sym ((str_eq_iff name j).0 same))
            ∙ p.kind)
        | inr other ↦ rw other (ap stored_kind (p.others j other))
      ];
      portals = λ j. ap (λ t. view_entry (lookup j t)) p.portals;
    }

  prepare-SameView :
      (name : String) (kind : Bool) (a b : SessionView)
      → SameView a b
      → SameView (Spec.prepare name kind a) (Spec.prepare name kind b)
  prepare-SameView name kind a b h = record {
    statements = λ j. ap (λ o. if str_eq name j then some kind else o) (h.statements j);
    portals = h.portals;
  }

  -- What an `on_parse` that returned has done.
  pub record ParsedAs (m : Parse) (c d : Client Store) : Type 0 where
    pub inv_after : Inv store w handler d
    pub kind :
        stored_kind (store.get_statement d.store (name_or w.default_name m.name))
        ≡ some (not (is_empty_query (codes m.query)))
    pub view_after : SameView (view store d) (parse_spec w m (view store c))

  module _ (m : Parse) (c : Client Store) (inv : Inv store w handler c) where
    abbrev asked : String
    asked = name_or w.default_name m.name

    sent-ParsedAs :
        (d e f : Client Store)
        → (p : Vacant store laws w handler asked m c inv d)
        → Parsed asked m d p.inv_after p.vacant e
        → Inv store w handler f × (f ≡ record e { sent = parse_complete ∷ e.sent })
        → ParsedAs m c f
    sent-ParsedAs d e f p q r = record {
      inv_after = r.0;
      kind = ap (λ x. stored_kind (store.get_statement x.store asked)) r.1 ∙ q.kind;
      view_after = SameView-trans (view-sent store laws w handler e f parse_complete r.1) (
          SameView-trans (Parsed-view asked m d p.inv_after p.vacant e q)
            (prepare-SameView asked (not (is_empty_query (codes m.query))) _ _ p.view_after));
    }

    -- On a connection whose tables are in order `on_parse` does not panic, and where it ends in an
    -- error they still are. Where it returns they are, the statement that was asked for is in the
    -- store, without a Python object exactly if its query is empty, and nothing else that a client
    -- sees has changed but that the unnamed statement, if it was the one, was closed with its
    -- portals before.
    pub on_parse_post : Post I (λ _ d. ParsedAs m c d) (on_parse store w handler m c)
    unfolding on_parse
    on_parse_post =
        bind_post I (λ _ d. Vacant store laws w handler asked m c inv d) (λ _ d. ParsedAs m c d)
          (make_room store w handler asked)
          (λ _. prepare store w handler asked m >> send w parse_complete) c
          (make_room_post store laws w handler asked m c inv)
          (λ _ d p.
            bind_post I (λ _ e. Parsed asked m d p.inv_after p.vacant e) (λ _ e. ParsedAs m c e)
              (prepare store w handler asked m) (λ _. send w parse_complete) d
              (prepare_post asked m d p.inv_after p.vacant)
              (λ _ e q.
                weaken_post I
                  (λ _ f. Inv store w handler f × (f ≡ record e { sent = parse_complete ∷ e.sent }))
                  (λ _ f. ParsedAs m c f) (send w parse_complete e)
                  (send_post store laws w handler parse_complete e q.inv_after)
                  (λ _ f r. sent-ParsedAs d e f p q r)))
