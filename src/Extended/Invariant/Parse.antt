-- ===== src/Extended/Invariant/Parse.antt =====
-- Sending a message, and the room that `on_parse` of src/extended.rs makes for a statement.
pub mod Handler
use pywire.Base.{
  if◌then◌else◌, ◌≡◌, refl, sym, ap, ◌∙◌, true, false, not, Option, none, some, ◌∷◌, map, arith,
  String, str_eq, str_eq_iff, codes, ok, err, inl, inr, Bool-cases, Option-cases, Result-cases,
}
use pywire.HashMap.{lookup, insert, lookup-insert}
use pywire.Error.Classes.{PyErr}
use pywire.Error.Boundary.{py_err_to_pywire}
use pywire.Query.Response.{Py}
use pywire.Extended.EmptyQuery.{is_empty_query}
use pywire.Extended.State.{
  PortalEntry, Call, Message, parse_complete, StoredStatement, Parse, Client, PortalStore, IsStore,
  World, name_or,
}
use pywire.Extended.Action.{done, failed, send, ◌>>◌}
use pywire.Extended.Close.{instance_for, close_statement}
use pywire.Extended.Bind.{not_configured}
use pywire.Extended.Handlers.{parameter_type, store_statement, make_room, prepare, on_parse}
use pywire.Extended.Invariant.{
  stored_kind, live_portal, live_statement, Inv, Post, bind_post, weaken_post,
}
use pywire.Extended.Invariant.Drop.{logged-Inv}
use pywire.Extended.Spec.{view, forget_statement, SameView, SameView-refl}
use pywire.Extended.Spec.Views.{view-Closed}
use pywire.Extended.Invariant.Forget.Statement.{Closed, close_statement_post}

module _ {Store : Type 0} (store : PortalStore Store) (laws : IsStore store) (w : World)
    (handler : Option Py) where
  abbrev I : Client Store → Type 0
  I = Inv store w handler

  pub sent-Inv :
      (c : Client Store) (m : Message)
      → Inv store w handler c
      → Inv store w handler (record c { sent = m ∷ c.sent })
  unfolding instance_for
  sent-Inv c m inv = record {
    installed = inv.installed;
    portals_agree = inv.portals_agree;
    statements_agree = inv.statements_agree;
    no_orphan = inv.no_orphan;
    portals_live = inv.portals_live;
    statements_live = inv.statements_live;
    served = inv.served;
    distinct = inv.distinct;
  }

  -- Sending keeps the invariant whether or not the sink takes the message.
  pub send_post :
      (m : Message) (c : Client Store)
      → Inv store w handler c
      → Post I (λ _ d. Inv store w handler d × (d ≡ record c { sent = m ∷ c.sent })) (send w m c)
  unfolding send
  send_post m c inv = elim (Result-cases (w.send c.sent m)) [
    | inl (v, e) ↦ rw e (sent-Inv c m inv, refl)
    | inr (x, e) ↦ rw e (sent-Inv c m inv)
  ]

  module _ (name : String) (m : Parse) (c : Client Store) (inv : Inv store w handler c) where
    -- Room for a statement: there is none of that name. The unnamed statement was closed for it.
    pub record Vacant (d : Client Store) : Type 0 where
      pub inv_after : Inv store w handler d
      pub vacant : store.get_statement d.store name ≡ none
      pub view_after : SameView (view store d) (
          if str_eq name w.default_name then forget_statement name (view store c) else view store c)

    pub make_room_post : Post I (λ _ d. Vacant d) (make_room store w handler name c)
    unfolding make_room
    make_room_post = elim (Bool-cases (str_eq name w.default_name)) [
      | inl unnamed ↦ rw unnamed (
          weaken_post I (λ _ d. Closed store laws w handler name c d) (λ _ d. Vacant d)
            (close_statement store w handler name c)
            (close_statement_post store laws w handler name c inv)
            (λ _ d p. record {
              inv_after = p.inv_after;
              vacant = p.gone;
              view_after = rw unnamed (view-Closed store laws w handler name c d p);
            }))
      | inr named ↦ elim (Option-cases (store.get_statement c.store name)) [
        | inl absent ↦
            rw (named, absent)
              (record {
                inv_after = inv;
                vacant = absent;
                view_after = rw named (SameView-refl (view store c));
              })
        | inr (x, e) ↦ rw (named, e) inv
      ]
    ]
