-- ===== src/Extended/Invariant/Close.antt =====
-- `on_close` of src/extended.rs keeps the invariant, and closes what it has to.
use pywire.Base.{
  ◌≡◌, ◌⊎◌, sym, ap, ◌∙◌, true, false, Option, none, ◌∷◌, arith, ◌==◌, String, str_eq_iff, inl, inr,
  Bool-cases,
}
use pywire.HashMap.{lookup}
use pywire.Query.Response.{Py}
use pywire.Extended.State.{close_complete, Close, Client, PortalStore, IsStore, World, name_or}
use pywire.Extended.Action.{send}
use pywire.Extended.Close.{close_statement, drop_portal}
use pywire.Extended.Bind.{target_statement, target_portal}
use pywire.Extended.Handlers.{close_target, on_close}
use pywire.Extended.Invariant.{entry_kind, Inv, Post, bind_post, weaken_post}
use pywire.Extended.Invariant.Drop.{Dropped, drop_portal_post}
use pywire.Extended.Invariant.CloseAll.{none_kind}
use pywire.Extended.Invariant.Forget.{NoPortalOf}
use pywire.Extended.Invariant.Forget.Statement.{Closed, close_statement_post}
use pywire.Extended.Spec.{view, close_spec, SameView}
use pywire.Extended.Spec.Views.{SameView-trans, view-sent, view-Closed, view-Dropped}
use pywire.Extended.Invariant.Parse.{send_post}

module _ {Store : Type 0} (store : PortalStore Store) (laws : IsStore store) (w : World)
    (handler : Option Py) where
  abbrev I : Client Store → Type 0
  I = Inv store w handler

  -- The statement or the portal that a close names is gone, and a statement's portals with it.
  pub record CloseDone (m : Close) (c d : Client Store) : Type 0 where
    pub inv_after : Inv store w handler d
    pub gone :
        (((m.target_type == target_statement) ≡ true)
          × (store.get_statement d.store (name_or w.default_name m.name) ≡ none)
          × NoPortalOf store laws w handler (name_or w.default_name m.name) d)
        ⊎ (((m.target_type == target_portal) ≡ true)
            × (lookup (name_or w.default_name m.name) d.resources.portals ≡ none)
            × (store.get_portal d.store (name_or w.default_name m.name) ≡ none))
    pub view_after : SameView (view store d) (close_spec w m (view store c))

  module _ (m : Close) (c : Client Store) (inv : Inv store w handler c) where
    abbrev name : String
    name = name_or w.default_name m.name

    statement-Closed :
        (d : Client Store)
        → (m.target_type == target_statement) ≡ true
        → Closed store laws w handler name c d
        → CloseDone m c d
    statement-Closed d e p = record {
      inv_after = p.inv_after;
      gone = inl (e, p.gone, p.free);
      view_after = rw e (view-Closed store laws w handler name c d p);
    }

    portal_closed :
        (d : Client Store)
        → (m.target_type == target_statement) ≡ false
        → (m.target_type == target_portal) ≡ true
        → Dropped store laws w handler name c d
        → CloseDone m c d
    portal_closed d f e p =
        let absent : lookup name d.resources.portals ≡ none =
          ground (arith, p.portals name, str_eq_iff name name) in
        record {
          inv_after = p.inv;
          gone = inr (
            e,
            absent,
            none_kind store laws w handler _
                (ap entry_kind (sym absent) ∙ p.inv.portals_agree name),
          );
          view_after = rw f (view-Dropped store laws w handler name c d p);
        }

    close_target_post :
        Post I (λ _ d. CloseDone m c d) (close_target store w handler m.target_type name c)
    unfolding close_target
    close_target_post = elim (Bool-cases (m.target_type == target_statement)) [
      | inl e ↦ rw e (
          weaken_post I (λ _ d. Closed store laws w handler name c d) (λ _ d. CloseDone m c d)
            (close_statement store w handler name c)
            (close_statement_post store laws w handler name c inv)
            (λ _ d p. statement-Closed d e p))
      | inr f ↦ elim (Bool-cases (m.target_type == target_portal)) [
        | inl e ↦
            rw (f, e)
              (weaken_post I (λ _ d. Dropped store laws w handler name c d) (λ _ d. CloseDone m c d)
                (drop_portal store w handler name c)
                (drop_portal_post store laws w handler name c inv) (λ _ d p. portal_closed d f e p))
        | inr e ↦ rw (f, e) inv
      ]
    ]

    done_sent :
        (d e : Client Store)
        → CloseDone m c d
        → Inv store w handler e × (e ≡ record d { sent = close_complete ∷ d.sent })
        → CloseDone m c e
    done_sent d e p (inv', q) = record {
      inv_after = inv';
      gone = elim p.gone [
        | inl (t, g, free) ↦ inl (
          t,
          ap (λ x. store.get_statement x.store name) q ∙ g,
          λ j x h. free j x (ap (λ y. lookup j y.resources.portals) (sym q) ∙ h),
        )
        | inr (t, g, h) ↦ inr (
          t,
          ap (λ x. lookup name x.resources.portals) q ∙ g,
          ap (λ x. store.get_portal x.store name) q ∙ h,
        )
      ];
      view_after =
          SameView-trans (view-sent store laws w handler d e close_complete q) p.view_after;
    }

    -- On a connection whose tables are in order `on_close` does not panic, and where it ends in an
    -- error they still are. Where it returns they are, and the target was a statement, which is
    -- gone together with every portal bound from it, or a portal, which is gone from both tables;
    -- no other statement or portal has changed.
    pub on_close_post : Post I (λ _ d. CloseDone m c d) (on_close store w handler m c)
    unfolding on_close
    on_close_post =
        bind_post I (λ _ d. CloseDone m c d) (λ _ d. CloseDone m c d)
          (close_target store w handler m.target_type name) (λ _. send w close_complete) c
          close_target_post
          (λ _ d p.
            weaken_post I
              (λ _ e. Inv store w handler e × (e ≡ record d { sent = close_complete ∷ d.sent }))
              (λ _ e. CloseDone m c e) (send w close_complete d)
              (send_post store laws w handler close_complete d p.inv_after)
              (λ _ e q. done_sent d e p q))
