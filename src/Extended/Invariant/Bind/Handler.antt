-- ===== src/Extended/Invariant/Bind/Handler.antt =====
-- `on_bind` of src/extended.rs keeps the invariant, and opens the portal it was asked to.
use pywire.Base.{◌≡◌, refl, sym, ap, subst, ◌∙◌, Option, ◌∷◌, arith, String, Result, ok, err}
use pywire.HashMap.{lookup}
use pywire.Error.PgWire.{PgWireError}
use pywire.Query.Response.{Py}
use pywire.Extended.State.{
  bind_complete, Bind, Client, PortalStore, IsStore, World, MakesPortals, name_or,
}
use pywire.Extended.Action.{Action, send, lift, ◌>>◌}
use pywire.Extended.Bind.{check_codes, bind_statement, check_portal, on_bind}
use pywire.Extended.Invariant.{stored_kind, Inv, Post, bind_post, weaken_post}
use pywire.Extended.Invariant.Parse.{send_post}
use pywire.Extended.Invariant.Bind.{Opened, statement_of}
use pywire.Extended.Invariant.Bind.Statement.{bind_statement_post}

module _ {Store : Type 0} (store : PortalStore Store) (laws : IsStore store) (w : World)
    (handler : Option Py) where
  abbrev I : Client Store → Type 0
  I = Inv store w handler

  module _ (m : Bind) (c : Client Store) (inv : Inv store w handler c) where
    abbrev portal_name : String
    portal_name = name_or w.default_name m.portal_name

    abbrev statement_name : String
    statement_name = name_or w.default_name m.statement_name

    check_portal_post : Post I (λ _ d. d ≡ c) (check_portal store w handler portal_name c)
    unfolding check_portal
    check_portal_post = ground (arith, inv)

    lift_post : (r : Result PgWireError (Unit {0})) → Post I (λ _ d. d ≡ c) (lift r c)
    lift_post (ok v) = refl
    lift_post (err x) = inv

    -- A check that leaves the connection as it was.
    checked_post :
        (R : Unit {0} → Client Store → Type 0) (check k : Action Store Unit)
        → Post I (λ _ d. d ≡ c) (check c)
        → Post I R (k c)
        → Post I R ((check >> k) c)
    checked_post R check k h p =
        bind_post I (λ _ d. d ≡ c) R check (λ _. k) c h
          (λ _ d e. subst (λ x. Post I R (k x)) (sym e) p)

    sent-Opened :
        (d e : Client Store)
        → Opened store laws w handler portal_name statement_name c d
        → Inv store w handler e × (e ≡ record d { sent = bind_complete ∷ d.sent })
        → Opened store laws w handler portal_name statement_name c e
    sent-Opened d e p (inv', q) = record {
      inv_after = inv';
      entry = ap (λ x. statement_of (lookup portal_name x.resources.portals)) q ∙ p.entry;
      kind = ap (λ x. stored_kind (store.get_portal x.store portal_name)) q ∙ p.kind;
      statement = λ j. ap (λ x. store.get_statement x.store j) q ∙ p.statement j;
      others = λ j h. ap (λ x. lookup j x.resources.portals) q ∙ p.others j h;
      status = ap (λ x. x.status) q ∙ p.status;
    }

    Opened-sent :
        MakesPortals w
        → Post I
            (λ _ d. Opened store laws w handler portal_name statement_name c d)
            ((bind_statement store w handler portal_name statement_name m
                  (store.get_statement c.store statement_name)
                >> send w bind_complete)
              c)
    Opened-sent makes =
        bind_post I (λ _ d. Opened store laws w handler portal_name statement_name c d)
          (λ _ d. Opened store laws w handler portal_name statement_name c d)
          (bind_statement store w handler portal_name statement_name m
            (store.get_statement c.store statement_name))
          (λ _. send w bind_complete) c
          (bind_statement_post store laws w handler portal_name statement_name m c inv makes refl
            (store.get_statement c.store statement_name) refl)
          (λ _ d p.
            weaken_post I
              (λ _ e. Inv store w handler e × (e ≡ record d { sent = bind_complete ∷ d.sent }))
              (λ _ e. Opened store laws w handler portal_name statement_name c e)
              (send w bind_complete d) (send_post store laws w handler bind_complete d p.inv_after)
              (λ _ e q. sent-Opened d e p q))

    abbrev behind_checks : Action Store Unit
    behind_checks d =
        (bind_statement store w handler portal_name statement_name m
              (store.get_statement d.store statement_name)
            >> send w bind_complete)
          d

    -- On a connection whose tables are in order `on_bind` does not panic, and where it ends in an
    -- error they still are. Where it returns they are, the portal that was asked for is there,
    -- bound from that statement and in Python exactly if the statement has a query, and all other
    -- portals, the statements and the status of the transaction are as before. pgwire has to make
    -- portals by the name that is asked for.
    pub on_bind_post :
        MakesPortals w
        → Post I
            (λ _ d. Opened store laws w handler portal_name statement_name c d)
            (on_bind store w handler m c)
    unfolding on_bind
    on_bind_post makes =
        let R = λ (_ : Unit {0}) (d : Client Store).
          Opened store laws w handler portal_name statement_name c d in
        checked_post R (check_portal store w handler portal_name)
          (lift (check_codes w m) >> behind_checks) check_portal_post
          (checked_post R (lift (check_codes w m)) behind_checks (lift_post (check_codes w m))
            (Opened-sent makes))
