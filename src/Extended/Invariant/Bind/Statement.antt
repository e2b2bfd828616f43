-- ===== src/Extended/Invariant/Bind/Statement.antt =====
-- The `match` of `on_bind` in src/extended.rs on the stored statement.
use pywire.Base.{
  ◌≡◌, refl, sym, ap, ◌∙◌, true, false, Option, none, some, arith, String, str_eq_iff, ok, err, inl,
  inr, Option-cases, Result-cases,
}
use pywire.Error.PgWire.{PgWireError, statement_not_found}
use pywire.Query.Response.{Py}
use pywire.Extended.State.{
  StoredStatement, Portal, Entry, value, empty, Bind, Client, PortalStore, IsStore, World,
  MakesPortals, name_or,
}
use pywire.Extended.Action.{failed, Action, ◌>>◌}
use pywire.Extended.Close.{instance_for, drop_portal}
use pywire.Extended.Bind.{
  not_configured, check_empty, open_portal, open_empty_portal, expect_installed, bind_statement,
}
use pywire.Extended.Invariant.{stored_kind, live_portal, Inv, Post, bind_post, weaken_post}
use pywire.Extended.Invariant.Drop.{Dropped, drop_portal_post}
use pywire.Extended.Invariant.Bind.{Opened, open_portal-Opened, open_empty_portal-Opened}

module _ {Store : Type 0} (store : PortalStore Store) (laws : IsStore store) (w : World)
    (handler : Option Py) where
  abbrev I : Client Store → Type 0
  I = Inv store w handler

  module _ (portal_name statement_name : String) (m : Bind) (c : Client Store)
      (inv : Inv store w handler c) where
    abbrev Q : Client Store → Type 0
    Q d = Opened store laws w handler portal_name statement_name c d

    -- The same from the state in front of `drop_portal`.
    from_Dropped :
        (d e : Client Store)
        → Dropped store laws w handler portal_name c d
        → Opened store laws w handler portal_name statement_name d e
        → Opened store laws w handler portal_name statement_name c e
    from_Dropped d e p q = record {
      inv_after = q.inv_after;
      entry = q.entry;
      kind = q.kind ∙ ap stored_kind (p.same.statement statement_name);
      statement = λ j. q.statement j ∙ p.same.statement j;
      others = λ j h. q.others j h ∙ ground (arith, p.portals j);
      status = q.status ∙ p.same.status;
    }

    installed_step :
        (k : Action Store Unit) (d : Client Store)
        → d.installed ≡ true
        → (expect_installed store w handler >> k) d ≡ k d
    unfolding expect_installed
    installed_step k d e = ground arith

    behind_drop :
        (k : Action Store Unit)
        → ((d : Client Store)
            → Dropped store laws w handler portal_name c d
            → Post I (λ _ e. Opened store laws w handler portal_name statement_name d e) (k d))
        → Post I
            (λ _ d. Q d)
            ((drop_portal store w handler portal_name >> (expect_installed store w handler >> k)) c)
    behind_drop k h =
        bind_post I (λ _ d. Dropped store laws w handler portal_name c d) (λ _ d. Q d)
          (drop_portal store w handler portal_name) (λ _. expect_installed store w handler >> k) c
          (drop_portal_post store laws w handler portal_name c inv)
          (λ _ d p. rw (installed_step k d p.inv.installed) (
            weaken_post I (λ _ e. Opened store laws w handler portal_name statement_name d e)
              (λ _ e. Q e) (k d) (h d p) (λ _ e q. from_Dropped d e p q)))

    value_step :
        (s : StoredStatement) (p : Portal) (i : Py)
        → w.try_new m s ≡ ok p
        → instance_for store w handler c ≡ some i
        → bind_statement store w handler portal_name statement_name m (some (value s)) c
          ≡ (drop_portal store w handler portal_name
                >> (expect_installed store w handler
                    >> open_portal store w handler i portal_name statement_name p))
              c
    unfolding bind_statement
    value_step s p i e f = ground arith

    value_refused :
        (s : StoredStatement) (x : PgWireError)
        → w.try_new m s ≡ err x
        → bind_statement store w handler portal_name statement_name m (some (value s)) c
          ≡ (failed x, c)
    unfolding bind_statement
    value_refused s x e = ground arith

    value_unserved :
        (s : StoredStatement) (p : Portal)
        → w.try_new m s ≡ ok p
        → instance_for store w handler c ≡ none
        → bind_statement store w handler portal_name statement_name m (some (value s)) c
          ≡ (failed not_configured, c)
    unfolding bind_statement
    value_unserved s p e f = ground arith

    empty_step :
        check_empty w statement_name m ≡ ok tt
        → bind_statement store w handler portal_name statement_name m (some empty) c
          ≡ (drop_portal store w handler portal_name
                >> (expect_installed store w handler
                    >> open_empty_portal store w handler portal_name statement_name))
              c
    unfolding bind_statement
    empty_step e = ground arith

    empty_refused :
        (x : PgWireError)
        → check_empty w statement_name m ≡ err x
        → bind_statement store w handler portal_name statement_name m (some empty) c ≡ (failed x, c)
    unfolding bind_statement
    empty_refused x e = ground arith

    absent_step :
        bind_statement store w handler portal_name statement_name m none c
        ≡ (failed (statement_not_found statement_name), c)
    unfolding bind_statement
    absent_step = refl

    Dropped-dead :
        (d : Client Store)
        → Dropped store laws w handler portal_name c d
        → live_portal portal_name d.calls ≡ false
    Dropped-dead d p = ground (
      arith,
      p.inv.portals_live portal_name,
      p.portals portal_name,
      str_eq_iff portal_name portal_name,
    )

    module _ (makes : MakesPortals w)
        (named : portal_name ≡ name_or w.default_name m.portal_name) where
      bind_value_post :
          (s : StoredStatement)
          → store.get_statement c.store statement_name ≡ some (value s)
          → Post I
              (λ _ d. Q d)
              (bind_statement store w handler portal_name statement_name m (some (value s)) c)
      bind_value_post s g = elim (Result-cases (w.try_new m s)) [
        | inr (x, e) ↦ rw (value_refused s x e) inv
        | inl (p, e) ↦ elim (Option-cases (instance_for store w handler c)) [
          | inl f ↦ rw (value_unserved s p e f) inv
          | inr (i, f) ↦ rw (value_step s p i e f) (
              behind_drop (open_portal store w handler i portal_name statement_name p) (λ d q.
                open_portal-Opened store laws w handler portal_name statement_name d q.inv i p
                  ((makes m s p e).0 ∙ sym named)
                  (ap stored_kind (q.same.statement statement_name ∙ g))))
        ]
      ]

      bind_empty_post :
          store.get_statement c.store statement_name ≡ some empty
          → Post I
              (λ _ d. Q d)
              (bind_statement store w handler portal_name statement_name m (some empty) c)
      bind_empty_post g = elim (Result-cases (check_empty w statement_name m)) [
        | inr (x, e) ↦ rw (empty_refused x e) inv
        | inl (v, e) ↦ rw (empty_step e) (
            behind_drop (open_empty_portal store w handler portal_name statement_name) (λ d q.
              open_empty_portal-Opened store laws w handler portal_name statement_name d q.inv
                (ap stored_kind (q.same.statement statement_name ∙ g)) (Dropped-dead d q)))
      ]

      pub bind_statement_post :
          (o : Option (Entry StoredStatement))
          → store.get_statement c.store statement_name ≡ o
          → Post I (λ _ d. Q d) (bind_statement store w handler portal_name statement_name m o c)
      bind_statement_post none g = rw absent_step inv
      bind_statement_post (some (value s)) g = bind_value_post s g
      bind_statement_post (some empty) g = bind_empty_post g
