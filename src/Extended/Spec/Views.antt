-- ===== src/Extended/Spec/Views.antt =====
-- What the parts of the handlers of src/extended.rs do to the session that a client sees.
use pywire.Base.{
  ◌≡◌, refl, sym, ap, ◌∙◌, Option, none, some, ◌∷◌, arith, String, str_eq, str_eq_iff, Bool-cases,
  inl, inr,
}
use pywire.HashMap.{lookup}
use pywire.Query.Response.{Py}
use pywire.Extended.State.{PortalEntry, Message, Client, PortalStore, IsStore, World}
use pywire.Extended.Invariant.{stored_kind}
use pywire.Extended.Invariant.Drop.{Dropped}
use pywire.Extended.Invariant.CloseAll.{Emptied}
use pywire.Extended.Invariant.Forget.Statement.{is_of_entry, Closed}
use pywire.Extended.Spec.{
  SessionView, view_entry, view, is_of, forget_portal, forget_statement, forget_portals, SameView,
}

pub SameView-trans : {a b c : SessionView} → SameView a b → SameView b c → SameView a c
SameView-trans p q = record {
  statements = λ n. p.statements n ∙ q.statements n;
  portals = λ n. p.portals n ∙ q.portals n;
}

module _ {Store : Type 0} (store : PortalStore Store) (laws : IsStore store) (w : World)
    (handler : Option Py) where
  -- Messages are not in the view.
  pub view-sent :
      (c d : Client Store) (m : Message)
      → d ≡ record c { sent = m ∷ c.sent }
      → SameView (view store d) (view store c)
  view-sent c d m e = record {
    statements = λ n. ap (λ x. stored_kind (store.get_statement x.store n)) e;
    portals = λ n. ap (λ x. view_entry (lookup n x.resources.portals)) e;
  }

  pub view-Dropped :
      (n : String) (c d : Client Store)
      → Dropped store laws w handler n c d
      → SameView (view store d) (forget_portal n (view store c))
  view-Dropped n c d p = record {
    statements = λ j. ap stored_kind (p.same.statement j);
    portals = λ j. ground (arith, p.portals j);
  }

  is_of-view :
      (name : String) (o : Option PortalEntry) → is_of name (view_entry o) ≡ is_of_entry name o
  is_of-view name none = refl
  is_of-view name (some e) = refl

  pub view-Closed :
      (name : String) (c d : Client Store)
      → Closed store laws w handler name c d
      → SameView (view store d) (forget_statement name (view store c))
  view-Closed name c d p = record {
    statements = λ j. elim (Bool-cases (str_eq name j)) [
      | inl same ↦ rw same (
          ap stored_kind
            (ap (store.get_statement d.store) (sym ((str_eq_iff name j).0 same)) ∙ p.gone))
      | inr other ↦ rw other (ap stored_kind (p.statement j other))
    ];
    portals = λ j. ground (arith, p.portals j, is_of-view name (lookup j c.resources.portals));
  }

  pub view-Emptied :
      (c d : Client Store)
      → Emptied store laws w handler c d
      → SameView (view store d) (forget_portals (view store c))
  view-Emptied c d p = record {
    statements = λ j. ap stored_kind (p.same.statement j);
    portals = λ j. ap view_entry (p.no_entry j);
  }
