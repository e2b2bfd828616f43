-- ===== src/Extended/Invariant/Forget/Statement.antt =====
-- `close_statement` of src/extended.rs as a whole: the loop, and the statement behind it.
use pywire.Base.{
  ◌≡◌, refl, sym, ap, ◌∙◌, Bool, false, Option, none, some, List, [], ◌∷◌, arith, String, str_eq,
  str_eq_iff, if◌then◌else◌,
}
use pywire.HashMap.{Distinct, HashMap, lookup}
use pywire.Query.Response.{Py}
use pywire.Extended.State.{PortalEntry, Client, PortalStore, IsStore, World}
use pywire.Extended.Action.{◌>>◌}
use pywire.Extended.Close.{names_of, drop_each, forget_statement, close_statement}
use pywire.Extended.Invariant.{Inv, Post, bind_post, weaken_post}
use pywire.Extended.Invariant.CloseAll.{member, EachDropped, drop_each_post}
use pywire.Extended.Invariant.Forget.{NoPortalOf, Forgotten, forget_statement_post}

-- The portals of a statement, and no others.
abbrev pub is_of_entry : String → Option PortalEntry → Bool
is_of_entry name none = false
is_of_entry name (some e) = str_eq e.statement_name name

pub names_of-member :
    (name j : String) (m : HashMap PortalEntry)
    → Distinct m
    → member (names_of name m) j ≡ is_of_entry name (lookup j m)
unfolding names_of lookup
names_of-member name j [] h = refl
names_of-member name j ((k, x) ∷ m) h =
    ground (arith, names_of-member name j m, h.0, str_eq_iff k j)

module _ {Store : Type 0} (store : PortalStore Store) (laws : IsStore store) (w : World)
    (handler : Option Py) where
  abbrev I : Client Store → Type 0
  I = Inv store w handler

  -- What `close_statement` has done: the statement and its portals are gone, other statements stay.
  pub record Closed (name : String) (c d : Client Store) : Type 0 where
    pub inv_after : Inv store w handler d
    pub gone : store.get_statement d.store name ≡ none
    pub free : NoPortalOf store laws w handler name d
    pub portals :
        (j : String)
        → lookup j d.resources.portals ≡ (
            if is_of_entry name (lookup j c.resources.portals)
            then none
            else lookup j c.resources.portals)
    pub statement :
        (j : String)
        → str_eq name j ≡ false
        → store.get_statement d.store j ≡ store.get_statement c.store j
    pub status : d.status ≡ c.status
    pub session : d.session_ref ≡ c.session_ref

  module _ (name : String) (c : Client Store) (inv : Inv store w handler c) where
    abbrev names : List String
    names = names_of name c.resources.portals

    loop_free :
        (d : Client Store)
        → EachDropped store laws w handler names c d
        → NoPortalOf store laws w handler name d
    loop_free d p j e h =
        ground (arith, p.portals j, names_of-member name j c.resources.portals inv.distinct)

    closed :
        (d e : Client Store)
        → (p : EachDropped store laws w handler names c d)
        → Forgotten store laws w handler name d p.inv (loop_free d p) e
        → Closed name c e
    closed d e p q = record {
      inv_after = q.inv_after;
      gone = q.gone;
      free = λ j x h. loop_free d p j x (ap (lookup j) (sym q.portals) ∙ h);
      portals = λ j.
          ap (lookup j) q.portals
          ∙ p.portals j
          ∙ ap (λ b. if b then none else lookup j c.resources.portals)
              (names_of-member name j c.resources.portals inv.distinct);
      statement = λ j h. q.statement j h ∙ p.same.statement j;
      status = q.status ∙ p.same.status;
      session = q.session ∙ p.same.session;
    }

    close_installed :
        close_statement store w handler name c
        ≡ (drop_each store w handler names >> forget_statement store w handler name) c
    unfolding close_statement
    close_installed = ground (arith, inv.installed)

    pub close_statement_post :
        Post I (λ _ d. Closed name c d) (close_statement store w handler name c)
    close_statement_post = rw close_installed (
        bind_post I (λ _ d. EachDropped store laws w handler names c d) (λ _ d. Closed name c d)
          (drop_each store w handler names) (λ _. forget_statement store w handler name) c
          (drop_each_post store laws w handler names c inv)
          (λ _ d p.
            weaken_post I (λ _ e. Forgotten store laws w handler name d p.inv (loop_free d p) e)
              (λ _ e. Closed name c e) (forget_statement store w handler name d)
              (forget_statement_post store laws w handler name d p.inv (loop_free d p))
              (λ _ e q. closed d e p q)))
