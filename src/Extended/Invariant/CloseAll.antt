-- ===== src/Extended/Invariant/CloseAll.antt =====
-- Closing several portals in src/extended.rs: the loop, and `close_all_portals`.
use pywire.Base.{
  ◌≡◌, refl, sym, ap, ◌∙◌, Bool, true, false, Option, none, some, List, [], ◌∷◌, arith, String,
  str_eq, str_eq_iff, if◌then◌else◌,
}
use pywire.HashMap.{HashMap, lookup, keys}
use pywire.Query.Response.{Py}
use pywire.Extended.State.{Entry, value, empty, Client, PortalStore, IsStore, World}
use pywire.Extended.Action.{modify}
use pywire.Extended.Close.{is_value, instance_for, drop_portal, drop_each, close_all_portals}
use pywire.Extended.Bind.{is_some}
use pywire.Extended.Invariant.{entry_kind, stored_kind, Inv, Post, bind_post, weaken_post}
use pywire.Extended.Invariant.Drop.{Same, Dropped, drop_portal_post}

abbrev pub member : List String → String → Bool
member [] j = false
member (n ∷ ns) j = if str_eq n j then true else member ns j

pub member-keys :
    {V : Type 0} (j : String) (m : HashMap V) → member (keys m) j ≡ is_some (lookup j m)
unfolding keys lookup
member-keys j [] = refl
member-keys j ((k, v) ∷ m) = ground (arith, member-keys j m)

module _ {Store : Type 0} (store : PortalStore Store) (laws : IsStore store) (w : World)
    (handler : Option Py) where
  abbrev I : Client Store → Type 0
  I = Inv store w handler

  Same-trans :
      {c d e : Client Store}
      → Same store laws w handler c d
      → Same store laws w handler d e
      → Same store laws w handler c e
  Same-trans p q = record {
    statement = λ j. q.statement j ∙ p.statement j;
    status = q.status ∙ p.status;
    session = q.session ∙ p.session;
    statements = q.statements ∙ p.statements;
    sent = q.sent ∙ p.sent;
  }

  pub Same-refl : (c : Client Store) → Same store laws w handler c c
  Same-refl c = record {
    statement = λ j. refl;
    status = refl;
    session = refl;
    statements = refl;
    sent = refl;
  }

  -- What closing the portals of a list has done.
  pub record EachDropped (names : List String) (c d : Client Store) : Type 0 where
    pub inv : Inv store w handler d
    pub same : Same store laws w handler c d
    pub portals :
        (j : String)
        → lookup j d.resources.portals
          ≡ (if member names j then none else lookup j c.resources.portals)

  EachDropped-cons :
      (n : String) (names : List String) (c d e : Client Store)
      → Dropped store laws w handler n c d
      → EachDropped names d e
      → EachDropped (n ∷ names) c e
  EachDropped-cons n names c d e p q = record {
    inv = q.inv;
    same = Same-trans p.same q.same;
    portals = λ j. ground (arith, q.portals j, p.portals j);
  }

  pub drop_each_post :
      (names : List String) (c : Client Store)
      → Inv store w handler c
      → Post I (λ _ d. EachDropped names c d) (drop_each store w handler names c)
  unfolding drop_each
  drop_each_post [] c inv = record { inv = inv; same = Same-refl c; portals = λ j. refl }
  drop_each_post (n ∷ names) c inv =
      bind_post I (λ _ d. Dropped store laws w handler n c d) (λ _ d. EachDropped (n ∷ names) c d)
        (drop_portal store w handler n) (λ _. drop_each store w handler names) c
        (drop_portal_post store laws w handler n c inv)
        (λ _ d p.
          weaken_post I (λ _ e. EachDropped names d e) (λ _ e. EachDropped (n ∷ names) c e)
            (drop_each store w handler names d) (drop_each_post names d p.inv)
            (λ _ e q. EachDropped-cons n names c d e p q))

  pub none_kind : {A : Type 0} (o : Option (Entry A)) → none ≡ stored_kind o → o ≡ none
  none_kind none h = refl
  none_kind (some (value a)) h = absurd (ground arith)
  none_kind (some empty) h = absurd (ground arith)

  -- Removing a portal from pgwire's store that the table does not have keeps the invariant.
  rm_absent-Inv :
      (n : String) (c : Client Store)
      → Inv store w handler c
      → lookup n c.resources.portals ≡ none
      → Inv store w handler (record c { store = store.rm_portal c.store n })
  unfolding instance_for
  rm_absent-Inv n c inv absent = record {
    installed = inv.installed;
    portals_agree =
        λ j. ground (arith, laws.get-rm_portal c.store n j, inv.portals_agree j, str_eq_iff n j);
    statements_agree =
        λ j. inv.statements_agree j ∙ ap is_value (sym (laws.statement-rm_portal c.store n j));
    no_orphan = λ j e h.
        ap stored_kind (laws.statement-rm_portal c.store n e.statement_name) ∙ inv.no_orphan j e h;
    portals_live = inv.portals_live;
    statements_live = inv.statements_live;
    served = inv.served;
    distinct = inv.distinct;
  }

  -- What `close_all_portals` has done: no portal is left in either table, and nothing else has
  -- changed.
  pub record Emptied (c d : Client Store) : Type 0 where
    pub inv : Inv store w handler d
    pub same : Same store laws w handler c d
    pub no_entry : (j : String) → lookup j d.resources.portals ≡ none
    pub no_portal : (j : String) → store.get_portal d.store j ≡ none

  emptied :
      (c d : Client Store)
      → EachDropped (keys c.resources.portals) c d
      → Emptied c (record d { store = store.rm_portal d.store w.default_name })
  emptied c d p =
      let absent = λ (j : String). absent_at j in
      let inv' = rm_absent-Inv w.default_name d p.inv (absent w.default_name) in
      record {
        inv = inv';
        same = Same-trans p.same (record {
          statement = laws.statement-rm_portal d.store w.default_name;
          status = refl;
          session = refl;
          statements = refl;
          sent = refl;
        });
        no_entry = absent;
        no_portal = λ j. none_kind _ (ap entry_kind (sym (absent j)) ∙ inv'.portals_agree j);
      }
    where
      absent_at : (j : String) → lookup j d.resources.portals ≡ none
      absent_at j = ground (arith, p.portals j, member-keys j c.resources.portals)

  all_names :
      (c : Client Store)
      → c.installed ≡ true
      → (if c.installed then keys c.resources.portals else []) ≡ keys c.resources.portals
  all_names c h = ground arith

  pub close_all_portals_post :
      (c : Client Store)
      → Inv store w handler c
      → Post I (λ _ d. Emptied c d) (close_all_portals store w handler c)
  unfolding close_all_portals
  close_all_portals_post c inv = rw (all_names c inv.installed) (
      bind_post I (λ _ d. EachDropped (keys c.resources.portals) c d) (λ _ d. Emptied c d)
        (drop_each store w handler (keys c.resources.portals))
        (λ _. modify (λ c. record c { store = store.rm_portal c.store w.default_name })) c
        (drop_each_post (keys c.resources.portals) c inv) (λ _ d p. emptied c d p))
