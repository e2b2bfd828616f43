-- ===== src/Extended/Refinement.antt =====
-- The handlers of src/extended.rs do to the session of a client what the protocol promises.
use pywire.Base.{
  ◌≡◌, sym, ap, ◌∙◌, Bool, Option, none, some, arith, String, str_eq, str_eq_iff, Bool-cases, inl,
  inr,
}
use pywire.HashMap.{lookup}
use pywire.Query.Response.{Py}
use pywire.Extended.State.{PortalEntry, Client, PortalStore, IsStore, World, MakesPortals, name_or}
use pywire.Extended.Action.{Action, pure, ◌>>=◌}
use pywire.Extended.Bind.{on_bind}
use pywire.Extended.Handlers.{
  on_parse, on_sync, on_close, do_describe_statement, do_describe_portal, do_query, is_idle,
}
use pywire.Extended.Invariant.{entry_kind, stored_kind, Inv, Post, bind_post, weaken_post}
use pywire.Extended.Invariant.Parse.Handler.{ParsedAs, on_parse_post}
use pywire.Extended.Invariant.Bind.{Opened, statement_of}
use pywire.Extended.Invariant.Bind.Handler.{on_bind_post}
use pywire.Extended.Invariant.Sync.{Synced, SyncedAndTold, on_sync_post}
use pywire.Extended.Invariant.Close.{CloseDone, on_close_post}
use pywire.Extended.Invariant.Query.{
  Kept, Kept-refl, Kept-SameView, Executed, describe_statement_post, describe_portal_post,
  do_query_post,
}
use pywire.Extended.Requests.{
  Request, parse, bind, sync, close, describe_statement, describe_portal, execute, handle,
}
use pywire.Extended.Spec.{view_entry, view, opened, open_portal, sync_spec, SameView, Promises}

-- An entry is its statement's name and its kind.
entry_view :
    (o : Option PortalEntry) (name : String) (k : Option Bool)
    → statement_of o ≡ some name
    → entry_kind o ≡ k
    → view_entry o ≡ opened name k
entry_view none name k h e = absurd (ground (arith, h))
entry_view (some x) name k h e = ground (arith, h, e)

module _ {Store : Type 0} (store : PortalStore Store) (laws : IsStore store) (w : World)
    (makes : MakesPortals w) (handler : Option Py) where
  abbrev I : Client Store → Type 0
  I = Inv store w handler

  Opened-view :
      (name statement_name : String) (c d : Client Store)
      → Opened store laws w handler name statement_name c d
      → SameView (view store d) (open_portal name statement_name (view store c))
  Opened-view name statement_name c d p = record {
    statements = λ j. ap stored_kind (p.statement j);
    portals = λ j. elim (Bool-cases (str_eq name j)) [
      | inr other ↦ rw other (ap view_entry (p.others j other))
      | inl same ↦ rw same (
          ap (λ n. view_entry (lookup n d.resources.portals)) (sym ((str_eq_iff name j).0 same))
          ∙ entry_view (lookup name d.resources.portals) statement_name
              (stored_kind (store.get_statement c.store statement_name)) p.entry
              (p.inv_after.portals_agree name ∙ p.kind))
    ];
  }

  Synced-view :
      (c d : Client Store)
      → Synced store laws w handler c d
      → SameView (view store d) (sync_spec (is_idle c.status) (view store c))
  Synced-view c d p = elim (Bool-cases (is_idle c.status)) [
    | inl e ↦ rw e (record {
      statements = λ j. ap stored_kind (p.statement j);
      portals = λ j. ap view_entry (p.closed e j).0;
    })
    | inr e ↦ rw e (record {
      statements = λ j. ap stored_kind (p.statement j);
      portals = λ j. ap (λ t. view_entry (lookup j t.portals)) (p.kept e).0;
    })
  ]

  abbrev pub Refined : Request → Client Store → Unit {0} → Client Store → Type 0
  Refined r c _ d =
      Inv store w handler d × Promises w (is_idle c.status) r (view store c) (view store d)

  discarded :
      {A : Type 0} (m : Action Store A) (c : Client Store) (Q R : Client Store → Type 0)
      → Post I (λ (_ : A) d. Q d) (m c)
      → ((d : Client Store) → Q d → R d)
      → Post I (λ (_ : Unit {0}) d. R d) ((m >>= λ _. pure tt) c)
  discarded {A = A} m c Q R h k =
      bind_post I (λ (_ : A) d. Q d) (λ (_ : Unit {0}) d. R d) m (λ _. pure tt) c h (λ _ d q. k d q)

  -- Every handler refines the protocol's session: where it returns, the statements and portals that a
  -- client has are those that the request gives it by the protocol, and no other has changed; the
  -- tables are in order then, and also where it ends in an error. It does not panic.
  pub handle-Refined :
      (r : Request) (c : Client Store)
      → Inv store w handler c
      → Post I (Refined r c) (handle store w handler r c)
  unfolding handle
  handle-Refined (parse m) c inv =
      weaken_post I (λ _ d. ParsedAs store laws w handler m c d) (Refined (parse m) c)
        (on_parse store w handler m c) (on_parse_post store laws w handler m c inv)
        (λ _ d p. (p.inv_after, p.view_after))
  handle-Refined (bind m) c inv =
      let name = name_or w.default_name m.portal_name in
      let statement_name = name_or w.default_name m.statement_name in
      weaken_post I (λ _ d. Opened store laws w handler name statement_name c d)
        (Refined (bind m) c) (on_bind store w handler m c)
        (on_bind_post store laws w handler m c inv makes)
        (λ _ d p. (p.inv_after, Opened-view name statement_name c d p))
  handle-Refined sync c inv =
      weaken_post I (λ _ d. SyncedAndTold store laws w handler c d) (Refined sync c)
        (on_sync store w handler c) (on_sync_post store laws w handler c inv)
        (λ _ d p. (p.0.inv_after, Synced-view c d p.0))
  handle-Refined (close m) c inv =
      weaken_post I (λ _ d. CloseDone store laws w handler m c d) (Refined (close m) c)
        (on_close store w handler m c) (on_close_post store laws w handler m c inv)
        (λ _ d p. (p.inv_after, p.view_after))
  handle-Refined (describe_statement target) c inv =
      discarded (do_describe_statement store w handler target) c
        (λ d. Kept store laws w handler c d) (Refined (describe_statement target) c tt)
        (describe_statement_post store laws w handler c target c
          (Kept-refl store laws w handler c inv))
        (λ d k. (k.inv_after, Kept-SameView store laws w handler c d k))
  handle-Refined (describe_portal target) c inv =
      discarded (do_describe_portal store w handler target) c (λ d. Kept store laws w handler c d)
        (Refined (describe_portal target) c tt)
        (describe_portal_post store laws w handler c target c
          (Kept-refl store laws w handler c inv))
        (λ d k. (k.inv_after, Kept-SameView store laws w handler c d k))
  handle-Refined (execute portal max_rows) c inv =
      discarded (do_query store w handler portal max_rows) c
        (λ d. Executed store laws w handler c d) (Refined (execute portal max_rows) c tt)
        (do_query_post store laws w handler c portal max_rows c
          (Kept-refl store laws w handler c inv))
        (λ d p. p)
