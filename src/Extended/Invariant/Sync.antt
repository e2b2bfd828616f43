-- ===== src/Extended/Invariant/Sync.antt =====
-- `on_sync` of src/extended.rs keeps the invariant, and closes what it has to.
use pywire.Base.{
  ◌≡◌, refl, ap, ◌∙◌, true, false, Option, none, ◌∷◌, arith, String, inl, inr, Bool-cases,
  Result-cases,
}
use pywire.HashMap.{lookup}
use pywire.Query.Response.{Py}
use pywire.Extended.State.{Message, ready_for_query, Client, PortalStore, IsStore, World}
use pywire.Extended.Action.{send, flush, ◌>>◌}
use pywire.Extended.Close.{close_all_portals}
use pywire.Extended.Handlers.{is_idle, close_if_idle, on_sync}
use pywire.Extended.Invariant.{Inv, Post, bind_post, weaken_post}
use pywire.Extended.Invariant.CloseAll.{Emptied, close_all_portals_post}
use pywire.Extended.Invariant.Parse.{send_post}

module _ {Store : Type 0} (store : PortalStore Store) (laws : IsStore store) (w : World)
    (handler : Option Py) where
  abbrev I : Client Store → Type 0
  I = Inv store w handler

  -- The portals and statements of two states are the same.
  abbrev pub SameTables : Client Store → Client Store → Type 0
  SameTables c d = (d.resources ≡ c.resources) × (d.store ≡ c.store)

  abbrev pub NoPortals : Client Store → Type 0
  NoPortals d =
      (j : String) → (lookup j d.resources.portals ≡ none) × (store.get_portal d.store j ≡ none)

  -- A sync has closed all portals when no transaction is open, and changed no table otherwise.
  pub record Synced (c d : Client Store) : Type 0 where
    pub inv_after : Inv store w handler d
    pub status : d.status ≡ c.status
    pub statement : (j : String) → store.get_statement d.store j ≡ store.get_statement c.store j
    pub closed : is_idle c.status ≡ true → NoPortals d
    pub kept : is_idle c.status ≡ false → SameTables c d

  pub close_if_idle_post :
      (c : Client Store)
      → Inv store w handler c
      → Post I (λ _ d. Synced c d × (d.sent ≡ c.sent)) (close_if_idle store w handler c)
  unfolding close_if_idle
  close_if_idle_post c inv = elim (Bool-cases (is_idle c.status)) [
    | inl e ↦ rw e (
        weaken_post I (λ _ d. Emptied store laws w handler c d)
          (λ _ d. Synced c d × (d.sent ≡ c.sent)) (close_all_portals store w handler c)
          (close_all_portals_post store laws w handler c inv)
          (λ _ d p. (
            record {
              inv_after = p.inv;
              status = p.same.status;
              statement = p.same.statement;
              closed = λ _ j. (p.no_entry j, p.no_portal j);
              kept = λ f. absurd (ground arith);
            },
            p.same.sent,
          )))
    | inr e ↦ rw e (
      record {
        inv_after = inv;
        status = refl;
        statement = λ j. refl;
        closed = λ f. absurd (ground arith);
        kept = λ _. (refl, refl);
      },
      refl,
    )
  ]

  Synced-sent :
      (c d e : Client Store) (m : Message)
      → Synced c d
      → Inv store w handler e
      → e ≡ record d { sent = m ∷ d.sent }
      → Synced c e
  Synced-sent c d e m p inv' q = record {
    inv_after = inv';
    status = ap (λ x. x.status) q ∙ p.status;
    statement = λ j. ap (λ x. store.get_statement x.store j) q ∙ p.statement j;
    closed = λ f j. (
      ap (λ x. lookup j x.resources.portals) q ∙ (p.closed f j).0,
      ap (λ x. store.get_portal x.store j) q ∙ (p.closed f j).1,
    );
    kept = λ f. (ap (λ x. x.resources) q ∙ (p.kept f).0, ap (λ x. x.store) q ∙ (p.kept f).1);
  }

  flush_post :
      (Q : Client Store → Type 0) (c : Client Store)
      → Inv store w handler c
      → Q c
      → Post I (λ _ d. Q d) (flush w c)
  unfolding flush
  flush_post Q c inv h = elim (Result-cases (w.flush c.sent)) [
    | inl (v, e) ↦ rw e h
    | inr (x, e) ↦ rw e inv
  ]

  -- The sync tells the client its transaction status.
  abbrev pub SyncedAndTold : Client Store → Client Store → Type 0
  SyncedAndTold c d = Synced c d × (d.sent ≡ ready_for_query c.status ∷ c.sent)

  ready :
      (c d : Client Store)
      → Synced c d × (d.sent ≡ c.sent)
      → Post I (λ _ e. SyncedAndTold c e) ((send w (ready_for_query d.status) >> flush w) d)
  ready c d (p, q) =
      bind_post I
        (λ _ e. Inv store w handler e × (e ≡ record d { sent = ready_for_query d.status ∷ d.sent }))
        (λ _ e. SyncedAndTold c e) (send w (ready_for_query d.status)) (λ _. flush w) d
        (send_post store laws w handler (ready_for_query d.status) d p.inv_after)
        (λ _ e r. flush_post (SyncedAndTold c) e r.0 (
          Synced-sent c d e (ready_for_query d.status) p r.0 r.1,
          ap (λ x. x.sent) r.1
              ∙ ap (λ s. ready_for_query s ∷ d.sent) p.status
              ∙ ap (λ l. ready_for_query c.status ∷ l) q,
        ))

  -- On a connection whose tables are in order `on_sync` does not panic, and where it ends in an
  -- error they still are. Where it returns they are, the client has been told its status, no
  -- statement has changed, and outside a transaction no portal is left in either table, while
  -- within one both tables are untouched.
  pub on_sync_post :
      (c : Client Store)
      → Inv store w handler c
      → Post I (λ _ d. SyncedAndTold c d) (on_sync store w handler c)
  unfolding on_sync
  on_sync_post c inv =
      bind_post I (λ _ d. Synced c d × (d.sent ≡ c.sent)) (λ _ d. SyncedAndTold c d)
        (close_if_idle store w handler) (λ _ d. (send w (ready_for_query d.status) >> flush w) d) c
        (close_if_idle_post c inv) (λ _ d p. ready c d p)
