-- ===== src/Extended/Session.antt =====
-- A connection over time: pgwire calls the handlers of src/extended.rs in any order, with any
-- messages, and keeps the connection when one of them ends in an error.
use pywire.Base.{◌≡◌, refl, ap, Bool, true, false, Option, none, [], arith, String}
use pywire.HashMap.{lookup}
use pywire.Query.Response.{Py}
use pywire.Extended.State.{TransactionStatus, Client, PortalStore, IsStore, World, MakesPortals}
use pywire.Extended.Action.{Ending, done, failed, panicked}
use pywire.Extended.Close.{instance_for}
use pywire.Extended.Requests.{Request, handle}
use pywire.Extended.Refinement.{Refined, handle-Refined}
use pywire.Extended.Invariant.{live_portal, live_statement, Inv, Post, weaken_post}

module _ {Store : Type 0} (store : PortalStore Store) (w : World) (handler : Option Py) where
  -- A connection that startup has just prepared.
  pub record Fresh (c : Client Store) : Type 0 where
    pub installed : c.installed ≡ true
    pub no_entries : c.resources.portals ≡ []
    pub no_statements : c.resources.statements ≡ []
    pub no_portal : (n : String) → store.get_portal c.store n ≡ none
    pub no_statement : (n : String) → store.get_statement c.store n ≡ none
    pub nothing_open :
        (n : String) → (live_portal n c.calls ≡ false) × (live_statement n c.calls ≡ false)

  -- The states that a connection gets to. The status of its transaction is changed by pgwire.
  pub data Reachable : Client Store → Type 0 where
    started : (c : Client Store) → Fresh c → Reachable c
    handled :
        (c : Client Store) (r : Request) → Reachable c → Reachable (handle store w handler r c).1
    status_set :
        (c : Client Store) (s : TransactionStatus)
        → Reachable c
        → Reachable (record c { status = s })

abbrev pub has_panicked : {A : Type 0} → Ending A → Bool
has_panicked (done a) = false
has_panicked (failed e) = false
has_panicked panicked = true

module _ {Store : Type 0} (store : PortalStore Store) (laws : IsStore store) (w : World)
    (makes : MakesPortals w) (handler : Option Py) where
  abbrev I : Client Store → Type 0
  I = Inv store w handler

  pub Fresh-Inv : (c : Client Store) → Fresh store w handler c → Inv store w handler c
  unfolding lookup
  Fresh-Inv c f = record {
    installed = f.installed;
    portals_agree = λ n. rw (f.no_entries, f.no_portal n) refl;
    statements_agree = λ n. rw (f.no_statements, f.no_statement n) refl;
    no_orphan = λ n e h. absurd (ground (arith, ap (lookup n) f.no_entries));
    portals_live = λ n. rw (f.no_entries, (f.nothing_open n).0) refl;
    statements_live = λ n. rw (f.no_statements, (f.nothing_open n).1) refl;
    served = λ n h. rw f.no_statements refl;
    distinct = rw f.no_entries tt;
  }

  -- Every handler keeps the invariant, whatever it ends in, and none panics.
  pub handle_post :
      (r : Request) (c : Client Store)
      → Inv store w handler c
      → Post I (λ (_ : Unit {0}) d. Inv store w handler d) (handle store w handler r c)
  handle_post r c inv =
      weaken_post I (Refined store laws w makes handler r c)
        (λ (_ : Unit {0}) d. Inv store w handler d) (handle store w handler r c)
        (handle-Refined store laws w makes handler r c inv) (λ _ d p. p.0)

  pub Post-Inv :
      {A : Type 0} (x : Ending A × Client Store)
      → Post I (λ (_ : A) d. Inv store w handler d) x
      → Inv store w handler x.1
  Post-Inv (done a, c) h = h
  Post-Inv (failed e, c) h = h
  Post-Inv (panicked, c) h = absurd h

  Post-no_panic :
      {A : Type 0} (x : Ending A × Client Store)
      → Post I (λ (_ : A) d. Inv store w handler d) x
      → has_panicked x.0 ≡ false
  Post-no_panic (done a, c) h = refl
  Post-no_panic (failed e, c) h = refl
  Post-no_panic (panicked, c) h = absurd h

  pub set_status-Inv :
      (c : Client Store) (s : TransactionStatus)
      → Inv store w handler c
      → Inv store w handler (record c { status = s })
  unfolding instance_for
  set_status-Inv c s inv = record {
    installed = inv.installed;
    portals_agree = inv.portals_agree;
    statements_agree = inv.statements_agree;
    no_orphan = inv.no_orphan;
    portals_live = inv.portals_live;
    statements_live = inv.statements_live;
    served = inv.served;
    distinct = inv.distinct;
  }

  -- Whatever was requested since startup, and however Python and the sink answered: pgwire's store
  -- and the tables of the connection agree, every portal's statement is there, Python holds exactly
  -- the portals and statements of the tables, and all of it is as `Inv` says.
  pub Reachable-Inv : (c : Client Store) → Reachable store w handler c → Inv store w handler c
  Reachable-Inv _ (started c f) = Fresh-Inv c f
  Reachable-Inv _ (handled c r p) =
      Post-Inv (handle store w handler r c) (handle_post r c (Reachable-Inv c p))
  Reachable-Inv _ (status_set c s p) = set_status-Inv c s (Reachable-Inv c p)

  -- No request makes a handler panic: the `expect`s of `on_parse` and `on_bind` are never met.
  pub handle-no_panic :
      (c : Client Store) (r : Request)
      → Reachable store w handler c
      → has_panicked (handle store w handler r c).0 ≡ false
  handle-no_panic c r p =
      Post-no_panic (handle store w handler r c) (handle_post r c (Reachable-Inv c p))
