-- ===== src/Server/Life.antt =====
-- A connection of src/server.rs from its startup to its end: the handlers of the simple and of the
-- extended protocol in any order, and then `cleanup` of src/extended.rs.
use pywire.Base.{◌≡◌, false, Option, none, List, String}
use pywire.HashMap.{lookup}
use pywire.Query.Response.{Py}
use pywire.Query.Response.Convert.{Response}
use pywire.Extended.State.{TransactionStatus, Client, PortalStore, IsStore, World, MakesPortals}
use pywire.Extended.Action.{Action}
use pywire.Extended.Invariant.{live_portal, live_statement, Inv, weaken_post}
use pywire.Extended.Requests.{Request, handle}
use pywire.Extended.Session.{Fresh, Fresh-Inv, handle_post, Post-Inv, set_status-Inv}
use pywire.Extended.Cleanup.{ClosesSucceed, cleanup, cleanup-closes_all}
use pywire.Server.SimpleQuery.{on_query, Tidy, KeepsWhatQueriesKeep, on_query-Tidy}

module _ {Store : Type 0} (store : PortalStore Store) (w : World) (handler : Option Py) (inner : Py)
    (on_query_default : (String → Action Store (List Response)) → String → Action Store Unit) where
  -- The states of a connection that serves both protocols.
  pub data Served : Client Store → Type 0 where
    started : (c : Client Store) → Fresh store w handler c → Served c
    handled : (c : Client Store) (r : Request) → Served c → Served (handle store w handler r c).1
    queried :
        (c : Client Store) (q : String)
        → Served c
        → Served (on_query store w handler inner on_query_default q c).1
    status_set :
        (c : Client Store) (s : TransactionStatus) → Served c → Served (record c { status = s })

  module _ (laws : IsStore store) (makes : MakesPortals w)
      (keeps : KeepsWhatQueriesKeep store w handler inner on_query_default laws) where
    -- Both protocols keep the tables of the connection in order.
    Served-Inv : (c : Client Store) → Served c → Inv store w handler c
    Served-Inv _ (started c f) = Fresh-Inv store laws w makes handler c f
    Served-Inv _ (handled c r p) =
        Post-Inv store laws w makes handler (handle store w handler r c)
          (handle_post store laws w makes handler r c (Served-Inv c p))
    Served-Inv _ (queried c q p) =
        Post-Inv store laws w makes handler (on_query store w handler inner on_query_default q c) (
          weaken_post (Inv store w handler)
            (λ _ d. Tidy store w handler inner on_query_default laws d)
            (λ _ d. Inv store w handler d) (on_query store w handler inner on_query_default q c)
            (on_query-Tidy store w handler inner on_query_default laws q c keeps (Served-Inv c p))
            (λ _ d p. p.0))
    Served-Inv _ (status_set c s p) = set_status-Inv store laws w makes handler c s (Served-Inv c p)

    -- Whatever requests of the two protocols a connection has served since startup, in whatever
    -- order and with whatever answers of Python: when Python closes what it is asked to close and
    -- pgwire's `_on_query` changes the connection through `do_query` only, `cleanup` at the end
    -- leaves no portal and no statement open in Python, and empties the tables.
    pub Served-closes_all :
        (c : Client Store) (n : String)
        → ClosesSucceed w
        → Served c
        → (live_portal n (cleanup w c.resources c.calls).1 ≡ false)
          × (live_statement n (cleanup w c.resources c.calls).1 ≡ false)
          × (lookup n (cleanup w c.resources c.calls).0.portals ≡ none)
          × (lookup n (cleanup w c.resources c.calls).0.statements ≡ none)
    Served-closes_all c n closes p = cleanup-closes_all store w handler c n closes (Served-Inv c p)
