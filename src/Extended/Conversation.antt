-- ===== src/Extended/Conversation.antt =====
-- Sequences of requests to the handlers of src/extended.rs that all return, held against the session
-- of the protocol.
use pywire.Base.{◌≡◌, refl, subst, Bool, Option, none, List, [], ◌∷◌}
use pywire.HashMap.{lookup}
use pywire.Query.Response.{Py}
use pywire.Extended.State.{TransactionStatus, Client, PortalStore, IsStore, World, MakesPortals}
use pywire.Extended.Action.{done}
use pywire.Extended.Handlers.{is_idle}
use pywire.Extended.Invariant.{Inv, Post, stored_kind}
use pywire.Extended.Requests.{Request, handle}
use pywire.Extended.Spec.{SessionView, view, view_entry, Promises}
use pywire.Extended.Refinement.{Refined, handle-Refined}
use pywire.Extended.Session.{Fresh, Fresh-Inv, set_status-Inv}

-- A request, and whether it found the connection outside of a transaction.
abbrev pub Asked : Type 0
Asked = Bool × Request

-- The protocol's own runs: each request does to the session what it promises.
abbrev pub Run : World → List Asked → SessionView → SessionView → Type 0
Run w [] a z = a ≡ z
Run w ((idle, r) ∷ rs) a z = (b : SessionView) × Promises w idle r a b × Run w rs b z

-- Nothing prepared, nothing open.
abbrev pub empty_session : SessionView
empty_session = record { statements = λ n. none; portals = λ n. none }

module _ {Store : Type 0} (store : PortalStore Store) (w : World) (handler : Option Py) where
  -- The handlers serve the requests one by one; between two of them pgwire may set the status of the
  -- transaction.
  pub data Conversed : List Asked → Client Store → Client Store → Type 0 where
    silent : (c : Client Store) → Conversed [] c c
    returned :
        (r : Request) (rs : List Asked) (c d e : Client Store)
        → handle store w handler r c ≡ (done tt, d)
        → Conversed rs d e
        → Conversed ((is_idle c.status, r) ∷ rs) c e
    status_set :
        (s : TransactionStatus) (rs : List Asked) (c e : Client Store)
        → Conversed rs (record c { status = s }) e
        → Conversed rs c e

  Fresh-view : (c : Client Store) → Fresh store w handler c → view store c ≡ empty_session
  unfolding lookup
  Fresh-view c f = λ i. record {
    statements = λ n. stored_kind (f.no_statement n i);
    portals = λ n. view_entry (lookup n (f.no_entries i));
  }

module _ {Store : Type 0} (store : PortalStore Store) (laws : IsStore store) (w : World)
    (makes : MakesPortals w) (handler : Option Py) where
  step :
      (r : Request) (c d : Client Store)
      → Inv store w handler c
      → handle store w handler r c ≡ (done tt, d)
      → Refined store laws w makes handler r c tt d
  step r c d inv h =
      subst (Post (Inv store w handler) (Refined store laws w makes handler r c)) h
        (handle-Refined store laws w makes handler r c inv)

  conversed :
      (rs : List Asked) (c d : Client Store)
      → Inv store w handler c
      → Conversed store w handler rs c d
      → Run w rs (view store c) (view store d)
  conversed _ _ _ inv (silent c) = refl
  conversed _ _ _ inv (returned r rs c d e h p) =
      let (after, promised) = step r c d inv h in (view store d, promised, conversed rs d e after p)
  conversed _ _ _ inv (status_set s rs c e p) =
      conversed rs (record c { status = s }) e (set_status-Inv store laws w makes handler c s inv) p

  -- On a connection that startup has just prepared, whatever requests it then serves, and as long as
  -- each of them returns: the client's statements and portals are those that a run of the protocol
  -- makes of nothing by the same requests, whatever Python answered.
  pub Conversed-Run :
      (rs : List Asked) (c d : Client Store)
      → Fresh store w handler c
      → Conversed store w handler rs c d
      → Run w rs empty_session (view store d)
  Conversed-Run rs c d f p =
      subst (λ a. Run w rs a (view store d)) (Fresh-view store w handler c f)
        (conversed rs c d (Fresh-Inv store laws w makes handler c f) p)
