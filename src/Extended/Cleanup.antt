-- ===== src/Extended/Cleanup.antt =====
-- The end of a connection: `cleanup` of `PythonPortals` and `cleanup_entries` in src/extended.rs.
use pywire.Base.{
  ◌≡◌, refl, sym, ap, ◌∙◌, true, false, Option, none, some, List, [], ◌∷◌, arith, String, str_eq,
  if◌then◌else◌, ok, Bool-cases, inl, inr,
}
use pywire.HashMap.{HashMap, lookup}
use pywire.Query.Response.{Py}
use pywire.Extended.State.{
  BoundPortal, PortalEntry, PythonPortals, Call, Event, PortalStore, World, Client,
}
use pywire.Extended.Close.{bound_of}
use pywire.Extended.Bind.{is_some}
use pywire.Extended.Invariant.{live_portal, live_statement, Inv}

module _ (w : World) where
  -- A call whose result is ignored: `let _ = call_python(…).await`.
  unfoldable pub ignore : Call → List Event → List Event
  ignore call calls = record { call = call; outcome = w.answer calls call } ∷ calls

  unfoldable pub cleanup_portal : String → Option BoundPortal → List Event → List Event
  unfolding ignore
  cleanup_portal name none calls = calls
  cleanup_portal name (some b) calls = ignore (Call.close_portal b.instance_ref name) calls

  -- The three parts of `cleanup_entries`.
  unfoldable pub cleanup_portals : HashMap PortalEntry → List Event → List Event
  unfolding cleanup_portal
  cleanup_portals [] calls = calls
  cleanup_portals ((name, entry) ∷ m) calls =
      cleanup_portals m (cleanup_portal name entry.bound calls)

  unfoldable pub cleanup_statements : HashMap Py → List Event → List Event
  unfolding ignore
  cleanup_statements [] calls = calls
  cleanup_statements ((name, i) ∷ m) calls =
      cleanup_statements m (ignore (Call.close_statement i name) calls)

  unfoldable pub cleanup_session : Option Py → List Event → List Event
  unfolding ignore
  cleanup_session none calls = calls
  cleanup_session (some i) calls =
      if w.has_close i then ignore (Call.close_session i) calls else calls

  -- `cleanup_entries`.
  unfoldable pub cleanup_entries :
      HashMap PortalEntry → HashMap Py → Option Py → List Event → List Event
  unfolding cleanup_portals cleanup_statements cleanup_session
  cleanup_entries portals statements session calls =
      cleanup_session session (cleanup_statements statements (cleanup_portals portals calls))

  -- `cleanup`: the tables are taken out of the object before the first call.
  unfoldable pub cleanup : PythonPortals → List Event → PythonPortals × List Event
  unfolding cleanup_entries
  cleanup p calls = (
    record { portals = []; statements = []; session = none },
    cleanup_entries p.portals p.statements p.session calls,
  )

  -- Python closes what it is asked to close.
  abbrev pub ClosesSucceed : Type 0
  ClosesSucceed =
      (calls : List Event) (i : Py) (n : String)
      → ((v : Py) × (w.answer calls (Call.close_portal i n) ≡ ok v))
        × ((v : Py) × (w.answer calls (Call.close_statement i n) ≡ ok v))

  module _ (closes : ClosesSucceed) where
    portal_closed :
        (n k : String) (b : BoundPortal) (calls : List Event)
        → live_portal n (cleanup_portal k (some b) calls)
          ≡ (if str_eq k n then false else live_portal n calls)
    unfolding cleanup_portal live_portal
    portal_closed n k b calls = let (v, a) = (closes calls b.instance_ref k).0 in rw a refl

    dead_portals :
        (n : String) (m : HashMap PortalEntry) (calls : List Event)
        → live_portal n calls ≡ false
        → live_portal n (cleanup_portals m calls) ≡ false
    unfolding cleanup_portals
    dead_portals n [] calls dead = dead
    dead_portals n ((k, e) ∷ m) calls dead =
        dead_portals n m (cleanup_portal k e.bound calls) (still e.bound)
      where
        still : (o : Option BoundPortal) → live_portal n (cleanup_portal k o calls) ≡ false
        still none = dead
        still (some b) = ground (arith, portal_closed n k b calls)

    -- The portals that Python holds are those of the table; behind the first loop it holds none.
    portals_closed :
        (n : String) (m : HashMap PortalEntry) (calls : List Event)
        → is_some (bound_of (lookup n m)) ≡ live_portal n calls
        → live_portal n (cleanup_portals m calls) ≡ false
    unfolding cleanup_portals lookup
    portals_closed n [] calls h = sym h
    portals_closed n ((k, e) ∷ m) calls h = elim (Bool-cases (str_eq k n)) [
      | inl s ↦ dead_portals n m (cleanup_portal k e.bound calls) (
          closed_first e.bound
            (ap (λ b. is_some (bound_of (if b then some e else lookup n m))) (sym s) ∙ h) s)
      | inr s ↦ portals_closed n m (cleanup_portal k e.bound calls) (
          ap (λ b. is_some (bound_of (if b then some e else lookup n m))) (sym s)
          ∙ h
          ∙ sym (other e.bound s))
    ]
      where
        closed_first :
            (o : Option BoundPortal)
            → is_some o ≡ live_portal n calls
            → str_eq k n ≡ true
            → live_portal n (cleanup_portal k o calls) ≡ false
        closed_first none g s = sym g
        closed_first (some b) g s = ground (arith, portal_closed n k b calls)

        other :
            (o : Option BoundPortal)
            → str_eq k n ≡ false
            → live_portal n (cleanup_portal k o calls) ≡ live_portal n calls
        other none s = refl
        other (some b) s = ground (arith, portal_closed n k b calls)

    dead_statements :
        (n : String) (m : HashMap Py) (calls : List Event)
        → live_statement n calls ≡ false
        → live_statement n (cleanup_statements m calls) ≡ false
    unfolding cleanup_statements live_statement
    dead_statements n [] calls dead = dead
    dead_statements n ((k, i) ∷ m) calls dead =
        dead_statements n m (ignore (Call.close_statement i k) calls)
          (let (v, a) = (closes calls i k).1 in rw a (ground (arith, dead)))

    statements_closed :
        (n : String) (m : HashMap Py) (calls : List Event)
        → is_some (lookup n m) ≡ live_statement n calls
        → live_statement n (cleanup_statements m calls) ≡ false
    unfolding cleanup_statements lookup live_statement
    statements_closed n [] calls h = sym h
    statements_closed n ((k, i) ∷ m) calls h =
        let (v, a) = (closes calls i k).1 in
        elim (Bool-cases (str_eq k n)) [
          | inl s ↦ dead_statements n m (ignore (Call.close_statement i k) calls) (rw (a, s) refl)
          | inr s ↦
              statements_closed n m (ignore (Call.close_statement i k) calls)
                (ap (λ b. is_some (if b then some i else lookup n m)) (sym s) ∙ h ∙ rw (a, s) refl)
        ]

  -- Each part of the cleanup closes its own kind only.
  statements-cleanup_portals :
      (n : String) (m : HashMap PortalEntry) (calls : List Event)
      → live_statement n (cleanup_portals m calls) ≡ live_statement n calls
  unfolding cleanup_portals live_statement cleanup_portal
  statements-cleanup_portals n [] calls = refl
  statements-cleanup_portals n ((k, e) ∷ m) calls =
      statements-cleanup_portals n m (cleanup_portal k e.bound calls) ∙ same e.bound
    where
      same :
          (o : Option BoundPortal)
          → live_statement n (cleanup_portal k o calls) ≡ live_statement n calls
      same none = refl
      same (some b) = refl

  portals-cleanup_statements :
      (n : String) (m : HashMap Py) (calls : List Event)
      → live_portal n (cleanup_statements m calls) ≡ live_portal n calls
  unfolding cleanup_statements live_portal
  portals-cleanup_statements n [] calls = refl
  portals-cleanup_statements n ((k, i) ∷ m) calls =
      portals-cleanup_statements n m (ignore (Call.close_statement i k) calls)

  portals-cleanup_session :
      (n : String) (o : Option Py) (calls : List Event)
      → live_portal n (cleanup_session o calls) ≡ live_portal n calls
  unfolding cleanup_session live_portal
  portals-cleanup_session n none calls = refl
  portals-cleanup_session n (some i) calls = ground arith

  statements-cleanup_session :
      (n : String) (o : Option Py) (calls : List Event)
      → live_statement n (cleanup_session o calls) ≡ live_statement n calls
  unfolding cleanup_session live_statement
  statements-cleanup_session n none calls = refl
  statements-cleanup_session n (some i) calls = ground arith

module _ {Store : Type 0} (store : PortalStore Store) (w : World) (handler : Option Py) where
  -- When Python closes what it is asked to close, a connection whose tables are in order leaves no
  -- portal and no statement open in Python once `cleanup` is done, and its tables are empty.
  pub cleanup-closes_all :
      (c : Client Store) (n : String)
      → ClosesSucceed w
      → Inv store w handler c
      → (live_portal n (cleanup w c.resources c.calls).1 ≡ false)
        × (live_statement n (cleanup w c.resources c.calls).1 ≡ false)
        × (lookup n (cleanup w c.resources c.calls).0.portals ≡ none)
        × (lookup n (cleanup w c.resources c.calls).0.statements ≡ none)
  unfolding cleanup lookup
  cleanup-closes_all c n closes inv =
      let portals = cleanup_portals w c.resources.portals c.calls in
      (
        portals-cleanup_session w n c.resources.session
              (cleanup_statements w c.resources.statements portals)
            ∙ portals-cleanup_statements w n c.resources.statements portals
            ∙ portals_closed w closes n c.resources.portals c.calls (inv.portals_live n),
        statements-cleanup_session w n c.resources.session
              (cleanup_statements w c.resources.statements portals)
            ∙ statements_closed w closes n c.resources.statements portals (
                inv.statements_live n
                ∙ sym (statements-cleanup_portals w n c.resources.portals c.calls)),
        refl,
        refl,
      )
