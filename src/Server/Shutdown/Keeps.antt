-- ===== src/Server/Shutdown/Keeps.antt =====
-- Every step of a task of src/server.rs keeps what it owes, the lock, and the callbacks that close.
use pywire.Base.{
  ◌≡◌, refl, sym, subst, ap, ◌∙◌, Bool, true, false, ◌||◌, Option, none, some, List, [], ◌∷◌, arith,
  String, str_eq_iff, if◌then◌else◌, Result, All, is_some,
}
use pywire.HashMap.{lookup, remove, lookup-remove}
use pywire.Error.Classes.{PyErr}
use pywire.Query.Response.{Py}
use pywire.Extended.State.{BoundPortal, Call}
use pywire.Extended.Close.{bound_of}
use pywire.Extended.Invariant.{live_portal, live_statement}
use pywire.Server.Shutdown.{
  Pc, outside, finished, asking, parsing, binding, closing_portal, closing_statement, call_of,
  settle, describe_statement, describe_portal, do_query, do_query_text, open_session, Phase,
  serving, cleaning, over, Task, clean_up, Move, ask, parse, bind, close_portal, forget_portal,
  close_statement, answered, finish, disconnected, halt, cleaned, end, releases, spawned,
  instance_of,
}
use pywire.Server.Shutdown.Owed.{
  closes_portal, closes_statement, any_call, refused, owes_portal, owes_statement, PortalOwed,
  StatementOwed, AllCleanup, cleanup_calls-AllCleanup, clean_up-PortalOwed, clean_up-StatementOwed,
}
use pywire.Server.Shutdown.Tracked.{
  event, For, PortalsTracked, StatementsTracked, settle-PortalsTracked, settle-StatementsTracked,
}

-- The lock is held exactly in a close.
abbrev pub locks : Phase → Bool
locks (serving p) = releases p
locks (cleaning cs) = false
locks over = false

abbrev pub is_close : Call → Bool
is_close (Call.close_portal _ _) = true
is_close (Call.close_statement _ _) = true
is_close _ = false

abbrev pub cleanup_of : Phase → List Call
cleanup_of (serving p) = []
cleanup_of (cleaning cs) = cs
cleanup_of over = []

pub record TaskInv (t : Task) : Type 0 where
  pub lock : t.closing ≡ locks t.phase
  pub portals : PortalOwed t
  pub statements : StatementOwed t
  pub cleanup : AllCleanup (cleanup_of t.phase)
  -- no close has been cut off
  pub whole : All (λ c. is_close c ≡ false) t.abandoned

-- The owed things of a task that stays in `select!` with the same tables.
moved :
    (t : Task) (p q : Pc) (held : Bool)
    → t.phase ≡ serving p
    → held ≡ releases q
    → TaskInv t
    → TaskInv (record t { phase = serving q; closing = held })
moved t p q held e l inv = record {
  lock = l;
  portals = λ n live. ground (arith, e, inv.portals n live);
  statements = λ n live. ground (arith, e, inv.statements n live);
  cleanup = tt;
  whole = inv.whole;
}

free_outside : (t : Task) → t.phase ≡ serving outside → TaskInv t → t.closing ≡ false
free_outside t e inv = inv.lock ∙ ap locks e

call_is_no_close : (p : Pc) → releases p ≡ false → For (call_of p) (λ c. is_close c ≡ false)
call_is_no_close outside h = tt
call_is_no_close finished h = tt
call_is_no_close (asking (describe_statement i s)) h = refl
call_is_no_close (asking (describe_portal i s)) h = refl
call_is_no_close (asking (do_query i s m)) h = refl
call_is_no_close (asking (do_query_text i q)) h = refl
call_is_no_close (asking (open_session i)) h = refl
call_is_no_close (parsing i name query oids) h = refl
call_is_no_close (binding i name s v ps pf rf) h = refl
call_is_no_close (closing_portal i name) h = absurd (ground (arith, h))
call_is_no_close (closing_statement i name) h = absurd (ground (arith, h))

module _ (has_close : Py → Bool) where
  -- Into `cleanup`, with a callback dropped that is no close.
  pub clean_up-TaskInv :
      (t : Task) (p : Pc) (dropped : Option Call)
      → t.phase ≡ serving p
      → For dropped (λ c. is_close c ≡ false)
      → TaskInv t
      → TaskInv (clean_up has_close t dropped)
  unfolding clean_up
  clean_up-TaskInv t p dropped e d inv = record {
    lock = refl;
    portals = clean_up-PortalOwed has_close t p dropped e inv.portals;
    statements = clean_up-StatementOwed has_close t p dropped e inv.statements;
    cleanup = cleanup_calls-AllCleanup has_close t.tables;
    whole = added dropped d;
  }
    where
      added :
          (o : Option Call)
          → For o (λ c. is_close c ≡ false)
          → All (λ c. is_close c ≡ false) (elim o [ none ↦ t.abandoned | some c ↦ c ∷ t.abandoned ])
      added none d = inv.whole
      added (some c) d = (d, inv.whole)

  forgotten :
      (name : String) (t : Task)
      → t.phase ≡ serving outside
      → is_some (bound_of (lookup name t.tables.portals)) ≡ false
      → TaskInv t
      → TaskInv (record t { tables = record t.tables { portals = remove name t.tables.portals } })
  forgotten name t e h inv = record {
    lock = inv.lock;
    portals = λ n live.
        ground (
          arith,
          e,
          h,
          inv.portals n live,
          lookup-remove name n t.tables.portals,
          str_eq_iff name n,
        );
    statements = λ n live. ground (arith, e, inv.statements n live);
    cleanup = subst (λ x. AllCleanup (cleanup_of x)) (sym e) tt;
    whole = inv.whole;
  }

  answered-TaskInv :
      (t : Task) (p : Pc) (c : Call) (r : Result PyErr Py)
      → t.phase ≡ serving p
      → call_of p ≡ some c
      → TaskInv t
      → TaskInv (record t {
        tables = settle p r t.tables;
        closing = if releases p then false else t.closing;
        phase = serving outside;
        ended = event c r ∷ t.ended;
      })
  answered-TaskInv t p c r e g inv = record {
    lock = ground (arith, e, inv.lock);
    portals =
        subst (λ o. For o (λ c. PortalsTracked (settle p r t.tables) (event c r ∷ t.ended))) g
          (settle-PortalsTracked r t.tables t.ended p
            (λ n live. ground (arith, e, inv.portals n live)));
    statements =
        subst (λ o. For o (λ c. StatementsTracked (settle p r t.tables) (event c r ∷ t.ended))) g
          (settle-StatementsTracked r t.tables t.ended p
            (λ n live. ground (arith, e, inv.statements n live)));
    cleanup = tt;
    whole = inv.whole;
  }

  cleaned-TaskInv :
      (t : Task) (c : Call) (cs : List Call) (r : Result PyErr Py)
      → t.phase ≡ cleaning (c ∷ cs)
      → TaskInv t
      → TaskInv (record t { phase = cleaning cs; ended = event c r ∷ t.ended })
  unfolding live_portal live_statement refused any_call
  cleaned-TaskInv t c cs r e inv =
      let (is, others) = subst (λ x. AllCleanup (cleanup_of x)) e inv.cleanup in
      record {
        lock = ground (arith, e, inv.lock);
        portals = λ n live. ground (arith, e, is, inv.portals n);
        statements = λ n live. ground (arith, e, is, inv.statements n);
        cleanup = others;
        whole = inv.whole;
      }

  pub Move-TaskInv : {stop : Bool} (t u : Task) → TaskInv t → Move has_close stop t u → TaskInv u
  unfolding any_call
  Move-TaskInv t _ inv (ask q e) = moved t outside (asking q) t.closing e (free_outside t e inv) inv
  Move-TaskInv t _ inv (parse i name query oids e) =
      moved t outside (parsing i name query oids) t.closing e (free_outside t e inv) inv
  Move-TaskInv t _ inv (bind i name s v ps pf rf e) =
      moved t outside (binding i name s v ps pf rf) t.closing e (free_outside t e inv) inv
  Move-TaskInv t _ inv (close_portal i name e free entry) =
      moved t outside (closing_portal i name) true e refl inv
  Move-TaskInv t _ inv (forget_portal name e free entry) =
      forgotten name t e (no_instance (bound_of (lookup name t.tables.portals)) entry) inv
    where
      no_instance : (o : Option BoundPortal) → instance_of o ≡ none → is_some o ≡ false
      no_instance none h = refl
      no_instance (some b) h = absurd (ground (arith, h))
  Move-TaskInv t _ inv (close_statement i name e free) =
      moved t outside (closing_statement i name) true e refl inv
  Move-TaskInv t _ inv (answered p c r e g) = answered-TaskInv t p c r e g inv
  Move-TaskInv t _ inv (finish e) = moved t outside finished t.closing e (free_outside t e inv) inv
  Move-TaskInv t _ inv (disconnected e) = clean_up-TaskInv t finished none e tt inv
  Move-TaskInv t _ inv (halt p e s free) =
      clean_up-TaskInv t p (call_of p) e
        (call_is_no_close p (sym (ap locks e) ∙ sym inv.lock ∙ free)) inv
  Move-TaskInv t _ inv (cleaned c cs r e) = cleaned-TaskInv t c cs r e inv
  Move-TaskInv t _ inv (end e) = record {
    lock = ground (arith, e, inv.lock);
    portals = λ n live. closed_portal n (inv.portals n live);
    statements = λ n live. closed_statement n (inv.statements n live);
    cleanup = tt;
    whole = inv.whole;
  }
    where
      closed_portal :
          (n : String)
          → (owes_portal n t.tables t.phase || refused (closes_portal n) t.ended) ≡ true
          → refused (closes_portal n) t.ended ≡ true
      closed_portal n h = ground (arith, e, h)

      closed_statement :
          (n : String)
          → (owes_statement n t.tables t.phase || refused (closes_statement n) t.ended) ≡ true
          → refused (closes_statement n) t.ended ≡ true
      closed_statement n h = ground (arith, e, h)

pub spawned-TaskInv : TaskInv spawned
unfolding live_portal live_statement
spawned-TaskInv = record {
  lock = refl;
  portals = λ n live. absurd (ground (arith, live));
  statements = λ n live. absurd (ground (arith, live));
  cleanup = tt;
  whole = tt;
}
