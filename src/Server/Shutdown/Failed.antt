-- ===== src/Server/Shutdown/Failed.antt =====
-- What holds where the accept loop of `serve` in src/server.rs ends in an error, and the tasks are
-- aborted.
use pywire.Base.{◌≡◌, refl, subst, ap, Bool, true, false, none, List, [], ◌∷◌, arith, All}
use pywire.Query.Response.{Py}
use pywire.Server.Shutdown.{
  Phase, serving, cleaning, over, Task, Move, ask, parse, bind, close_portal, forget_portal,
  close_statement, answered, finish, disconnected, halt, cleaned, end, clean_up, call_of,
}
use pywire.Server.Shutdown.Owed.{PortalOwed, StatementOwed}
use pywire.Server.Shutdown.Keeps.{TaskInv, Move-TaskInv, clean_up-TaskInv}
use pywire.Server.Shutdown.System.{
  failed, Server, Step, accept, move, join, shutdown, return, fail, Reach, start, later, abort,
  abort_all,
}
use pywire.Server.Shutdown.Closed.{is_failed, Intact, Reach-Intact, All-middle}

abbrev pub is_serving : Phase → Bool
is_serving (serving p) = true
is_serving (cleaning cs) = false
is_serving over = false

-- The task but for the callbacks that were cut off.
abbrev kept : Task → Task
kept t = record t { abandoned = [] }

record Aborted (t : Task) : Type 0 where
  idle : is_serving t.phase ≡ false
  owed : TaskInv (kept t)

kept-TaskInv : (t : Task) → TaskInv t → TaskInv (kept t)
kept-TaskInv t inv = record {
  lock = inv.lock;
  portals = inv.portals;
  statements = inv.statements;
  cleanup = inv.cleanup;
  whole = tt;
}

-- A task that has stopped serving, and that still has a call to make for all that is open.
pub record Owing (t : Task) : Type 0 where
  pub idle : is_serving t.phase ≡ false
  pub portals : PortalOwed t
  pub statements : StatementOwed t

owing : (ts : List Task) → All Aborted ts → All Owing ts
owing [] h = tt
owing (t ∷ ts) h = (
  record { idle = h.0.idle; portals = h.0.owed.portals; statements = h.0.owed.statements },
  owing ts h.1,
)

module _ (has_close : Py → Bool) where
  abort-Aborted : (t : Task) → TaskInv t → Aborted (abort has_close t)
  unfolding abort clean_up
  abort-Aborted t inv = by_phase t.phase refl
    where
      by_phase :
          (p : Phase)
          → t.phase ≡ p
          → Aborted
              (elim p [ serving q ↦ clean_up has_close t (call_of q) | cleaning cs ↦ t | over ↦ t ])
      by_phase (serving q) e = record {
        idle = refl;
        owed = clean_up-TaskInv has_close (kept t) q none e tt (kept-TaskInv t inv);
      }
      by_phase (cleaning cs) e = record { idle = ap is_serving e; owed = kept-TaskInv t inv }
      by_phase over e = record { idle = ap is_serving e; owed = kept-TaskInv t inv }

  abort_all-Aborted : (ts : List Task) → All TaskInv ts → All Aborted (abort_all has_close ts)
  unfolding abort_all
  abort_all-Aborted [] h = tt
  abort_all-Aborted (t ∷ ts) h = (abort-Aborted t h.0, abort_all-Aborted ts h.1)

  serves_not : {t : Task} {p : _} → t.phase ≡ serving p → Aborted t → ⊥
  serves_not {t} {p} e a = ground (arith, e, a.idle)

  Move-Aborted : {stop : Bool} (t u : Task) → Aborted t → Move has_close stop t u → Aborted u
  Move-Aborted t _ a (ask q e) = absurd (serves_not e a)
  Move-Aborted t _ a (parse i name query oids e) = absurd (serves_not e a)
  Move-Aborted t _ a (bind i name s v ps pf rf e) = absurd (serves_not e a)
  Move-Aborted t _ a (close_portal i name e free entry) = absurd (serves_not e a)
  Move-Aborted t _ a (forget_portal name e free entry) = absurd (serves_not e a)
  Move-Aborted t _ a (close_statement i name e free) = absurd (serves_not e a)
  Move-Aborted t _ a (answered p c r e call) = absurd (serves_not e a)
  Move-Aborted t _ a (finish e) = absurd (serves_not e a)
  Move-Aborted t _ a (disconnected e) = absurd (serves_not e a)
  Move-Aborted t _ a (halt p e stop free) = absurd (serves_not e a)
  Move-Aborted {stop = stop} t _ a (cleaned c cs r e) = record {
    idle = refl;
    owed = Move-TaskInv has_close {stop = stop} (kept t) _ a.owed (cleaned c cs r e);
  }
  Move-Aborted {stop = stop} t _ a (end e) = record {
    idle = refl;
    owed = Move-TaskInv has_close {stop = stop} (kept t) _ a.owed (end e);
  }

  Step-Aborted :
      (s u : Server)
      → (is_failed s.phase ≡ false → Intact s)
      → (s.phase ≡ failed → All Aborted s.connections)
      → Step has_close s u
      → u.phase ≡ failed
      → All Aborted u.connections
  Step-Aborted s _ i h (accept e) f = absurd (ground (arith, e, f))
  Step-Aborted s _ i h (move before after t u e m) f =
      let (here, _, other) =
        All-middle Aborted before after t (subst (λ ts. All Aborted ts) e (h f)) in
      other u (Move-Aborted t u here m)
  Step-Aborted s _ i h (join before after t j e o) f = absurd (ground (arith, j, f))
  Step-Aborted s _ i h (shutdown e) f = absurd (ground (arith, f))
  Step-Aborted s _ i h (return e empty) f = absurd (ground (arith, f))
  Step-Aborted s _ i h (fail e) f = abort_all-Aborted s.connections (i (ap is_failed e)).tasks

  Reach-Aborted : (s : Server) → Reach has_close s → s.phase ≡ failed → All Aborted s.connections
  Reach-Aborted _ start f = tt
  Reach-Aborted _ (later {s} {u} r step) f =
      Step-Aborted s u (Reach-Intact has_close s r) (Reach-Aborted s r) step f

  -- Where the accept loop of `serve` has failed, whatever its connections were doing then: none of
  -- them serves any more, and every portal and statement that the extension saw Python open and not
  -- close is among the calls that the cleanup of its connection still makes, or Python raised when
  -- it was asked to close it.
  pub failed-Owing : (s : Server) → Reach has_close s → s.phase ≡ failed → All Owing s.connections
  failed-Owing s r f = owing s.connections (Reach-Aborted s r f)
