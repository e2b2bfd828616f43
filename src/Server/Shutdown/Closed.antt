-- ===== src/Server/Shutdown/Closed.antt =====
-- What holds when `serve` of src/server.rs returns behind its stop event.
use pywire.Base.{
  ◌≡◌, refl, sym, subst, ap, ◌∙◌, Bool, true, false, List, [], ◌∷◌, ◌++◌, ◌+◌, arith, String, All,
  length,
}
use pywire.Query.Response.{Py}
use pywire.Extended.Invariant.{live_portal, live_statement}
use pywire.Server.Shutdown.{Task, over, Move}
use pywire.Server.Shutdown.Owed.{closes_portal, closes_statement, refused}
use pywire.Server.Shutdown.Keeps.{is_close, TaskInv, Move-TaskInv, spawned-TaskInv}
use pywire.Server.Shutdown.System.{
  ServePhase, accepting, draining, returned, failed, Server, listening, joins, Step, accept, move,
  join, shutdown, return, fail, Reach, start, later,
}

-- A task at its end: every portal and statement whose opening the extension saw was closed, or Python
-- refused to close it; and no callback that closes was cut off.
pub record Closed (t : Task) : Type 0 where
  pub ended : t.phase ≡ over
  pub portals :
      (n : String) → live_portal n t.ended ≡ true → refused (closes_portal n) t.ended ≡ true
  pub statements :
      (n : String) → live_statement n t.ended ≡ true → refused (closes_statement n) t.ended ≡ true
  pub whole : All (λ c. is_close c ≡ false) t.abandoned

over-Closed : (t : Task) → t.phase ≡ over → TaskInv t → Closed t
over-Closed t e inv = record {
  ended = e;
  portals = λ n live. ground (arith, e, inv.portals n live);
  statements = λ n live. ground (arith, e, inv.statements n live);
  whole = inv.whole;
}

abbrev pub is_failed : ServePhase → Bool
is_failed failed = true
is_failed _ = false

-- The signal has been given.
abbrev pub stops : ServePhase → Bool
stops accepting = false
stops draining = true
stops returned = true
stops failed = false

pub record Intact (s : Server) : Type 0 where
  pub tasks : All TaskInv s.connections
  pub closed : All Closed s.joined
  pub counted : length s.connections + length s.joined ≡ s.accepted
  pub stopped : s.stop ≡ stops s.phase
  pub emptied : s.phase ≡ returned → s.connections ≡ []

module _ {ℓ} {A : Type ℓ} where
  pub All-middle {κ} :
      (P : A → Type κ) (before after : List A) (x : A)
      → All P (before ++ (x ∷ after))
      → P x × All P (before ++ after) × ((y : A) → P y → All P (before ++ (y ∷ after)))
  All-middle P [] after x h = (h.0, h.1, λ y p. (p, h.1))
  All-middle P (b ∷ before) after x h =
      let (here, without, other) = All-middle P before after x h.1 in
      (here, (h.0, without), λ y p. (h.0, other y p))

  length-middle :
      (before after : List A) (x y : A)
      → (length (before ++ (x ∷ after)) ≡ length (before ++ (y ∷ after)))
        × (length (before ++ (x ∷ after)) ≡ length (before ++ after) + 1)
  length-middle [] after x y = (refl, omega arith)
  length-middle (b ∷ before) after x y = omega (arith, length-middle before after x y)

  middle-ne-nil : (before after : List A) (x : A) → before ++ (x ∷ after) ≡ [] → ⊥
  middle-ne-nil [] after x h = cc
  middle-ne-nil (b ∷ before) after x h = cc

module _ (has_close : Py → Bool) where
  listening-Intact : Intact listening
  listening-Intact = record {
    tasks = tt;
    closed = tt;
    counted = refl;
    stopped = refl;
    emptied = λ h. refl;
  }

  moved-Intact :
      (s : Server) (before after : List Task) (t u : Task)
      → s.connections ≡ before ++ (t ∷ after)
      → Move has_close s.stop t u
      → Intact s
      → Intact (record s { connections = before ++ (u ∷ after) })
  moved-Intact s before after t u e m inv =
      let (here, _, other) =
        All-middle TaskInv before after t (subst (λ ts. All TaskInv ts) e inv.tasks) in
      record {
        tasks = other u (Move-TaskInv has_close t u here m);
        closed = inv.closed;
        counted = omega (arith, inv.counted, ap length e, (length-middle before after t u).0);
        stopped = inv.stopped;
        emptied = λ r. absurd (middle-ne-nil before after t (sym e ∙ inv.emptied r));
      }

  joined-Intact :
      (s : Server) (before after : List Task) (t : Task)
      → joins s.phase ≡ true
      → s.connections ≡ before ++ (t ∷ after)
      → t.phase ≡ over
      → Intact s
      → Intact (record s { connections = before ++ after; joined = t ∷ s.joined })
  joined-Intact s before after t j e o inv =
      let (here, without, _) =
        All-middle TaskInv before after t (subst (λ ts. All TaskInv ts) e inv.tasks) in
      record {
        tasks = without;
        closed = (over-Closed t o here, inv.closed);
        counted = omega (arith, inv.counted, ap length e, (length-middle before after t t).1);
        stopped = inv.stopped;
        emptied = λ r. absurd (ground (arith, j, r));
      }

  Step-Intact :
      (s u : Server)
      → (is_failed s.phase ≡ false → Intact s)
      → Step has_close s u
      → is_failed u.phase ≡ false
      → Intact u
  Step-Intact s _ h (accept e) f =
      let inv = h (ground (arith, e)) in
      record {
        tasks = (spawned-TaskInv, inv.tasks);
        closed = inv.closed;
        counted = omega (arith, inv.counted);
        stopped = inv.stopped;
        emptied = λ r. absurd (ground (arith, e, r));
      }
  Step-Intact s _ h (move before after t u e m) f = moved-Intact s before after t u e m (h f)
  Step-Intact s _ h (join before after t j e o) f = joined-Intact s before after t j e o (h f)
  Step-Intact s _ h (shutdown e) f =
      let inv = h (ground (arith, e)) in
      record {
        tasks = inv.tasks;
        closed = inv.closed;
        counted = inv.counted;
        stopped = refl;
        emptied = λ r. absurd (ground (arith, r));
      }
  Step-Intact s _ h (return e empty) f =
      let inv = h (ground (arith, e)) in
      record {
        tasks = inv.tasks;
        closed = inv.closed;
        counted = inv.counted;
        stopped = inv.stopped ∙ ap stops e;
        emptied = λ r. empty;
      }
  Step-Intact s _ h (fail e) f = absurd (ground (arith, f))

  pub Reach-Intact : (s : Server) → Reach has_close s → is_failed s.phase ≡ false → Intact s
  Reach-Intact _ start f = listening-Intact
  Reach-Intact _ (later {s} {u} r step) f = Step-Intact s u (Reach-Intact s r) step f

  -- When `serve` returns behind the stop event, however its connections were interleaved, whatever
  -- Python answered and wherever each connection was when the signal came: the task of every accepted
  -- connection was waited for, no `close_portal` or `close_statement` callback was cut off, and every
  -- portal and statement that the extension saw Python open was closed, or Python raised when it was
  -- asked to close it.
  pub returned-Closed :
      (s : Server)
      → Reach has_close s
      → s.phase ≡ returned
      → (length s.joined ≡ s.accepted) × All Closed s.joined
  returned-Closed s r e =
      let inv = Reach-Intact s r (ap is_failed e) in
      (omega (arith, inv.counted, ap length (inv.emptied e)), inv.closed)
