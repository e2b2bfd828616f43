-- ===== src/Server/Shutdown/System.antt =====
-- `serve` of src/server.rs: the accept loop, the stop signal and the set of tasks.
use pywire.Base.{◌≡◌, Bool, true, false, List, [], ◌∷◌, ◌++◌, ℕ, ◌+◌}
use pywire.Query.Response.{Py}
use pywire.Server.Shutdown.{Task, serving, cleaning, over, Move, spawned, clean_up, call_of}

-- `loop`; `while connections.join_next()`; and the two ends: with `Ok`, or with the error of the
-- listener, of the stop event or of `build`.
pub data ServePhase : Type 0 where
  accepting draining returned failed : ServePhase

-- `connections` are the tasks of the `JoinSet`, `joined` those that were taken out of it, `stop` is
-- the value of `stop_connections`, and `accepted` counts the connections.
pub record Server : Type 0 where
  pub phase : ServePhase
  pub stop : Bool
  pub connections : List Task
  pub joined : List Task
  pub accepted : ℕ

abbrev pub listening : Server
listening = record { phase = accepting; stop = false; connections = []; joined = []; accepted = 0 }

-- The loop still joins tasks, before and after the stop signal.
abbrev pub joins : ServePhase → Bool
joins accepting = true
joins draining = true
joins returned = false
joins failed = false

-- Dropping the `JoinSet` aborts a task wherever it is. The last reference to its `PythonPortals`
-- goes with it, and `drop` spawns the cleanup; a cleanup that is running was spawned on its own and
-- goes on.
unfoldable pub abort : (Py → Bool) → Task → Task
unfolding clean_up
abort has_close t = elim t.phase [
  | serving p ↦ clean_up has_close t (call_of p)
  | cleaning cs ↦ t
  | over ↦ t
]

unfoldable pub abort_all : (Py → Bool) → List Task → List Task
unfolding abort
abort_all has_close [] = []
abort_all has_close (t ∷ ts) = abort has_close t ∷ abort_all has_close ts

pub data Step (has_close : Py → Bool) (s : Server) : Server → Type 0 where
  accept :
      s.phase ≡ accepting
      → Step has_close s
          (record s { connections = spawned ∷ s.connections; accepted = s.accepted + 1 })
  move :
      (before after : List Task) (t u : Task)
      → s.connections ≡ before ++ (t ∷ after)
      → Move has_close s.stop t u
      → Step has_close s (record s { connections = before ++ (u ∷ after) })
  join :
      (before after : List Task) (t : Task)
      → joins s.phase ≡ true
      → s.connections ≡ before ++ (t ∷ after)
      → t.phase ≡ over
      → Step has_close s (record s { connections = before ++ after; joined = t ∷ s.joined })
  -- The stop event: the listener is dropped and `stop_connections` set.
  shutdown : s.phase ≡ accepting → Step has_close s (record s { phase = draining; stop = true })
  return :
      s.phase ≡ draining → s.connections ≡ [] → Step has_close s (record s { phase = returned })
  fail :
      s.phase ≡ accepting
      → Step has_close s
          (record s { phase = failed; connections = abort_all has_close s.connections })

pub data Reach (has_close : Py → Bool) : Server → Type 0 where
  start : Reach has_close listening
  later : {s u : Server} → Reach has_close s → Step has_close s u → Reach has_close u
