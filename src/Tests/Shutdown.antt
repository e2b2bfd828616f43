-- ===== src/Tests/Shutdown.antt =====
-- Witnesses for the theorems on the end of `serve`: the stop signal comes while a client closes a
-- portal.
use pywire.Base.{◌≡◌, refl, Bool, true, false, [], ◌∷◌, length, All, ok}
use pywire.HashMap.{lookup, insert, remove}
use pywire.Query.Response.{Py}
use pywire.Extended.Cleanup.{cleanup_entries}
use pywire.Server.Shutdown.{Pc, serving, Task, Move, clean_up, cleanup_calls}
use pywire.Server.Shutdown.System.{
  draining, returned, failed, abort_all, Server, listening, Step, Reach, start, later,
}
use pywire.Server.Shutdown.Closed.{Closed, returned-Closed}
use pywire.Server.Shutdown.Failed.{Owing, failed-Owing}
use pywire.Server.Shutdown.Drain.{Run, drains}
use pywire.Server.Shutdown.Calls.{await_all, cleanup_entries-await_all}
use pywire.Tests.Store.{world}
use pywire.Tests.Extended.{bound}

abbrev has_close : Py → Bool
has_close i = false

abbrev moving :
    (s : Server) (t u : Task)
    → s.connections ≡ t ∷ []
    → Move has_close s.stop t u
    → Step has_close s (record s { connections = u ∷ [] })
moving s t u e m = Step.move [] [] t u e m

-- One connection that has parsed and bound, and that waits for Python to close the portal.
closes :
    (t : Task) × Reach has_close (record listening { connections = t ∷ []; accepted = 1 })
    × (t.phase ≡ serving (Pc.closing_portal 1 "p"))
unfolding lookup insert remove
closes = (
  _,
  later
      (later
        (later
          (later
            (later (later start (Step.accept refl))
              (moving _ _ _ refl (Move.parse 1 "s" "SELECT 1" [] refl)))
            (moving _ _ _ refl (Move.answered _ _ (ok 7) refl refl)))
          (moving _ _ _ refl (Move.bind 1 "p" "s" 7 [] [] [] refl)))
        (moving _ _ _ refl (Move.answered _ _ (ok 8) refl refl)))
      (moving _ _ _ refl (Move.close_portal 1 "p" refl refl refl)),
  refl,
)

abbrev busy : Server
busy = record listening { connections = closes.0 ∷ []; accepted = 1 }

abbrev signalled : Server
signalled = record busy { phase = draining; stop = true }

reaches_signalled : Reach has_close signalled
reaches_signalled = later closes.1 (Step.shutdown refl)

-- The callback ends, the socket is dropped, the statement is closed, and `serve` returns.
returns : (s : Server) × Reach has_close s × (s.phase ≡ returned) × (length s.joined ≡ 1)
unfolding closes lookup insert remove clean_up cleanup_calls
returns = (
  _,
  later
      (later
        (later
          (later
            (later
              (later reaches_signalled (moving _ _ _ refl (Move.answered _ _ (ok 9) closes.2 refl)))
              (moving _ _ _ refl (Move.halt _ refl refl refl)))
            (moving _ _ _ refl (Move.cleaned _ _ (ok 9) refl)))
          (moving _ _ _ refl (Move.end refl)))
        (Step.join [] [] _ refl refl refl))
      (Step.return refl refl),
  refl,
  refl,
)

returned-Closed_example :
    (length returns.0.joined ≡ returns.0.accepted) × All Closed returns.0.joined
returned-Closed_example = returned-Closed has_close returns.0 returns.1 returns.2

drains_example : (v : Server) × Run (λ c. ok 9) has_close signalled v × (v.phase ≡ returned)
drains_example = drains has_close (λ c. ok 9) signalled reaches_signalled refl

-- The calls of a cleanup, made one by one.
cleaned_up :
    cleanup_entries world bound.resources.portals bound.resources.statements bound.resources.session
      bound.calls
    ≡ await_all world (cleanup_calls world.has_close bound.resources) bound.calls
cleaned_up = cleanup_entries-await_all world bound.resources bound.calls

-- The accept loop fails while the client waits.
abbrev broken : Server
broken = record busy { phase = failed; connections = abort_all has_close busy.connections }

failed-Owing_example : All Owing broken.connections
failed-Owing_example = failed-Owing has_close broken (later closes.1 (Step.fail refl)) refl
