-- ===== src/Server/Shutdown/Calls.antt =====
-- The two views of `cleanup_entries` of src/extended.rs: all at once in Extended.Cleanup, and call by
-- call in the task of a connection.
use pywire.Base.{
  ◌≡◌, refl, sym, ap, ◌∙◌, Option, none, some, List, [], ◌∷◌, ◌++◌, inl, inr, Bool-cases,
}
use pywire.HashMap.{HashMap}
use pywire.Query.Response.{Py}
use pywire.Extended.State.{BoundPortal, PortalEntry, PythonPortals, Call, Event, World}
use pywire.Extended.Cleanup.{
  ignore, cleanup_portal, cleanup_portals, cleanup_statements, cleanup_session, cleanup_entries,
}
use pywire.Server.Shutdown.{portal_calls, statement_calls, session_calls, cleanup_calls}

module _ (w : World) where
  -- One callback after the other, each awaited.
  unfoldable pub await_all : List Call → List Event → List Event
  unfolding ignore
  await_all [] calls = calls
  await_all (c ∷ cs) calls = await_all cs (ignore w c calls)

  await_all-append :
      (cs ds : List Call) (calls : List Event)
      → await_all (cs ++ ds) calls ≡ await_all ds (await_all cs calls)
  unfolding await_all
  await_all-append [] ds calls = refl
  await_all-append (c ∷ cs) ds calls = await_all-append cs ds (ignore w c calls)

  portals-await_all :
      (m : HashMap PortalEntry) (calls : List Event)
      → cleanup_portals w m calls ≡ await_all (portal_calls m) calls
  unfolding cleanup_portals cleanup_portal portal_calls await_all
  portals-await_all [] calls = refl
  portals-await_all ((n, e) ∷ m) calls =
      portals-await_all m (cleanup_portal w n e.bound calls) ∙ entry e.bound
    where
      entry :
          (o : Option BoundPortal)
          → await_all (portal_calls m) (cleanup_portal w n o calls)
            ≡ await_all
                (elim o [
                  | none ↦ portal_calls m
                  | some b ↦ Call.close_portal b.instance_ref n ∷ portal_calls m
                ])
                calls
      entry none = refl
      entry (some b) = refl

  statements-await_all :
      (m : HashMap Py) (calls : List Event)
      → cleanup_statements w m calls ≡ await_all (statement_calls m) calls
  unfolding cleanup_statements statement_calls await_all
  statements-await_all [] calls = refl
  statements-await_all ((n, i) ∷ m) calls =
      statements-await_all m (ignore w (Call.close_statement i n) calls)

  session-await_all :
      (o : Option Py) (calls : List Event)
      → cleanup_session w o calls ≡ await_all (session_calls w.has_close o) calls
  unfolding cleanup_session session_calls await_all
  session-await_all none calls = refl
  session-await_all (some i) calls = elim (Bool-cases (w.has_close i)) [
    | inl e ↦ rw e refl
    | inr e ↦ rw e refl
  ]

  -- `cleanup_entries` is the calls that the task of a connection makes in its cleanup, one awaited
  -- after the other: a bound portal's `close_portal`, every statement's `close_statement`, and the
  -- session's `close` where it has one.
  pub cleanup_entries-await_all :
      (t : PythonPortals) (calls : List Event)
      → cleanup_entries w t.portals t.statements t.session calls
        ≡ await_all (cleanup_calls w.has_close t) calls
  unfolding cleanup_entries cleanup_calls
  cleanup_entries-await_all t calls =
      ap (λ x. cleanup_session w t.session (cleanup_statements w t.statements x))
        (portals-await_all t.portals calls)
      ∙ ap (cleanup_session w t.session)
          (statements-await_all t.statements (await_all (portal_calls t.portals) calls))
      ∙ session-await_all t.session
          (await_all (statement_calls t.statements) (await_all (portal_calls t.portals) calls))
      ∙ sym (
          await_all-append (portal_calls t.portals)
            (statement_calls t.statements ++ session_calls w.has_close t.session) calls
          ∙ await_all-append (statement_calls t.statements) (session_calls w.has_close t.session)
              (await_all (portal_calls t.portals) calls))
