-- ===== src/Server/Shutdown/Drain.antt =====
-- Behind its stop event `serve` of src/server.rs can always get to its end.
use pywire.Base.{
  ◌≡◌, refl, ap, ◌∙◌, Bool, true, false, some, List, [], ◌∷◌, arith, All, Result, Bool-cases, inl,
  inr, if◌then◌else◌,
}
use pywire.Error.Classes.{PyErr}
use pywire.Query.Response.{Py}
use pywire.Extended.State.{Call}
use pywire.Server.Shutdown.{
  Pc, outside, call_of, settle, Phase, serving, cleaning, over, Task, clean_up, cleanup_calls, Move,
  releases,
}
use pywire.Server.Shutdown.Keeps.{TaskInv, locks}
use pywire.Server.Shutdown.System.{draining, returned, Server, joins, Step, Reach}
use pywire.Server.Shutdown.Closed.{is_failed, stops, Reach-Intact}

module _ (answer : Call → Result PyErr Py) where
  -- A step that winds a task up: nothing new is asked of Python, and Python answers as `answer` says.
  abbrev pub WindsUp :
      {has_close : Py → Bool} {stop : Bool} {t u : Task} → Move has_close stop t u → Type 0
  WindsUp (Move.answered p c r _ _) = r ≡ answer c
  WindsUp (Move.cleaned c _ r _) = r ≡ answer c
  WindsUp (Move.halt _ _ _ _) = Unit
  WindsUp (Move.end _) = Unit
  WindsUp _ = ⊥

  abbrev pub Drains : {has_close : Py → Bool} {s u : Server} → Step has_close s u → Type 0
  Drains (Step.move _ _ _ _ _ m) = WindsUp m
  Drains (Step.join _ _ _ _ _ _) = Unit
  Drains (Step.return _ _) = Unit
  Drains _ = ⊥

  -- Such steps of one task, and of the server.
  data Moves (has_close : Py → Bool) (stop : Bool) : Task → Task → Type 0 where
    stay : {t : Task} → Moves has_close stop t t
    on :
        {t u v : Task} (m : Move has_close stop t u)
        → WindsUp m
        → Moves has_close stop u v
        → Moves has_close stop t v

  pub data Run (has_close : Py → Bool) : Server → Server → Type 0 where
    rest : {s : Server} → Run has_close s s
    step :
        {s u v : Server} (m : Step has_close s u) → Drains m → Run has_close u v → Run has_close s v

module _ (has_close : Py → Bool) (answer : Call → Result PyErr Py) (stop : Bool)
    (stopped : stop ≡ true) where
  -- The task can get to its end.
  abbrev Ends : Task → Type 0
  Ends t = (u : Task) × Moves answer has_close stop t u × (u.phase ≡ over)

  clean-Ends : (cs : List Call) (t : Task) → t.phase ≡ cleaning cs → Ends t
  clean-Ends [] t e = (_, on (Move.end e) tt stay, refl)
  clean-Ends (c ∷ cs) t e =
      let (u, moves, o) =
        clean-Ends cs
          (record t {
            phase = cleaning cs;
            ended = record { call = c; outcome = answer c } ∷ t.ended;
          })
          refl in
      (u, on (Move.cleaned c cs (answer c) e) refl moves, o)

  halt-Ends : (p : Pc) (t : Task) → t.phase ≡ serving p → t.closing ≡ false → Ends t
  halt-Ends p t e free =
      let (u, moves, o) =
        clean-Ends (cleanup_calls has_close t.tables) (clean_up has_close t (call_of p))
          (unfold clean_up in refl) in
      (u, on (Move.halt p e stopped free) tt moves, o)

  locked_call : (p : Pc) → releases p ≡ true → (c : Call) × (call_of p ≡ some c)
  locked_call (Pc.closing_portal i name) h = (Call.close_portal i name, refl)
  locked_call (Pc.closing_statement i name) h = (Call.close_statement i name, refl)
  locked_call Pc.outside h = absurd (ground (arith, h))
  locked_call Pc.finished h = absurd (ground (arith, h))
  locked_call (Pc.asking q) h = absurd (ground (arith, h))
  locked_call (Pc.parsing i name query oids) h = absurd (ground (arith, h))
  locked_call (Pc.binding i name s v ps pf rf) h = absurd (ground (arith, h))

  serving-Ends : (p : Pc) (t : Task) → t.phase ≡ serving p → TaskInv t → Ends t
  serving-Ends p t e inv = elim (Bool-cases (releases p)) [
    | inr free ↦ halt-Ends p t e (inv.lock ∙ ap locks e ∙ free)
    | inl held ↦
        let (c, called) = locked_call p held in
        let settled : Task = record t {
          tables = settle p (answer c) t.tables;
          closing = if releases p then false else t.closing;
          phase = serving outside;
          ended = record { call = c; outcome = answer c } ∷ t.ended;
        } in
        let (u, moves, o) =
          halt-Ends outside settled refl (ap (λ b. if b then false else t.closing) held) in
        (u, on (Move.answered p c (answer c) e called) refl moves, o)
  ]

  task-Ends : (t : Task) → TaskInv t → Ends t
  task-Ends t inv = by_phase t.phase refl
    where
      by_phase : (q : Phase) → t.phase ≡ q → Ends t
      by_phase (serving p) e = serving-Ends p t e inv
      by_phase (cleaning cs) e = clean-Ends cs t e
      by_phase over e = (t, stay, e)

module _ (has_close : Py → Bool) (answer : Call → Result PyErr Py) where
  -- The steps of the first task, as steps of the server.
  lift_moves :
      (s : Server) (t u : Task) (ts : List Task) {v : Server}
      → Moves answer has_close s.stop t u
      → Run answer has_close (record s { connections = u ∷ ts }) v
      → Run answer has_close (record s { connections = t ∷ ts }) v
  lift_moves s _ _ ts stay r = r
  lift_moves s _ _ ts (on {t = t} {u = w} {v = u} m winds ms) r =
      step (Step.move [] ts t w refl m) winds (lift_moves s w u ts ms r)

  drain :
      (ts : List Task) (s : Server)
      → s.phase ≡ draining
      → s.stop ≡ true
      → All TaskInv ts
      → (v : Server) × Run answer has_close (record s { connections = ts }) v × (v.phase ≡ returned)
  drain [] s e stop invs = (_, step (Step.return e refl) tt rest, refl)
  drain (t ∷ ts) s e stop (inv, invs) =
      let (u, moves, o) = task-Ends has_close answer s.stop stop t inv in
      let (v, run, done) = drain ts (record s { joined = u ∷ s.joined }) e stop invs in
      (v, lift_moves s t u ts moves (step (Step.join [] ts u (ap joins e) refl o) tt run), done)

  -- The server does not hang behind its stop event: in every state that it can get to, with a
  -- callback open or not in each connection, and whatever Python answers to the callbacks that are
  -- open or that cleanup makes, there are steps that ask Python for nothing else, end every task
  -- and let `serve` return.
  pub drains :
      (s : Server)
      → Reach has_close s
      → s.phase ≡ draining
      → (v : Server) × Run answer has_close s v × (v.phase ≡ returned)
  drains s r e =
      let inv = Reach-Intact has_close s r (ap is_failed e) in
      drain s.connections s e (inv.stopped ∙ ap stops e) inv.tasks
