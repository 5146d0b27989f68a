-- ===== src/Workspace/Simulation.antt =====
-- The connection of a workspace (web/src/TerminalApp.tsx), seen by itself.
use remote_agent.Common.{ℕ, ◌≡◌, Option, none, some, inl, inr, List, [], ◌∷◌, Option-cases, subst}
use remote_agent.Connection.{Connection, Event}
use remote_agent.Connection.Steps.{Allowed, step, Runs, Reach}
use remote_agent.Connection.Steps
use remote_agent.Terminal.{Await, Act, send, request, connect, reconnect, close}
use remote_agent.Workspace.{
  Workspace, World, asks, deliver, settle, receive, happen, perform, user, moves, History, begun,
  by_browser, by_user,
}

module _ (o : World) (c : Connection Await) where
  -- The connection's history up to here, whatever its events were.
  abbrev pub IsReached : Connection Await → Type 0
  IsReached d = (events : List (Event Await)) × Runs o.platform o.setting c d events

  IsReached-step :
      (i : Steps.Input Await) (d : Connection Await)
      → IsReached d
      → Allowed d i
      → IsReached (step o.platform o.setting i d).0
  IsReached-step i d (events, r) a = (_, Steps.next i r a)

  abbrev MayAsk : Connection Await → Option (Steps.Input Await) → Type 0
  MayAsk d none = Unit
  MayAsk d (some i) = Allowed d i

  asks-MayAsk : (act : Act) (nonce : List ℕ) (d : Connection Await) → MayAsk d (asks act nonce)
  unfolding asks
  asks-MayAsk (send msg) nonce d = tt
  asks-MayAsk (request r k) nonce d = tt
  asks-MayAsk connect nonce d = tt
  asks-MayAsk reconnect nonce d = tt
  asks-MayAsk close nonce d = tt
  asks-MayAsk _ nonce d = tt

  -- The caller's own calls are always allowed.
  pub asks-Allowed :
      (act : Act) (nonce : List ℕ) (i : Steps.Input Await) (d : Connection Await)
      → asks act nonce ≡ some i
      → Allowed d i
  asks-Allowed act nonce i d e = subst (MayAsk d) e (asks-MayAsk act nonce d)

  settle-IsReached :
      (acts : List Act) (w : Workspace) → IsReached w.conn → IsReached (settle o acts w).conn
  unfolding settle
  settle-IsReached [] w r = r
  settle-IsReached (act ∷ acts) w r = elim (Option-cases (asks act (o.nonce w.drawn))) [
    | inl e ↦ rw (e, settle) (settle-IsReached acts w r)
    | inr (i, e) ↦
        rw (e, settle)
          (settle-IsReached acts _ (IsReached-step i w.conn r (asks-Allowed act _ i w.conn e)))
  ]

  receive-IsReached :
      (es : List (Event Await)) (w : Workspace)
      → IsReached w.conn
      → IsReached (receive o es w).0.conn
  unfolding receive
  receive-IsReached [] w r = r
  receive-IsReached (e ∷ es) w r =
      receive-IsReached es _
        (settle-IsReached (deliver o e w.app).1 (record w { app = (deliver o e w.app).0 }) r)

  happen-IsReached :
      (i : Steps.Input Await) (w : Workspace)
      → Allowed w.conn i
      → IsReached w.conn
      → IsReached (happen o i w).0.conn
  unfolding happen
  happen-IsReached i w a r = receive-IsReached _ _ (IsReached-step i w.conn r a)

  perform-IsReached :
      (acts : List Act) (w : Workspace) → IsReached w.conn → IsReached (perform o acts w).0.conn
  unfolding perform
  perform-IsReached [] w r = r
  perform-IsReached (act ∷ acts) w r = elim (Option-cases (asks act (o.nonce w.drawn))) [
    | inl e ↦ rw (e, perform) (perform-IsReached acts w r)
    | inr (i, e) ↦
        rw (e, perform)
          (perform-IsReached acts _ (happen-IsReached i w (asks-Allowed act _ i w.conn e) r))
  ]

-- Whatever the user, the page, the timers and the browser do, what becomes of the workspace's connection
-- is what becomes of it in some history of a connection alone.
pub History-IsReached :
    (o : World) {w v : Workspace} {log : List Act} → History o w v log → IsReached o w.conn v.conn
unfolding moves
History-IsReached o begun = (_, Steps.start)
History-IsReached o {w} (by_browser {v} i h a) =
    happen-IsReached o w.conn i v a (History-IsReached o h)
History-IsReached o {w} (by_user {v} m h) =
    perform-IsReached o w.conn (user o m v.app).1 (record v { app = (user o m v.app).0 })
      (History-IsReached o h)
