-- ===== src/Workspace.antt =====
-- The effect of web/src/TerminalApp.tsx that joins the component to its connection: every event of the
-- connection goes to its handler, every act of a handler to the connection or the page, and what the
-- user, the timers and the page do goes through the component's handlers. A handler that runs inside
-- `dispatch` changes nothing that the rest of `dispatch` reads, so its acts are carried out behind it.
pub mod Simulation
pub mod Quiet
pub mod Losses
pub mod Restored
pub mod Recovery
pub mod Rejoin
pub mod Ended
pub mod Frame
mod Examples
mod RelayExamples
use remote_agent.Common.{ℕ, suc, String, Bool, Option, none, some, List, [], ◌∷◌, ◌++◌}
use remote_agent.Platform.{Platform}
use remote_agent.Connection.{
  Connection, Event, on_status, on_presence, on_snapshot, on_output, on_agent_status, on_exited,
  on_error, resolved, new_connection,
}
use remote_agent.Connection.Dispatch.{Setting}
use remote_agent.Connection.Steps
use remote_agent.Connection.Steps.{Allowed, step}
use remote_agent.Terminal.{App, Await, Act, send, request, connect, reconnect, close, start}
use remote_agent.Terminal.Handlers
use remote_agent.Terminal.Handlers.{on_visible, on_leave}
use remote_agent.Terminal.Input.{
  on_data, send_mobile_line, on_resize, on_switch, on_fit_frame, on_mount,
}
use remote_agent.Terminal.Sessions.{resume, on_listed}
use remote_agent.Terminal.View.{Button, press}

-- `drawn` counts the nonces that were drawn.
pub record Workspace : Type 0 where
  pub app : App
  pub conn : Connection Await
  pub drawn : ℕ

unfoldable pub opened_page : (new_cmd : Option String) (takeover : Bool) → Workspace
opened_page new_cmd takeover = record {
  app = start new_cmd takeover;
  conn = new_connection;
  drawn = 0;
}

-- What reaches the handlers from the user, from the page and from timers. `begins` is the call of
-- `connect` behind the constructor, `retries` the timer of a loss, `lists` the effect on a changed list.
pub data UserMove : Type 0 where
  begins retries lists leaves : UserMove
  appears : Bool → UserMove
  presses : Button → UserMove
  types : String → String → ℕ → UserMove
  types_line : String → UserMove
  mounts : ℕ × ℕ → String → UserMove
  shows_frame switches : String → UserMove
  resizes : UserMove

-- What a workspace runs on: the platform, the connection's setting, the nonces, String.prototype.slice,
-- the measures of xterm, and the stored font size.
pub record World : Type 0 where
  pub platform : Platform
  pub setting : Setting
  pub nonce : ℕ → List ℕ
  pub slice : String → ℕ → ℕ → String
  pub measure : String → ℕ × ℕ
  pub stored_font : ℕ

-- The input of the connection that an act is.
unfoldable pub asks : Act → (nonce : List ℕ) → Option (Steps.Input Await)
asks (send msg) nonce = some (Steps.sends msg nonce)
asks (request r k) nonce = some (Steps.requests k r nonce)
asks connect nonce = some Steps.connects
asks reconnect nonce = some Steps.reconnects
asks close nonce = some Steps.closes
asks _ nonce = none

module _ (o : World) where
  -- The handler of each event; `resolved` is where an awaiting function goes on.
  unfoldable pub deliver : Event Await → App → App × List Act
  deliver (on_status s) a = Handlers.on_status s a
  deliver (on_presence id online) a = Handlers.on_presence online a
  deliver (on_snapshot sid bytes seq) a = Handlers.on_snapshot sid bytes seq a
  deliver (on_output sid bytes seq) a = Handlers.on_output sid bytes seq a
  deliver (on_agent_status sid agent status detail) a =
      Handlers.on_agent_status o.slice sid agent status detail a
  deliver (on_exited sid code) a = Handlers.on_exited o.slice sid a
  deliver (on_error code msg) a = Handlers.on_error code msg a
  deliver (resolved k f) a = resume k f a
  deliver _ a = (a, [])

  -- The acts of a handler: none of them is told to a handler again.
  unfoldable pub settle : List Act → Workspace → Workspace
  settle [] w = w
  settle (act ∷ acts) w = elim (asks act (o.nonce w.drawn)) [
    | none ↦ settle acts w
    | some i ↦
        settle acts
          (record w { conn = (step o.platform o.setting i w.conn).0; drawn = suc w.drawn })
  ]

  -- The events of one step of the connection, each with the acts of its handler.
  unfoldable pub receive : List (Event Await) → Workspace → Workspace × List Act
  receive [] w = (w, [])
  receive (e ∷ es) w =
      let (a, acts) = deliver e w.app in
      let (w', log) = receive es (settle acts (record w { app = a })) in (w', acts ++ log)

  unfoldable pub happen : Steps.Input Await → Workspace → Workspace × List Act
  happen i w =
      let (c, events) = step o.platform o.setting i w.conn in
      receive events (record w { conn = c; drawn = suc w.drawn })

  -- The acts of the user's handlers, with all that follows from each.
  unfoldable pub perform : List Act → Workspace → Workspace × List Act
  perform [] w = (w, [])
  perform (act ∷ acts) w = elim (asks act (o.nonce w.drawn)) [
    | none ↦ let (w', log) = perform acts w in (w', act ∷ log)
    | some i ↦
        let (w', log) = happen i w in let (w'', rest) = perform acts w' in (w'', act ∷ log ++ rest)
  ]

  unfoldable pub user : UserMove → App → App × List Act
  user begins a = (a, connect ∷ [])
  user retries a = (a, connect ∷ [])
  user lists a = (on_listed a, [])
  user leaves a = on_leave a
  user (appears visible) a = (a, on_visible visible)
  user (presses b) a = press o.platform o.measure o.stored_font b a
  user (types sid keys now) a = on_data o.platform sid keys now a
  user (types_line line) a = (a, (send_mobile_line o.platform line a).1)
  user (mounts size sid) a = on_mount size sid a
  user (shows_frame sid) a = (on_fit_frame o.measure sid a, [])
  user (switches sid) a = on_switch o.measure sid a
  user resizes a = on_resize o.measure a

  unfoldable pub moves : UserMove → Workspace → Workspace × List Act
  moves m w = let (a, acts) = user m w.app in perform acts (record w { app = a })

  -- Everything that happens, in any order, and the acts that were carried out. The browser reports on
  -- sockets as `Allowed` says; it alone opens, closes and delivers.
  pub data History (w : Workspace) : Workspace → List Act → Type 0 where
    begun : History w w []
    by_browser :
        {v : Workspace} {log : List Act} (i : Steps.Input Await)
        → History w v log
        → Allowed v.conn i
        → History w (happen i v).0 (log ++ (happen i v).1)
    by_user :
        {v : Workspace} {log : List Act} (m : UserMove)
        → History w v log
        → History w (moves m v).0 (log ++ (moves m v).1)
