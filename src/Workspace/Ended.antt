-- ===== src/Workspace/Ended.antt =====
-- A page of web/src/TerminalApp.tsx whose connection is closed for good.
use remote_agent.Common.{
  ℕ, ◌≡◌, refl, sym, ap, ◌∙◌, subst, String, Bool, true, false, Option, List, [], ◌∷◌, any,
  any-append, or_false, arith, Option-cases, inl, inr, All, if◌then◌else◌, string_eq,
}
use remote_agent.Platform.{Platform}
use remote_agent.Protocol.{SessionInfo, Frame, daemon, session_list_result, session_created}
use remote_agent.Connection
use remote_agent.Connection.{
  Connection, Event, Status, connecting, ready, disconnected, on_status, on_presence, on_snapshot,
  on_output, on_agent_status, on_exited, on_error, resolved, truthy,
}
use remote_agent.Connection.Disposal.{IsStill, IsGone, step-IsGone, shut_socket-IsGone}
use remote_agent.Connection.Steps
use remote_agent.Connection.Steps.{Allowed, step}
use remote_agent.Terminal.{
  App, Await, Act, close, retry_after, refetching, refetching_to_attach, attaching, creating,
  killing, booting, restoring,
}
use remote_agent.Terminal.Handlers
use remote_agent.Terminal.Handlers.{is_fatal}
use remote_agent.Terminal.Errors.{on_error_acts}
use remote_agent.Terminal.Sessions
use remote_agent.Terminal.Sessions.{
  created, create_session, first_boot, restore, booted, resume, on_listed,
}
use remote_agent.Terminal.View.{Button, press}
use remote_agent.Terminal.Input.{
  on_data, send_mobile_line, send_raw, on_mount, on_switch, on_resize, set_mode, adjust_font,
}
use remote_agent.Workspace.{
  Workspace, World, asks, deliver, settle, receive, happen, perform, UserMove, user, moves, History,
  begun, by_browser, by_user, begins, retries, lists, leaves, appears, presses, types, types_line,
  mounts, shows_frame, switches, resizes,
}

abbrev pub is_retry : Act → Bool
is_retry (retry_after ms) = true
is_retry _ = false

create_session_kind : (cmd : Option String) (a : App) → any is_retry (create_session cmd a) ≡ false
unfolding create_session
create_session_kind cmd a = ground arith

first_boot_kind : (ss : List SessionInfo) (a : App) → any is_retry (first_boot ss a).1 ≡ false
unfolding first_boot restore create_session
first_boot_kind [] a = ground arith
first_boot_kind (s ∷ ss) a = ground arith

restore_kind :
    (sids : List String) (ss : List SessionInfo) (a : App)
    → any is_retry (restore sids ss a).1 ≡ false
unfolding restore
restore_kind [] ss a = refl
restore_kind (sid ∷ rest) ss a = refl

booted_kind : (f : Frame) (a : App) → any is_retry (booted f a).1 ≡ false
unfolding booted
booted_kind (daemon (session_list_result r ss)) a = ground (
  arith,
  first_boot_kind ss (record a { sessions = ss }),
  restore_kind (Sessions.ids ss) ss (record a { sessions = ss }),
)
booted_kind _ a = refl

created_kind : (f : Frame) → any is_retry (created f) ≡ false
unfolding created
created_kind (daemon (session_created r sid)) = refl
created_kind _ = refl

resume_kind : (k : Await) (f : Frame) (a : App) → any is_retry (resume k f a).1 ≡ false
unfolding resume
resume_kind refetching f a = refl
resume_kind (refetching_to_attach sid) f a = refl
resume_kind (attaching sid) f a = refl
resume_kind creating f a = created_kind f
resume_kind killing f a = refl
resume_kind booting f a = booted_kind f a
resume_kind (restoring sid rest ss) f a = restore_kind rest ss _

press_kind :
    (p : Platform) (measure : String → ℕ × ℕ) (stored : ℕ) (b : Button) (a : App)
    → any is_retry (press p measure stored b a).1 ≡ false
unfolding press set_mode adjust_font create_session send_raw
press_kind p measure stored b a = ground arith

module _ (o : World) where
  deliver_kind : (e : Event Await) (a : App) → IsStill e → any is_retry (deliver o e a).1 ≡ false
  unfolding deliver Handlers.on_presence Handlers.on_snapshot Handlers.on_output
      Handlers.on_agent_status Handlers.on_exited Handlers.on_error Handlers.on_status
  deliver_kind (on_status connecting) a q = absurd q
  deliver_kind (on_status disconnected) a q = absurd q
  deliver_kind (on_status ready) a q = ground arith
  deliver_kind (on_presence id online) a q = refl
  deliver_kind (on_snapshot sid bytes seq) a q = ground arith
  deliver_kind (on_output sid bytes seq) a q = ground arith
  deliver_kind (on_agent_status sid agent status detail) a q = ground arith
  deliver_kind (on_exited sid code) a q = ground arith
  deliver_kind (on_error code msg) a q = ground arith
  deliver_kind (resolved k f) a q = resume_kind k f a
  deliver_kind _ a q = refl

  user_kind : (m : UserMove) (a : App) → any is_retry (user o m a).1 ≡ false
  unfolding user on_data send_mobile_line send_raw on_mount on_switch on_resize Handlers.on_leave
  user_kind begins a = refl
  user_kind retries a = refl
  user_kind lists a = refl
  user_kind leaves a = refl
  user_kind (appears v) a = ground arith
  user_kind (presses b) a = press_kind o.platform o.measure o.stored_font b a
  user_kind (types sid keys now) a = ground arith
  user_kind (types_line line) a = ground arith
  user_kind (mounts size sid) a = ground arith
  user_kind (shows_frame sid) a = refl
  user_kind (switches sid) a = ground arith
  user_kind resizes a = ground arith

  -- The connection is disposed of and has given out `n` sockets.
  abbrev Over : ℕ → Workspace → Type 0
  Over n w = IsGone n w.conn

  over_step :
      (n : ℕ) (i : Steps.Input Await) (c : Connection Await)
      → IsGone n c
      → IsGone n (step o.platform o.setting i c).0 × All IsStill (step o.platform o.setting i c).1
  over_step n i c (gone, same) =
      let ((gone', same'), still) = step-IsGone o.platform o.setting i c gone in
      ((gone', same' ∙ same), still)

  settle-Over : (n : ℕ) (acts : List Act) (w : Workspace) → Over n w → Over n (settle o acts w)
  unfolding settle
  settle-Over n [] w h = h
  settle-Over n (act ∷ acts) w h = elim (Option-cases (asks act (o.nonce w.drawn))) [
    | inl e ↦ rw (e, settle) (settle-Over n acts w h)
    | inr (i, e) ↦ rw (e, settle) (settle-Over n acts _ (over_step n i w.conn h).0)
  ]

  receive-Over :
      (n : ℕ) (es : List (Event Await)) (w : Workspace)
      → Over n w
      → All IsStill es
      → Over n (receive o es w).0 × (any is_retry (receive o es w).1 ≡ false)
  unfolding receive
  receive-Over n [] w h q = (h, refl)
  receive-Over n (e ∷ es) w h q =
      let (a, acts) = deliver o e w.app in
      let w' = settle o acts (record w { app = a }) in
      let (after, silent) =
        receive-Over n es w' (settle-Over n acts (record w { app = a }) h) q.1 in
      (
        after,
        any-append is_retry acts (receive o es w').1
            ∙ ground (arith, deliver_kind e w.app q.0, silent),
      )

  happen-Over :
      (n : ℕ) (i : Steps.Input Await) (w : Workspace)
      → Over n w
      → Over n (happen o i w).0 × (any is_retry (happen o i w).1 ≡ false)
  unfolding happen
  happen-Over n i w h = let (gone, still) = over_step n i w.conn h in receive-Over n _ _ gone still

  perform-Over :
      (n : ℕ) (acts : List Act) (w : Workspace)
      → any is_retry acts ≡ false
      → Over n w
      → Over n (perform o acts w).0 × (any is_retry (perform o acts w).1 ≡ false)
  unfolding perform
  perform-Over n [] w q h = (h, refl)
  perform-Over n (act ∷ acts) w q h =
      let (first, rest) = or_false {a = is_retry act} q in
      elim (Option-cases (asks act (o.nonce w.drawn))) [
        | inl e ↦
            let (after, silent) = perform-Over n acts w rest h in
            rw (e, perform) (after, ground (arith, first, silent))
        | inr (i, e) ↦
            let (gone, told) = happen-Over n i w h in
            let (after, silent) = perform-Over n acts (happen o i w).0 rest gone in
            let joined = any-append is_retry (happen o i w).1 (perform o acts (happen o i w).0).1 in
            rw (e, perform) (after, ground (arith, first, joined, told, silent))
      ]

  moves-Over :
      (n : ℕ) (m : UserMove) (w : Workspace)
      → Over n w
      → Over n (moves o m w).0 × (any is_retry (moves o m w).1 ≡ false)
  unfolding moves
  moves-Over n m w h = perform-Over n (user o m w.app).1 _ (user_kind m w.app) h

  History-Over :
      (n : ℕ) {w v : Workspace} {log : List Act}
      → Over n w
      → History o w v log
      → Over n v × (any is_retry log ≡ false)
  History-Over n h begun = (h, refl)
  History-Over n h (by_browser {v} {log} i before a) =
      let (over, silent) = History-Over n h before in
      let (after, told) = happen-Over n i v over in
      (after, any-append is_retry log (happen o i v).1 ∙ ground (arith, silent, told))
  History-Over n h (by_user {v} {log} m before) =
      let (over, silent) = History-Over n h before in
      let (after, told) = moves-Over n m v over in
      (after, any-append is_retry log (moves o m v).1 ∙ ground (arith, silent, told))

  -- The page right after an error has arrived.
  abbrev pub after_error : (code msg : String) → Workspace → Workspace
  after_error code msg w = (receive o (on_error code msg ∷ []) w).0

  error_closes :
      (code msg : String) (w : Workspace)
      → is_fatal code ≡ true
      → Over w.conn.sockets (after_error code msg w)
  unfolding receive deliver settle asks step Connection.close
  error_closes code msg w fatal =
      let (a, acts) = Handlers.on_error code msg w.app in
      let w' : Workspace = record w { app = a } in
      let closes : acts ≡ close ∷ [] =
        on_error_acts code msg w.app ∙ ap (λ b. if b then close ∷ [] else []) fatal in
      subst (λ acts'. Over w.conn.sockets (settle o acts' w')) (sym closes)
        (shut_socket-IsGone w.conn.sockets w.conn.ws _ (refl, refl))

  -- When an error arrives after which the handler closes the connection, as when the device is busy or the
  -- handshake has failed, the page is done: whatever the user, the page, the timers and the browser do from
  -- then on, no socket is opened and no retry is set.
  pub History-on_error :
      {v : Workspace} {log : List Act} (code msg : String) (w : Workspace)
      → is_fatal code ≡ true
      → History o (after_error code msg w) v log
      → (v.conn.disposed ≡ true) × (v.conn.sockets ≡ w.conn.sockets) × (any is_retry log ≡ false)
  History-on_error code msg w fatal h =
      let ((gone, same), silent) = History-Over w.conn.sockets (error_closes code msg w fatal) h in
      (gone, same, silent)
