-- ===== src/Workspace/Quiet.antt =====
-- What the handlers of web/src/TerminalApp.tsx leave alone: the status, but for `onStatus`, and the sockets.
use remote_agent.Common.{
  ℕ, ◌≡◌, ◌≢◌, refl, ◌∙◌, String, Bool, true, false, Option, none, some, List, [], ◌∷◌, any, ◌==◌,
  string_eq, arith, Option-cases, inl, inr, not, if_both,
}
use remote_agent.Protocol.{
  SessionInfo, Frame, daemon, session_list_result, session_created, session_attached,
}
use remote_agent.Connection.{
  Event, Status, on_status, on_presence, on_snapshot, on_output, on_agent_status, on_exited,
  on_error, resolved, truthy,
}
use remote_agent.Terminal.{
  App, Await, Act, connect, reconnect, toast, refetching, refetching_to_attach, attaching, creating,
  killing, booting, restoring,
}
use remote_agent.Terminal.Handlers
use remote_agent.Terminal.Handlers.{is_ready, is_disconnected}
use remote_agent.Terminal.Sessions.{
  refetched, attached, create_session, created, choose_active, restore, first_boot, booted, resume,
  on_listed,
}
use remote_agent.Terminal.Sessions
use remote_agent.Terminal.View.{press}
use remote_agent.Terminal.View.{Button, pause}
use remote_agent.Terminal.Input.{
  on_data, send_mobile_line, send_raw, on_mount, on_fit_frame, on_switch, on_resize, set_mode,
  adjust_font,
}
use remote_agent.Platform.{Platform}
use remote_agent.Workspace.{
  World, UserMove, deliver, user, begins, retries, lists, leaves, appears, presses, types,
  types_line, mounts, shows_frame, switches, resizes,
}

-- The toast of `onStatus`.
abbrev pub is_restored : Act → Bool
is_restored (toast text) = text == "连接已恢复，会话画面自动同步"
is_restored _ = false

-- An act that opens a socket, or that toast.
abbrev pub is_loud : Act → Bool
is_loud connect = true
is_loud reconnect = true
is_loud act = is_restored act

-- A handler that keeps the status and does nothing loud.
pub record Mild (a : App) (r : App × List Act) : Type 0 where
  pub same_status : r.0.status ≡ a.status
  pub quiet : any is_loud r.1 ≡ false

choose_active_status : (ss : List SessionInfo) (a : App) → (choose_active ss a).status ≡ a.status
unfolding choose_active
choose_active_status ss a = ground arith

attached_status : (sid : String) (f : Frame) (a : App) → (attached sid f a).status ≡ a.status
unfolding attached
attached_status sid (daemon (session_attached r id)) a = ground arith
attached_status sid _ a = refl

create_session_quiet : (cmd : Option String) (a : App) → any is_loud (create_session cmd a) ≡ false
unfolding create_session
create_session_quiet cmd a = ground arith

restore-Mild : (sids : List String) (ss : List SessionInfo) (a : App) → Mild a (restore sids ss a)
unfolding restore
restore-Mild [] ss a = record { same_status = choose_active_status ss a; quiet = refl }
restore-Mild (sid ∷ rest) ss a = record { same_status = refl; quiet = refl }

first_boot-Mild : (ss : List SessionInfo) (a : App) → Mild a (first_boot ss a)
unfolding first_boot restore
first_boot-Mild [] a = elim (Option-cases (truthy a.pending_new)) [
  | inr (cmd, e) ↦
      rw (e, first_boot) (record { same_status = refl; quiet = create_session_quiet (some cmd) _ })
  | inl e ↦ rw (e, first_boot) (record { same_status = refl; quiet = create_session_quiet none _ })
]
first_boot-Mild (s ∷ ss) a = elim (Option-cases (truthy a.pending_new)) [
  | inr (cmd, e) ↦
      rw (e, first_boot) (record { same_status = refl; quiet = create_session_quiet (some cmd) _ })
  | inl e ↦ rw (e, first_boot) (record { same_status = refl; quiet = refl })
]

booted-Mild : (f : Frame) (a : App) → Mild a (booted f a)
unfolding booted
booted-Mild (daemon (session_list_result r ss)) a =
    let boot = first_boot-Mild ss (record a { sessions = ss }) in
    let again = restore-Mild (Sessions.ids ss) ss (record a { sessions = ss }) in
    if_both (Mild a) (not a.bootstrapped) _ _
      (record { same_status = boot.same_status; quiet = boot.quiet })
      (record { same_status = again.same_status; quiet = again.quiet })
booted-Mild _ a = record { same_status = refl; quiet = refl }

refetched_status : (f : Frame) (a : App) → (refetched f a).status ≡ a.status
unfolding refetched
refetched_status (daemon (session_list_result r ss)) a = refl
refetched_status _ a = refl

created_quiet : (f : Frame) → any is_loud (created f) ≡ false
unfolding created
created_quiet (daemon (session_created r sid)) = refl
created_quiet _ = refl

resume-Mild : (k : Await) (f : Frame) (a : App) → Mild a (resume k f a)
unfolding resume
resume-Mild refetching f a = record { same_status = refetched_status f a; quiet = refl }
resume-Mild (refetching_to_attach sid) f a = record {
  same_status = refetched_status f a;
  quiet = refl;
}
resume-Mild (attaching sid) f a = record { same_status = attached_status sid f a; quiet = refl }
resume-Mild creating f a = record { same_status = refl; quiet = created_quiet f }
resume-Mild killing f a = record { same_status = refl; quiet = refl }
resume-Mild booting f a = booted-Mild f a
resume-Mild (restoring sid rest ss) f a =
    let m = restore-Mild rest ss (attached sid f a) in
    record { same_status = m.same_status ∙ attached_status sid f a; quiet = m.quiet }

module _ (p : Platform) (measure : String → ℕ × ℕ) (stored : ℕ) where
  send_raw_untold : (bytes : String) (a : App) → any is_restored (send_raw p bytes a) ≡ false
  unfolding send_raw
  send_raw_untold bytes a = ground arith

  press_status : (b : Button) (a : App) → (press p measure stored b a).0.status ≡ a.status
  unfolding press set_mode adjust_font
  press_status b a = ground arith

  press_untold : (b : Button) (a : App) → any is_restored (press p measure stored b a).1 ≡ false
  unfolding press set_mode adjust_font create_session send_raw
  press_untold pause a = ground arith
  press_untold b a = ground arith

module _ (o : World) where
  -- An event that is no status is handled without a change of the status and without a loud act.
  pub deliver-Mild :
      (e : Event Await) (a : App) → ((s : Status) → e ≢ on_status s) → Mild a (deliver o e a)
  unfolding deliver Handlers.on_presence Handlers.on_snapshot Handlers.on_output
      Handlers.on_agent_status Handlers.on_exited Handlers.on_error
  deliver-Mild (on_status s) a n = absurd (n s refl)
  deliver-Mild (on_presence id online) a n = record {
    same_status = ground arith;
    quiet = ground arith;
  }
  deliver-Mild (on_snapshot sid bytes seq) a n = record {
    same_status = ground arith;
    quiet = ground arith;
  }
  deliver-Mild (on_output sid bytes seq) a n = record {
    same_status = ground arith;
    quiet = ground arith;
  }
  deliver-Mild (on_agent_status sid agent status detail) a n = record {
    same_status = ground arith;
    quiet = ground arith;
  }
  deliver-Mild (on_exited sid code) a n = record {
    same_status = ground arith;
    quiet = ground arith;
  }
  deliver-Mild (on_error code msg) a n = record { same_status = ground arith; quiet = ground arith }
  deliver-Mild (resolved k f) a n = resume-Mild k f a
  deliver-Mild _ a n = record { same_status = refl; quiet = refl }

  -- The user's handlers keep the status, and none of their acts is that toast.
  pub user_status : (m : UserMove) (a : App) → (user o m a).0.status ≡ a.status
  unfolding user on_listed Handlers.on_leave on_data on_mount on_fit_frame on_switch on_resize
  user_status begins a = refl
  user_status retries a = refl
  user_status lists a = ground arith
  user_status leaves a = refl
  user_status (appears v) a = refl
  user_status (presses b) a = press_status o.platform o.measure o.stored_font b a
  user_status (types sid keys now) a = ground arith
  user_status (types_line line) a = refl
  user_status (mounts size sid) a = ground arith
  user_status (shows_frame sid) a = ground arith
  user_status (switches sid) a = ground arith
  user_status resizes a = ground arith

  pub user_untold : (m : UserMove) (a : App) → any is_restored (user o m a).1 ≡ false
  unfolding user on_data send_mobile_line send_raw on_mount on_switch on_resize Handlers.on_leave
  user_untold begins a = refl
  user_untold retries a = refl
  user_untold lists a = refl
  user_untold leaves a = refl
  user_untold (appears v) a = ground arith
  user_untold (presses b) a = press_untold o.platform o.measure o.stored_font b a
  user_untold (types sid keys now) a = ground arith
  user_untold (types_line line) a = ground arith
  user_untold (mounts size sid) a = ground arith
  user_untold (shows_frame sid) a = refl
  user_untold (switches sid) a = ground arith
  user_untold resizes a = ground arith
