-- ===== src/Terminal/View.antt =====
-- What TerminalApp shows of its state, and what its buttons do.
use Prim.Native.Char.{char}
use Prim.Native.String.{◌++◌ as ◌+++◌}
use remote_agent.Common.{
  ℕ, ◌≡◌, refl, String, Bool, true, false, not, ◌&&◌, Option, none, some, List, [], ◌∷◌, ◌++◌, map,
  ltb, ◌==◌, string_eq, if◌then◌else◌, arith,
}
use remote_agent.Common.Maps.{lookup}
use remote_agent.Platform.{Platform}
use remote_agent.Protocol.{SessionInfo}
use remote_agent.Connection.{Status, connecting, ready, disconnected, truthy}
use remote_agent.Terminal.{App, TermEntry, Act, toast, reconnect}
use remote_agent.Terminal.Handlers.{is_ready, is_disconnected, on_error, escape}
use remote_agent.Terminal.Input.{set_mode, send_raw, adjust_font, is_active}
use remote_agent.Terminal.Sessions.{attach_session, create_session, kill_session}

abbrev pub online : App → Bool
online a = a.device_online && is_ready a.status

abbrev pub is_ended : Option TermEntry → Bool
is_ended none = false
is_ended (some e) = e.ended

abbrev pub status_text : Status → String × String
status_text ready = ("on", "在线")
status_text connecting = ("wait", "连接中…")
status_text disconnected = ("wait", "重连中…")

-- statusBadge: its class and its text.
unfoldable pub status_badge : App → String × String
status_badge a = if not a.device_online then ("off", "离线") else status_text a.status

-- The banner while the connection is lost: its text, and the attempt that it names.
unfoldable pub banner : App → Option (String × Option ℕ)
banner a =
    if is_disconnected a.status
    then some (
      if a.busy_hint then "设备正被另一个窗口占用（同一设备同时只允许一个查看端）—— 关掉旧窗口后自动接入" else "连接已断开，正在重连…",
      if not a.busy_hint && ltb 1 a.attempts then some a.attempts else none,
    )
    else none

-- A tab: its session, its label, whether it is the active one, and whether its process has ended.
pub record Tab : Type 0 where
  pub id : String
  pub label : String
  pub is_shown : Bool
  pub ended : Bool

-- `slice` is String.prototype.slice.
unfoldable pub tab : (slice : String → ℕ → ℕ → String) → App → SessionInfo → Tab
tab slice a s = record {
  id = s.id;
  label = s.cmd +++ ("#" +++ slice s.id 2 8);
  is_shown = is_active a.active s.id;
  ended = is_ended (lookup s.id a.terms);
}

unfoldable pub tabs : (slice : String → ℕ → ℕ → String) → App → List Tab
tabs slice a = map (tab slice a) a.sessions

abbrev pub agent_status_text : String → String
agent_status_text status =
    if status == "starting"
    then "启动中"
    else if status == "working"
    then "处理中"
    else if status == "error"
    then "出错"
    else if status == "finished"
    then "已完成"
    else status

-- The pill of the active session's agent.
unfoldable pub agent_pill : App → Option String
agent_pill a = elim a.agent_snap [
  | none ↦ none
  | some s ↦
      if is_active a.active s.sid
      then some (
          (if s.agent == "codex" then "Codex" else s.agent)
          +++ (" · " +++ agent_status_text s.status))
      else none
]

-- The overlay over the active session's terminal, and the page without sessions.
unfoldable pub shows_ended : App → Bool
shows_ended a = elim (truthy a.active) [ none ↦ false | some sid ↦ is_ended (lookup sid a.terms) ]

unfoldable pub shows_empty : App → Bool
shows_empty a = elim a.sessions [ [] ↦ true | s ∷ ss ↦ false ]

pub data Button : Type 0 where
  tab_of tab_close : String → Button
  tab_new empty_new ended_new : Button
  reload retry mode_pill pause : Button
  bar_mode bar_pause bar_escape bar_tab bar_up bar_down bar_smaller bar_larger bar_input : Button

-- `disabled` of the buttons.
unfoldable pub is_enabled : Button → App → Bool
is_enabled tab_new a = online a
is_enabled empty_new a = online a
is_enabled pause a = online a
is_enabled reload a = not (elim a.status [ connecting ↦ true | _ ↦ false ])
is_enabled _ a = true

abbrev etx : String
etx = String.◌∷◌ (char 3 tt) ""

abbrev tab_char : String
tab_char = String.◌∷◌ (char 9 tt) ""

-- `onClick`, and `onFocus` of the input bar; `measure` and `stored` are what adjustFont reads.
module _ (p : Platform) (measure : String → ℕ × ℕ) (stored : ℕ) where
  unfoldable pub press : Button → App → App × List Act
  press (tab_of sid) a = (a, attach_session sid)
  press (tab_close sid) a = (a, kill_session sid)
  press tab_new a = (a, create_session none a)
  press empty_new a = (a, create_session none a)
  press ended_new a = (a, create_session none a)
  press reload a = (a, reconnect ∷ [])
  press retry a = (a, reconnect ∷ [])
  press mode_pill a = set_mode (not a.takeover) a
  press pause a = (a, send_raw p etx a ++ toast "已发送 Ctrl+C" ∷ [])
  press bar_mode a = set_mode (not a.takeover) a
  press bar_pause a = (a, send_raw p etx a)
  press bar_escape a = (a, send_raw p escape a)
  press bar_tab a = (a, send_raw p tab_char a)
  press bar_up a = (a, send_raw p (escape +++ "[A") a)
  press bar_down a = (a, send_raw p (escape +++ "[B") a)
  press bar_smaller a = adjust_font measure stored 0 1 a
  press bar_larger a = adjust_font measure stored 1 0 a
  press bar_input a = if not a.takeover then set_mode true a else (a, [])

on_error_status : (code msg : String) (a : App) → (on_error code msg a).0.status ≡ a.status
unfolding on_error
on_error_status code msg a = ground arith

-- The text for a device that is busy is shown only where the connection was lost already when the error
-- came: an error that refuses a connection which is up or on its way shows no banner at all.
pub banner-on_error :
    (code msg : String) (a : App)
    → is_disconnected a.status ≡ false
    → banner (on_error code msg a).0 ≡ none
unfolding banner
banner-on_error code msg a h = rw (on_error_status code msg a, h) refl
