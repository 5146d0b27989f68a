-- ===== src/Terminal/Handlers.antt =====
-- The handlers that TerminalApp gives to its connection.
use Prim.Native.Char.{char}
use Prim.Native.String.{◌++◌ as ◌+++◌}
use remote_agent.Common.{
  ℕ, ◌+◌, ◌-◌, ◌*◌, ◌^◌, min, String, Bool, true, false, ◌&&◌, ◌||◌, Option, none, some, or_else,
  List, [], ◌∷◌, ◌++◌, leb, ◌==◌, string_eq, if◌then◌else◌,
}
use remote_agent.Common.Maps.{lookup, insert, remove}
use remote_agent.Connection.{Status, connecting, ready, disconnected, list, truthy}
use remote_agent.Terminal.{
  App, AgentSnap, TermEntry, reset, write, writeln, called, Act, request, close, connect, notify,
  toast, retry_after, save_conn, booting, refetching,
}

abbrev pub is_ready : Status → Bool
is_ready ready = true
is_ready _ = false

abbrev pub is_disconnected : Status → Bool
is_disconnected disconnected = true
is_disconnected _ = false

-- The delay before the retry that follows the `n`-th loss, in milliseconds.
unfoldable pub retry_delay : ℕ → ℕ
retry_delay n = min (1000 * 2 ^ (n - 1)) 10000

-- onStatus
abbrev pub on_ready : App → App × List Act
on_ready a = (
  record a { attempts = 0; busy_hint = false; saved_conn = true },
  request list booting ∷ (if a.saved_conn then [] else save_conn ∷ []),
)

abbrev pub on_disconnected : App → App × List Act
on_disconnected a =
    let attempts = a.attempts + 1 in
    (
      record a { device_online = true; attempts = attempts },
      retry_after (retry_delay attempts) ∷ [],
    )

abbrev pub with_status : Status → App → App × List Act
with_status connecting a = (a, [])
with_status ready a = on_ready a
with_status disconnected a = on_disconnected a

unfoldable pub on_status : Status → App → App × List Act
on_status s a =
    let told = if is_disconnected a.status && is_ready s then toast "连接已恢复，会话画面自动同步" ∷ [] else [] in
    let (a', acts) = with_status s (record a { status = s }) in (a', told ++ acts)

-- onPresence
unfoldable pub on_presence : Bool → App → App × List Act
on_presence online a = (record a { device_online = online }, [])

-- A call of the instance of `sid`, if there is one.
abbrev pub set_entry : String → TermEntry → App → App
set_entry sid e a = record a { terms = insert sid e a.terms }

-- onSnapshot: the snapshot's number is the new base; it replaces what was buffered or shown.
unfoldable pub on_snapshot : String → List ℕ → ℕ → App → App × List Act
on_snapshot sid bytes seq a =
    let a' = record a { last_seq = insert sid seq a.last_seq } in
    elim (lookup sid a.terms) [
      | none ↦ (record a' { pending = insert sid (bytes ∷ []) a.pending }, [])
      | some e ↦ (set_entry sid (called (called e reset) (write bytes)) a', [])
    ]

-- `last !== undefined && seq <= last`
abbrev pub is_stale : Option ℕ → ℕ → Bool
is_stale none seq = false
is_stale (some last) seq = leb seq last

-- onOutput: a number that is not above the last one is a replay and is dropped.
unfoldable pub on_output : String → List ℕ → ℕ → App → App × List Act
on_output sid bytes seq a =
    if is_stale (lookup sid a.last_seq) seq
    then (a, [])
    else (let a' = record a { last_seq = insert sid seq a.last_seq } in
        elim (lookup sid a.terms) [
          | none ↦
              let buf = or_else (lookup sid a.pending) [] in
              (record a' { pending = insert sid (buf ++ bytes ∷ []) a.pending }, [])
          | some e ↦ (set_entry sid (called e (write bytes)) a', [])
        ])

-- U+26A0 with its variation selector, and a space.
abbrev warning_sign : String
warning_sign = "⚠" +++ String.◌∷◌ (char 65039 tt) " "

-- `slice` is String.prototype.slice.
module _ (slice : String → ℕ → ℕ → String) where
  agent_name : String → String
  agent_name agent =
      if agent == "codex" then "Codex" else if agent == "claude" then "Claude Code" else agent

  -- `detail ? detail.slice(0, 80) : fallback`
  short_detail : String → String → String
  short_detail detail fallback = if detail == "" then fallback else slice detail 0 80

  -- onAgentStatus
  unfoldable pub on_agent_status : (sid agent status detail : String) → App → App × List Act
  unfolding agent_name short_detail
  on_agent_status sid agent status detail a =
      let snap : AgentSnap = record {
        sid = sid;
        agent = agent;
        status = status;
        detail = detail;
      } in
      let name = agent_name agent in
      (
        record a { agent_snap = some snap },
        if status == "finished"
            then notify ("✅ " +++ name +++ " 已完成") (short_detail detail "任务结束") ("ai-" +++ sid) ∷ []
            else if status == "error"
            then notify (warning_sign +++ name +++ " 出错") (short_detail detail "请查看终端")
                ("ai-" +++ sid)
              ∷ []
            else [],
      )

  -- `cur?.sid === sid ? { ...cur, status: 'finished', detail: 'process exited' } : cur`
  abbrev exited_snap : String → Option AgentSnap → Option AgentSnap
  exited_snap sid none = none
  exited_snap sid (some cur) = some (
      if cur.sid == sid then record cur { status = "finished"; detail = "process exited" } else cur)

  -- onExited: the buffer of a session that no terminal shows is dropped.
  unfoldable pub on_exited : String → App → App × List Act
  on_exited sid a =
      let a' = record a {
        agent_snap = exited_snap sid a.agent_snap;
        pending = remove sid a.pending;
      } in
      (
        elim (lookup sid a.terms) [
          | none ↦ a'
          | some e ↦ set_entry sid (record e { ended = true }) a'
        ],
        notify "RemoteAgent 会话已退出" ("会话 #" +++ slice sid 2 8 +++ " 的进程已结束") ("exit-" +++ sid)
            ∷ request list refetching
            ∷ [],
      )

-- The codes after which onError closes the connection.
abbrev pub is_fatal : String → Bool
is_fatal code =
    code == "auth_failed"
    || code == "device_busy"
    || code == "local_busy"
    || code == "decrypt_failed"

-- The line of an error, in red: ESC is 27.
abbrev pub escape : String
escape = String.◌∷◌ (char 27 tt) ""

abbrev pub line_end : String
line_end = String.◌∷◌ (char 13 tt) ""

abbrev pub line_break : String
line_break = line_end +++ String.◌∷◌ (char 10 tt) ""

unfoldable pub error_line : String → String → String
error_line code msg =
    line_break +++ escape +++ "[31m[" +++ code +++ "] " +++ msg +++ escape +++ "[0m"

-- onError
unfoldable pub on_error : String → String → App → App × List Act
on_error code msg a =
    let a' = record a { busy_hint = code == "device_busy" || code == "local_busy" } in
    let acts = if is_fatal code then close ∷ [] else [] in
    elim (truthy a.active) [
      | none ↦ (a', acts)
      | some sid ↦ elim (lookup sid a.terms) [
        | none ↦ (a', acts)
        | some e ↦ (set_entry sid (called e (writeln (error_line code msg))) a', acts)
      ]
    ]

-- The page comes back to the foreground.
abbrev pub on_visible : (visible : Bool) → List Act
on_visible visible = if visible then connect ∷ [] else []

-- What the effect does when the component leaves: the connection is closed, the terminals go.
unfoldable pub on_leave : App → App × List Act
on_leave a = (record a { terms = []; pending = [] }, close ∷ [])
