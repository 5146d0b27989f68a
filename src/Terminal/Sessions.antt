-- ===== src/Terminal/Sessions.antt =====
-- The async functions of TerminalApp. Each `await` of a request ends an act `request` with what stands
-- behind it, an `Await`; `resume` goes on when the connection hands out the answer.
use remote_agent.Common.{
  String, Bool, true, false, not, Option, none, some, or_else, List, [], ◌∷◌, any, map, ◌==◌,
  string_eq, if◌then◌else◌,
}
use remote_agent.Common.Maps.{lookup}
use remote_agent.Protocol.{
  SessionInfo, Frame, daemon, session_list_result, session_created, session_attached,
}
use remote_agent.Connection.{list, create, attach, kill, truthy}
use remote_agent.Terminal.{
  App, Act, request, Await, refetching, refetching_to_attach, attaching, creating, killing, booting,
  restoring,
}
use remote_agent.Terminal.Handlers.{set_entry}

-- refetchSessions
abbrev pub refetch : List Act
refetch = request list refetching ∷ []

unfoldable pub refetched : Frame → App → App
refetched (daemon (session_list_result r sessions)) a = record a { sessions = sessions }
refetched _ a = a

-- attachSession
abbrev pub attach_session : String → List Act
attach_session sid = request (attach sid) (attaching sid) ∷ []

abbrev pub revived : String → App → App
revived sid a = elim (lookup sid a.terms) [
  | none ↦ a
  | some e ↦ set_entry sid (record e { ended = false }) a
]

unfoldable pub attached : String → Frame → App → App
attached sid (daemon (session_attached r id)) a = record (revived sid a) { active = some sid }
attached sid _ a = a

-- createSession: the size of the active terminal, or 100 by 30.
unfoldable pub create_session : (cmd : Option String) → App → List Act
create_session cmd a = elim (lookup (or_else a.active "") a.terms) [
  | none ↦ request (create 100 30 none (truthy cmd)) creating ∷ []
  | some e ↦ request (create e.cols e.rows none (truthy cmd)) creating ∷ []
]

unfoldable pub created : Frame → List Act
created (daemon (session_created r sid)) = request list (refetching_to_attach sid) ∷ []
created _ = []

-- killSession
abbrev pub kill_session : String → List Act
kill_session sid = request (kill sid) killing ∷ []

abbrev pub first_id : List SessionInfo → Option String
first_id [] = none
first_id (s ∷ ss) = some s.id

-- `m.sessions.some((s) => s.id === cur)`
abbrev pub is_listed : Option String → List SessionInfo → Bool
is_listed none ss = false
is_listed (some cur) ss = any (λ s. s.id == cur) ss

-- The end of `bootstrap`, behind its loop.
unfoldable pub choose_active : List SessionInfo → App → App
choose_active sessions a =
    let pick = if is_listed a.active sessions then a.active else first_id sessions in
    elim (truthy pick) [
      | none ↦ record a { sessions = [] }
      | some sid ↦ record a { active = some sid }
    ]

-- The loop of `bootstrap`, which attaches one session after the other.
unfoldable pub restore : List String → List SessionInfo → App → App × List Act
restore [] sessions a = (choose_active sessions a, [])
restore (sid ∷ rest) sessions a = (a, request (attach sid) (restoring sid rest sessions) ∷ [])

abbrev pub ids : List SessionInfo → List String
ids ss = map (λ s. s.id) ss

-- The first connection: the command of the address is started once, or a session if there is none.
unfoldable pub first_boot : List SessionInfo → App → App × List Act
first_boot sessions a =
    let a' = record a { bootstrapped = true; pending_new = none } in
    elim (truthy a.pending_new) [
      | some cmd ↦ (a', create_session (some cmd) a')
      | none ↦ elim sessions [
        | [] ↦ (a', create_session none a')
        | s ∷ ss ↦ restore (ids (s ∷ ss)) (s ∷ ss) a'
      ]
    ]

-- `bootstrap`, from the answer of its first request on.
unfoldable pub booted : Frame → App → App × List Act
booted (daemon (session_list_result r sessions)) a =
    let a' = record a { sessions = sessions } in
    if not a.bootstrapped then first_boot sessions a' else restore (ids sessions) sessions a'
booted _ a = (a, [])

unfoldable pub resume : Await → Frame → App → App × List Act
resume refetching f a = (refetched f a, [])
resume (refetching_to_attach sid) f a = (refetched f a, attach_session sid)
resume (attaching sid) f a = (attached sid f a, [])
resume creating f a = (a, created f)
resume killing f a = (a, refetch)
resume booting f a = booted f a
resume (restoring sid rest sessions) f a = restore rest sessions (attached sid f a)

-- The effect on a changed list: with the active session gone the first one becomes active.
unfoldable pub on_listed : App → App
on_listed a = elim (truthy a.active) [
  | none ↦ a
  | some cur ↦ elim a.sessions [
    | [] ↦ a
    | s ∷ ss ↦ if not (is_listed (some cur) (s ∷ ss)) then record a { active = some s.id } else a
  ]
]
