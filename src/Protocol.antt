-- ===== src/Protocol.antt =====
-- web/src/lib/protocol.ts: the messages of the wire protocol and the base64 codec of terminal data.
-- A JSON object on the wire is a `Frame`; its text is made and read by the platform.
pub mod Codec
use remote_agent.Common.{ℕ, String, Bool, Option, none, some, List}

pub record SessionInfo : Type 0 where
  pub id : String
  pub cmd : String
  pub started_at : ℕ
  pub agent : Option String
  pub agent_status : Option String
  pub agent_detail : Option String

-- `hello` has the optional token that daemon.ts adds to it.
pub data ClientMsg : Type 0 where
  hello : String → Option String → ClientMsg
  ping : ClientMsg
  session_list : ℕ → ClientMsg
  session_create : ℕ → ℕ → ℕ → Option String → Option String → ClientMsg
  session_attach : ℕ → String → ClientMsg
  session_kill : ℕ → String → ClientMsg
  input : String → String → ClientMsg
  resize : String → ℕ → ℕ → ClientMsg

-- `auth_ok` has its two fields optional, as the code that reads them does (`m.pub ?? ''`).
pub data DaemonMsg : Type 0 where
  hello_ack : String → DaemonMsg
  pong : DaemonMsg
  presence : String → Bool → DaemonMsg
  auth_ok : Option String → Option String → DaemonMsg
  session_list_result : ℕ → List SessionInfo → DaemonMsg
  session_created : ℕ → String → DaemonMsg
  session_attached : ℕ → String → DaemonMsg
  session_killed : ℕ → String → DaemonMsg
  output : String → ℕ → String → DaemonMsg
  snapshot : String → ℕ → String → DaemonMsg
  agent_status : String → String → String → String → DaemonMsg
  session_exited : String → Option ℕ → DaemonMsg
  error : Option ℕ → String → String → DaemonMsg

-- Any object that can stand in a frame. `other` has a type that no code names, and its request id.
pub data Frame : Type 0 where
  client : ClientMsg → Frame
  daemon : DaemonMsg → Frame
  auth_proof : String → String → Frame
  enc : String → String → Frame
  other : String → Option ℕ → Frame

-- `'reqId' in m && m.reqId !== undefined`, with the id.
abbrev pub client_req_id : ClientMsg → Option ℕ
client_req_id (session_list r) = some r
client_req_id (session_create r _ _ _ _) = some r
client_req_id (session_attach r _) = some r
client_req_id (session_kill r _) = some r
client_req_id _ = none

abbrev pub daemon_req_id : DaemonMsg → Option ℕ
daemon_req_id (session_list_result r _) = some r
daemon_req_id (session_created r _) = some r
daemon_req_id (session_attached r _) = some r
daemon_req_id (session_killed r _) = some r
daemon_req_id (error r _ _) = r
daemon_req_id _ = none

abbrev pub frame_req_id : Frame → Option ℕ
frame_req_id (client m) = client_req_id m
frame_req_id (daemon m) = daemon_req_id m
frame_req_id (other _ r) = r
frame_req_id _ = none
