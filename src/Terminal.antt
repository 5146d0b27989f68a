-- ===== src/Terminal.antt =====
-- web/src/TerminalApp.tsx without its markup: what the component keeps, and what it asks of the
-- connection, of xterm and of the page. Each handler returns the new state and its `Act`s in order.
pub mod Handlers
pub mod Sessions
pub mod Input
pub mod Screen
pub mod Stream
pub mod Backoff
pub mod Restore
pub mod Errors
pub mod Keys
pub mod View
mod Examples
use remote_agent.Common.{
  ℕ, String, Bool, true, false, Option, none, some, List, [], ◌∷◌, ◌++◌, string_eq,
}
use remote_agent.Common.Maps.{lookup}
use remote_agent.Protocol.{SessionInfo, ClientMsg}
use remote_agent.Connection.{Status, Request, connecting}

-- The calls of one xterm instance and of its fit addon.
pub data TermCall : Type 0 where
  reset : TermCall
  write : List ℕ → TermCall
  writeln : String → TermCall
  font_size : ℕ → TermCall
  fit focus : TermCall

-- `TermEntry`: an instance by the calls that were made of it, its size as xterm reports it.
pub record TermEntry : Type 0 where
  pub calls : List TermCall
  pub cols : ℕ
  pub rows : ℕ
  pub ended : Bool

pub record AgentSnap : Type 0 where
  pub sid : String
  pub agent : String
  pub status : String
  pub detail : String

-- Who awaits an answer: what stands behind the `await` of each async function.
pub data Await : Type 0 where
  refetching : Await
  refetching_to_attach : String → Await
  attaching : String → Await
  creating killing booting : Await
  restoring : String → List String → List SessionInfo → Await

pub data Act : Type 0 where
  send : ClientMsg → Act
  request : Request → Await → Act
  connect reconnect close : Act
  notify : String → String → String → Act
  toast : String → Act
  retry_after : ℕ → Act
  save_conn : Act
  set_item : String → ℕ → Act
  fit_frame : String → Act

-- The refs and the state of the component. `active` is activeRef.current and the state `active`,
-- which are always set together; so are attemptsRef and `attempts`, takeoverRef and `takeover`.
pub record App : Type 0 where
  pub terms : List (String × TermEntry)
  pub pending : List (String × List (List ℕ))
  pub last_seq : List (String × ℕ)
  pub agent_snap : Option AgentSnap
  pub sessions : List SessionInfo
  pub active : Option String
  pub status : Status
  pub device_online : Bool
  pub attempts : ℕ
  pub busy_hint : Bool
  pub takeover : Bool
  pub last_hint : ℕ
  pub bootstrapped : Bool
  pub pending_new : Option String
  pub saved_conn : Bool

-- The first render; `new_cmd` and `takeover` come from the address and from the device.
unfoldable pub start : (new_cmd : Option String) (takeover : Bool) → App
start new_cmd takeover = record {
  terms = [];
  pending = [];
  last_seq = [];
  agent_snap = none;
  sessions = [];
  active = none;
  status = connecting;
  device_online = true;
  attempts = 0;
  busy_hint = false;
  takeover = takeover;
  last_hint = 0;
  bootstrapped = false;
  pending_new = new_cmd;
  saved_conn = false;
}

-- The entry of a session after one more call.
abbrev pub called : TermEntry → TermCall → TermEntry
called e c = record e { calls = e.calls ++ c ∷ [] }
