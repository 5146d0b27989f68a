-- ===== src/Connection.antt =====
-- web/src/lib/daemon.ts: DaemonConnection. The sockets that it has opened live on a small heap, so
-- that an old socket's late events are there. What the code does to the outside is a list of
-- `Event`s: the calls of its handlers, what it sends, and the answers that it hands out.
pub mod Dispatch
pub mod Frames
pub mod Steps
pub mod Sockets
pub mod Disposal
pub mod Requests
pub mod Secrecy
pub mod Readiness
pub mod Keepalive
pub mod Depth
mod Examples
use remote_agent.Common.{
  ℕ, suc, String, Bool, true, false, not, ◌&&◌, Option, none, some, List, [], ◌∷◌, ◌++◌, keep, ◌==◌,
  nat_eq, string_eq, if◌then◌else◌,
}
use remote_agent.Common.Maps.{insert}
use remote_agent.Platform.{Platform}
use remote_agent.Protocol.{
  Frame, client, ClientMsg, ping, session_list, session_create, session_attach, session_kill,
}
use remote_agent.Protocol
use remote_agent.E2e.{E2eClient, new_client, established, seal}
use remote_agent.E2e.Results.{E2eError, ok, err}
use remote_agent.E2e.Results

pub data Status : Type 0 where
  connecting ready disconnected : Status

pub record HelloFields : Type 0 where
  pub device_id : String
  pub token : Option String

-- CONNECTING, OPEN, CLOSING, CLOSED
pub data ReadyState : Type 0 where
  opening opened closing closed : ReadyState

abbrev pub is_opened : ReadyState → Bool
is_opened opened = true
is_opened _ = false

abbrev pub is_closed : ReadyState → Bool
is_closed closed = true
is_closed _ = false

-- The handlers `on…`, and what happens to sockets and to requests. `K` is who awaits an answer.
pub data Event (K : Type 0) : Type 0 where
  on_status : Status → Event K
  on_presence : String → Bool → Event K
  on_snapshot : String → List ℕ → ℕ → Event K
  on_output : String → List ℕ → ℕ → Event K
  on_agent_status : String → String → String → String → Event K
  on_exited : String → Option ℕ → Event K
  on_error : String → String → Event K
  created : ℕ → Event K
  sent : ℕ → String → Event K
  shut : ℕ → Event K
  resolved : K → Frame → Event K
  logged : Event K

-- `states` are the ready states of all sockets, `sockets` how many there are; `intervals` the
-- intervals that run, and `timers` the next handle of one.
pub record Connection (K : Type 0) : Type 0 where
  pub states : ℕ → ReadyState
  pub sockets : ℕ
  pub ws : Option ℕ
  pub req_id : ℕ
  pub pending : List (ℕ × K)
  pub disposed : Bool
  pub keepalive : Option ℕ
  pub intervals : List ℕ
  pub timers : ℕ
  pub e2e : E2eClient

-- The arguments of `request`, before the id is added.
pub data Request : Type 0 where
  list : Request
  create : ℕ → ℕ → Option String → Option String → Request
  attach kill : String → Request

-- `{ ...msg, reqId }`
abbrev pub with_req_id : Request → ℕ → ClientMsg
with_req_id list r = session_list r
with_req_id (create cols rows cwd cmd) r = session_create r cols rows cwd cmd
with_req_id (attach sid) r = session_attach r sid
with_req_id (kill sid) r = session_kill r sid

-- CLEARTEXT_TYPES; `auth.proof` is no message that `send` is given.
abbrev pub is_cleartext : ClientMsg → Bool
is_cleartext (Protocol.hello _ _) = true
is_cleartext ping = true
is_cleartext _ = false

-- A value that is there and is not the empty text.
abbrev pub truthy : Option String → Option String
truthy none = none
truthy (some s) = if s == "" then none else some s

abbrev pub update : (ℕ → ReadyState) → ℕ → ReadyState → ℕ → ReadyState
update f i v j = if i == j then v else f j

-- `readyState` after `close()`.
abbrev pub after_close : ReadyState → ReadyState
after_close closed = closed
after_close _ = closing

-- `clearInterval(handle)`
abbrev pub clear_interval : Option ℕ → List ℕ → List ℕ
clear_interval none hs = hs
clear_interval (some h) hs = keep (λ k. not (h == k)) hs

-- `this.ws === ws`
abbrev pub is_current : Option ℕ → ℕ → Bool
is_current none id = false
is_current (some j) id = j == id

module _ {K : Type 0} where
  unfoldable pub new_connection : Connection K
  new_connection = record {
    states = λ _. closed;
    sockets = 0;
    ws = none;
    req_id = 0;
    pending = [];
    disposed = false;
    keepalive = none;
    intervals = [];
    timers = 0;
    e2e = new_client;
  }

  -- `ws?.close()`
  abbrev pub shut_socket : Option ℕ → Connection K → Connection K
  shut_socket none c = c
  shut_socket (some id) c = record c { states = update c.states id (after_close (c.states id)) }

  abbrev pub shut_events : Option ℕ → List (Event K)
  shut_events none = []
  shut_events (some id) = shut id ∷ []

  -- `this.ws && this.ws.readyState !== WebSocket.CLOSED`
  abbrev pub has_socket : Connection K → Bool
  has_socket c = elim c.ws [ none ↦ false | some id ↦ not (is_closed (c.states id)) ]

  -- `new WebSocket(this.url)`, and the assignment to `this.ws`.
  abbrev pub new_socket : Connection K → Connection K
  new_socket c = record c {
    states = update c.states c.sockets opening;
    sockets = suc c.sockets;
    ws = some c.sockets;
  }

  unfoldable pub connect : Connection K → Connection K × List (Event K)
  connect c =
      if c.disposed
      then (c, [])
      else if has_socket c
      then (c, [])
      else (new_socket c, on_status connecting ∷ created c.sockets ∷ [])

  unfoldable pub reconnect : Connection K → Connection K × List (Event K)
  reconnect c =
      if c.disposed
      then (c, [])
      else (let (c', events) = connect (shut_socket c.ws (record c { ws = none })) in
          (c', shut_events c.ws ++ events))

  unfoldable pub close : Connection K → Connection K × List (Event K)
  close c = (
    shut_socket c.ws
        (record c { disposed = true; intervals = clear_interval c.keepalive c.intervals }),
    shut_events c.ws,
  )

  -- `onclose` of the socket `id`, which the browser has marked CLOSED.
  unfoldable pub socket_closed : ℕ → Connection K → Connection K × List (Event K)
  socket_closed id c =
      let c' = record c {
        states = update c.states id closed;
        intervals = clear_interval c.keepalive c.intervals;
      } in
      if is_current c'.ws id
      then (record c' { pending = [] }, if c.disposed then [] else on_status disconnected ∷ [])
      else (c', [])

  -- `onerror` of the socket `id`.
  unfoldable pub socket_failed : ℕ → Connection K → Connection K × List (Event K)
  socket_failed id c = (shut_socket (some id) c, shut id ∷ [])

module _ {K : Type 0} (p : Platform) where
  -- What `send` puts on the wire. `nonce` is what an envelope draws.
  unfoldable pub wire : Connection K → ClientMsg → (nonce : List ℕ) → Results.Result String
  wire c msg nonce =
      if established c.e2e && not (is_cleartext msg)
      then seal p c.e2e (p.stringify (client msg)) nonce
      else ok (p.stringify (client msg))

  -- A `send` that throws sends nothing.
  unfoldable pub send : Connection K → ClientMsg → (nonce : List ℕ) → List (Event K)
  send c msg nonce = elim c.ws [
    | none ↦ []
    | some id ↦
        if is_opened (c.states id)
        then elim (wire c msg nonce) [ ok w ↦ sent id w ∷ [] | err _ ↦ [] ]
        else []
  ]

  unfoldable pub request :
      K → Request → (nonce : List ℕ) → Connection K → Connection K × List (Event K)
  request k msg nonce c =
      let r = suc c.req_id in
      let c' = record c { req_id = r; pending = insert r k c.pending } in
      (c', send c' (with_req_id msg r) nonce)

  -- `onopen` of the socket `id`, which the browser has marked OPEN.
  unfoldable pub socket_opened : HelloFields → ℕ → Connection K → Connection K × List (Event K)
  socket_opened h id c =
      let c' = record c { states = update c.states id opened } in
      (
        record c' {
          keepalive = some c.timers;
          intervals = c.timers ∷ clear_interval c.keepalive c.intervals;
          timers = suc c.timers;
        },
        send c' (Protocol.hello h.device_id (truthy h.token)) [],
      )

  -- The callback of the keepalive interval.
  unfoldable pub keepalive_tick : Connection K → List (Event K)
  keepalive_tick c = elim c.ws [
    | none ↦ []
    | some id ↦ if is_opened (c.states id) then sent id (p.stringify (client ping)) ∷ [] else []
  ]
