-- ===== src/Hub.antt =====
-- relay/hub.go: the rooms of the relay. A connection is a number, and so is a room: the map of the hub and the
-- goroutines hold references to rooms. Each locked part of a method is a function of its own, since other
-- goroutines run between them. What goes into a log is left out.
pub mod Ends
pub mod Limits
pub mod Calm
pub mod Rooms
pub mod Reached
pub mod Pump
use remote_agent.Common.{
  ℕ, zero, suc, ◌≡◌, String, Bool, true, false, not, ◌&&◌, Option, none, some, List, [], ◌∷◌, ◌++◌,
  length, keep, ltb, ◌==◌, nat_eq, string_eq, is_some, if◌then◌else◌,
}
use remote_agent.Common.Maps.{lookup, insert, remove}
use remote_agent.Platform.{Platform}
use remote_agent.Protocol.{Frame, daemon, hello_ack, presence, error}

pub data Role : Type 0 where
  unset : Role
  as_daemon : Role
  as_client : Role

-- conn: the queue of `send`, and whether `shutdown` has closed it.
pub record Conn : Type 0 where
  pub queue : List String
  pub shut : Bool
  pub device_id : String
  pub role : Role

abbrev pub new_conn : Conn
new_conn = record { queue = []; shut = false; device_id = ""; role = unset }

pub record Room : Type 0 where
  pub host : Option ℕ
  pub token : String
  pub clients : List ℕ

abbrev pub new_room : Room
new_room = record { host = none; token = ""; clients = [] }

-- hub, with the rooms and the connections that are there; rooms are made in the order of their numbers.
pub record Hub : Type 0 where
  pub rooms : List (String × ℕ)
  pub heap : ℕ → Room
  pub made : ℕ
  pub conns : ℕ → Conn
  pub relay_key : String

abbrev pub new_hub : String → Hub
new_hub key = record {
  rooms = [];
  heap = λ r. new_room;
  made = 0;
  conns = λ c. new_conn;
  relay_key = key;
}

abbrev pub put {ℓ} : {A : Type ℓ} → ℕ → A → (ℕ → A) → ℕ → A
put i a f j = if i == j then a else f j

abbrev pub set_conn : ℕ → Conn → Hub → Hub
set_conn c k h = record h { conns = put c k h.conns }

abbrev pub set_room : ℕ → Room → Hub → Hub
set_room r room h = record h { heap = put r room h.heap }

-- sendQueue
abbrev pub send_queue : ℕ
send_queue = 64

-- How `sendMsg` ends; a send on a closed channel panics.
pub data Sent : Type 0 where
  queued : Hub → Sent
  kicked : Hub → Sent
  panicked : Hub → Sent

unfoldable pub shutdown : ℕ → Hub → Hub
shutdown c h = set_conn c (record (h.conns c) { shut = true }) h

unfoldable pub send_msg : ℕ → String → Hub → Sent
send_msg c text h =
    let k = h.conns c in
    if k.shut
    then panicked h
    else if ltb (length k.queue) send_queue
    then queued (set_conn c (record k { queue = k.queue ++ text ∷ [] }) h)
    else kicked (shutdown c h)

-- How a locked part ends.
pub data Outcome : Type 0 where
  done : Hub → Outcome
  panics : Hub → Outcome

-- `c.sendMsg(b)` for each of them; the order of the map is the order of the list.
unfoldable pub broadcast : List ℕ → String → Hub → Outcome
broadcast [] text h = done h
broadcast (c ∷ cs) text h = elim (send_msg c text h) [
  | queued h' ↦ broadcast cs text h'
  | kicked h' ↦ broadcast cs text h'
  | panicked h' ↦ panics h'
]

-- registerDaemon under the lock of the hub: the room of the device, made where there is none.
unfoldable pub find_or_make : String → Hub → Hub × ℕ
find_or_make id h = elim (lookup id h.rooms) [
  | some r ↦ (h, r)
  | none ↦ (
    record h {
      rooms = insert id h.made h.rooms;
      heap = put h.made new_room h.heap;
      made = suc h.made;
    },
    h.made,
  )
]

-- The relay key of a daemon.
unfoldable pub has_key : Hub → String → Bool
has_key h token = if h.relay_key == "" then true else token == h.relay_key

unfoldable pub presence_text : Platform → String → Bool → String
presence_text p id online = p.stringify (daemon (presence id online))

abbrev pub refusal : String → String → Frame
refusal code msg = daemon (error none code msg)

module _ (p : Platform) where
  -- registerDaemon under the lock of the room `r`, with the answer.
  unfoldable pub register : (id token : String) (c r : ℕ) → Hub → Outcome × Frame
  register id token c r h =
      let room = h.heap r in
      elim room.host [
        | some other ↦
            (done h, refusal "device_already_online" "device already has an online daemon")
        | none ↦
            let h' = set_room r (record room { host = some c; token = token }) h in
            let h'' = set_conn c (record (h.conns c) { device_id = id; role = as_daemon }) h' in
            (broadcast room.clients (presence_text p id true) h'', daemon (hello_ack id))
      ]

  -- joinClient under the lock of the room `r`.
  unfoldable pub join : (id : String) (c r : ℕ) → Hub → Hub × Frame
  join id c r h =
      let room = h.heap r in
      if not (is_some room.host)
      then (h, refusal "device_offline" "device daemon is offline")
      else if ltb 0 (length room.clients)
      then (h, refusal "device_busy" "another viewer is already connected")
      else (
        set_conn c (record (h.conns c) { device_id = id; role = as_client })
            (set_room r (record room { clients = c ∷ room.clients }) h),
        daemon (hello_ack id),
      )

  abbrev pub sent_outcome : Sent → Outcome
  sent_outcome (queued h) = done h
  sent_outcome (kicked h) = done h
  sent_outcome (panicked h) = panics h

  -- forward under the lock of the room `r`.
  unfoldable pub forward_up : (c : ℕ) (host : Option ℕ) (raw : String) → Hub → Outcome
  forward_up c none raw h =
      sent_outcome
        (send_msg c (p.stringify (refusal "device_offline" "device daemon is offline")) h)
  forward_up c (some d) raw h = sent_outcome (send_msg d raw h)

  unfoldable pub forward : (c r : ℕ) (raw : String) → Hub → Outcome
  forward c r raw h = elim (h.conns c).role [
    | as_daemon ↦ broadcast (h.heap r).clients raw h
    | as_client ↦ forward_up c (h.heap r).host raw h
    | unset ↦ forward_up c (h.heap r).host raw h
  ]

  -- kickClients under the lock of the room `r`: the place is free at once. The clients are told behind it.
  unfoldable pub kick : ℕ → Hub → Hub
  kick r h = set_room r (record (h.heap r) { clients = [] }) h

  -- unregister under the lock of the room `r`: first who leaves, then the room if it is empty.
  abbrev pub is_host : Hub → (c r : ℕ) → Bool
  is_host h c r = elim (h.conns c).role [
    | as_daemon ↦ elim (h.heap r).host [ none ↦ false | some d ↦ d == c ]
    | as_client ↦ false
    | unset ↦ false
  ]

  unfoldable pub leave : (c r : ℕ) → Hub → Outcome
  leave c r h =
      let room = h.heap r in
      if is_host h c r
      then broadcast room.clients (presence_text p (h.conns c).device_id false)
          (set_room r (record room { host = none }) h)
      else done
          (set_room r (record room { clients = keep (λ other. not (other == c)) room.clients }) h)

  unfoldable pub reclaim : (c r : ℕ) → Hub → Hub
  reclaim c r h =
      let room = h.heap r in
      if not (is_some room.host) && not (ltb 0 (length room.clients))
      then record h { rooms = remove (h.conns c).device_id h.rooms }
      else h

  unfoldable pub unregister : (c r : ℕ) → Hub → Outcome
  unregister c r h = elim (leave c r h) [ done h' ↦ done (reclaim c r h') | panics h' ↦ panics h' ]

-- presence, for `/api/presence`.
unfoldable pub presence_of : String → Hub → Bool × ℕ
presence_of id h = elim (lookup id h.rooms) [
  | none ↦ (false, 0)
  | some r ↦ (is_some (h.heap r).host, length (h.heap r).clients)
]
