-- ===== src/Hub/Pump.antt =====
-- relay/main.go: readPump of every connection, between the locked parts of the hub, and writePump.
pub mod Limits
pub mod Placed
pub mod Made
pub mod Moves
pub mod Invariant
pub mod Isolation
pub mod Slow
pub mod Delivery
pub mod Race
mod Examples
use remote_agent.Common.{
  ℕ, zero, suc, ◌≡◌, String, Bool, true, false, not, ◌&&◌, Option, none, some, List, [], ◌∷◌, ◌==◌,
  nat_eq, string_eq, if◌then◌else◌,
}
use remote_agent.Common.Maps.{lookup}
use remote_agent.Platform.{Platform}
use remote_agent.Protocol.{Frame, daemon, error, pong}
use remote_agent.Hub.{
  Hub, Conn, Role, as_daemon, as_client, unset, Sent, queued, kicked, panicked, Outcome, done,
  panics, put, set_conn, shutdown, send_msg, find_or_make, has_key, refusal, register, join,
  forward, kick, unregister, new_hub,
}

-- envelope, as the first message of a connection.
pub record Envelope : Type 0 where
  pub t : String
  pub v : ℕ
  pub role : String
  pub device_id : String
  pub token : String

-- Where the goroutine of a connection is: at the first message, at the lock of a room in a method of the hub,
-- at its answer, in the loop, at the clients that kickClients tells and shuts one after the other, and in what
-- is deferred.
pub data Phase : Type 0 where
  greeting : Phase
  registering : (id token : String) (r : ℕ) → Phase
  joining : (id : String) (r : ℕ) → Phase
  answering : Frame → Phase
  reading : Phase
  forwarding : (r : ℕ) (raw : String) → Phase
  kicking : (r : ℕ) → Phase
  telling : List ℕ → Phase
  shutting : ℕ → List ℕ → Phase
  leaving : Phase
  leaving_at : (r : ℕ) → Phase
  gone : Phase

pub record System : Type 0 where
  pub hub : Hub
  pub phases : ℕ → Phase

abbrev pub started : String → System
started key = record { hub = new_hub key; phases = λ c. greeting }

-- isErr
abbrev pub is_err : Frame → Bool
is_err (daemon (error r code msg)) = true
is_err _ = false

abbrev pub at : ℕ → Phase → Hub → System → System
at c phase h s = record { hub = h; phases = put c phase s.phases }

-- What `return` and a panic lead to: the deferred function.
abbrev pub after : (c : ℕ) → Phase → Outcome → System → System
after c next (done h) s = at c next h s
after c next (panics h) s = at c leaving h s

abbrev pub sent_from : (c : ℕ) (next behind : Phase) → Sent → System → System
sent_from c next behind (queued h) s = at c next h s
sent_from c next behind (kicked h) s = at c behind h s
sent_from c next behind (panicked h) s = at c leaving h s

module _ (p : Platform) where
  -- An error is sent, and the connection ends.
  unfoldable pub refuses : (c : ℕ) (code msg : String) → System → System
  refuses c code msg s =
      sent_from c leaving leaving (send_msg c (p.stringify (refusal code msg)) s.hub) s

  unfoldable pub begin_register : (c : ℕ) → Envelope → System → System
  begin_register c e s =
      if has_key s.hub e.token
      then (let (h, r) = find_or_make e.device_id s.hub in
          at c (registering e.device_id e.token r) h s)
      else at c (answering (refusal "auth_failed" "relay key mismatch")) s.hub s

  unfoldable pub begin_join : (c : ℕ) → Envelope → System → System
  begin_join c e s = elim (lookup e.device_id s.hub.rooms) [
    | none ↦ at c (answering (refusal "device_offline" "no such device")) s.hub s
    | some r ↦ at c (joining e.device_id r) s.hub s
  ]

  -- The first message, or none where the read fails.
  unfoldable pub greet : (c : ℕ) → Option Envelope → System → System
  greet c none s = at c leaving s.hub s
  greet c (some e) s =
      if not (e.t == "hello")
      then refuses c "protocol_error" "first message must be hello" s
      else if not (e.v == 1)
      then refuses c "unsupported_version" "want proto v1" s
      else if e.device_id == ""
      then refuses c "auth_failed" "deviceId required" s
      else if e.role == "daemon" && e.token == ""
      then refuses c "auth_failed" "daemon token required" s
      else if e.role == "daemon"
      then begin_register c e s
      else if e.role == "client"
      then begin_join c e s
      else at c (answering (refusal "auth_failed" "role must be daemon or client")) s.hub s

  -- A reference to the room of the connection's device, where there is one.
  unfoldable pub with_room : (c : ℕ) (next : ℕ → Phase) → System → System
  with_room c next s = elim (lookup (s.hub.conns c).device_id s.hub.rooms) [
    | none ↦ s
    | some r ↦ at c (next r) s.hub s
  ]

  unfoldable pub begin_kick : ℕ → System → System
  begin_kick c s = elim (s.hub.conns c).role [
    | as_daemon ↦ with_room c kicking s
    | as_client ↦ s
    | unset ↦ s
  ]

  -- A text in the loop, with the type that it has if it is an envelope.
  unfoldable pub read : (c : ℕ) (raw : String) → Option String → System → System
  read c raw none s = with_room c (λ r. forwarding r raw) s
  read c raw (some t) s =
      if t == "ping"
      then sent_from c reading reading (send_msg c (p.stringify (daemon pong)) s.hub) s
      else if t == "kick"
      then begin_kick c s
      else if t == "hello"
      then s
      else with_room c (λ r. forwarding r raw) s

  -- kickClients: the list of the clients is taken under the lock, and each of them is told and then shut behind it.
  abbrev pub begin_telling : (c r : ℕ) → System → System
  begin_telling c r s = at c (telling (s.hub.heap r).clients) (kick p r s.hub) s

  abbrev pub tell_next : (c : ℕ) → List ℕ → System → System
  tell_next c [] s = at c reading s.hub s
  tell_next c (x ∷ xs) s =
      sent_from c (shutting x xs) (shutting x xs)
        (send_msg x (p.stringify (refusal "kicked" "viewer kicked by device")) s.hub) s

  abbrev pub shut_next : (c x : ℕ) → List ℕ → System → System
  shut_next c x xs s = at c (telling xs) (shutdown x s.hub) s

  -- The goroutine goes on.
  unfoldable pub proceed : (c : ℕ) → Phase → System → System
  proceed c (registering id token r) s =
      let (outcome, ack) = register p id token c r s.hub in after c (answering ack) outcome s
  proceed c (joining id r) s = let (h, ack) = join p id c r s.hub in at c (answering ack) h s
  proceed c (answering ack) s =
      sent_from c (if is_err ack then leaving else reading) leaving
        (send_msg c (p.stringify ack) s.hub) s
  proceed c (forwarding r raw) s = after c reading (forward p c r raw s.hub) s
  proceed c (kicking r) s = begin_telling c r s
  proceed c (telling xs) s = tell_next c xs s
  proceed c (shutting x xs) s = shut_next c x xs s
  proceed c leaving s = elim (lookup (s.hub.conns c).device_id s.hub.rooms) [
    | none ↦ at c gone (shutdown c s.hub) s
    | some r ↦ at c (leaving_at r) s.hub s
  ]
  proceed c (leaving_at r) s = elim (unregister p c r s.hub) [
    | done h ↦ at c gone (shutdown c h) s
    | panics h ↦ at c gone h s
  ]
  proceed c _ s = s

-- writePump: the next text is written, or cannot be.
unfoldable pub drain : (c : ℕ) → List String → System → System
drain c [] s = s
drain c (text ∷ rest) s = record s {
  hub = set_conn c (record (s.hub.conns c) { queue = rest }) s.hub;
}

pub data Input : Type 0 where
  greets : (c : ℕ) → Option Envelope → Input
  texts : (c : ℕ) (raw : String) → Option String → Input
  read_fails : (c : ℕ) → Input
  proceeds : (c : ℕ) → Input
  drains : (c : ℕ) → Input
  write_fails : (c : ℕ) → Input

module _ (p : Platform) where
  abbrev pub is_reading : Phase → Bool
  is_reading reading = true
  is_reading _ = false

  abbrev pub is_greeting : Phase → Bool
  is_greeting greeting = true
  is_greeting _ = false

  unfoldable pub step : Input → System → System
  step (greets c e) s = if is_greeting (s.phases c) then greet p c e s else s
  step (texts c raw t) s = if is_reading (s.phases c) then read p c raw t s else s
  step (read_fails c) s = if is_reading (s.phases c) then at c leaving s.hub s else s
  step (proceeds c) s = proceed p c (s.phases c) s
  step (drains c) s = drain c (s.hub.conns c).queue s
  step (write_fails c) s = record s { hub = shutdown c s.hub }

  pub data Reach (key : String) : System → Type 0 where
    start : Reach key (started key)
    next : {s : System} (i : Input) → Reach key s → Reach key (step i s)
