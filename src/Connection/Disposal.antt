-- ===== src/Connection/Disposal.antt =====
-- `close()` is for good: a disposed connection opens no socket and reports neither a new attempt nor
-- a loss, so nothing makes its owner try again.
use remote_agent.Common.{
  ℕ, ◌≡◌, refl, ◌∙◌, true, Option, none, some, List, [], ◌∷◌, All, All-append, nat_eq, arith,
}
use remote_agent.Platform.{Platform}
use remote_agent.Protocol.{ClientMsg}
use remote_agent.Connection.{
  Connection, Event, connecting, ready, disconnected, on_status, created, shut_socket, shut_events,
  connect, reconnect, close, send, keepalive_tick, request, socket_opened, socket_closed,
  socket_failed,
}
use remote_agent.Connection.Dispatch.{drawing, Setting}
use remote_agent.Connection.Frames.{IsQuiet, socket_message-IsFine}
use remote_agent.Connection.Steps.{
  Input, connects, reconnects, closes, requests, sends, ticks, opens, closed_by, failed_by, message,
  step, Runs, start, next, Keeps, socket_message_keeps,
}

-- No socket is opened, and no attempt or loss is reported.
abbrev pub IsStill : {K : Type 0} → Event K → Type 0
IsStill (created id) = ⊥
IsStill (on_status connecting) = ⊥
IsStill (on_status disconnected) = ⊥
IsStill _ = Unit

shut_events-IsStill : (K : Type 0) (ws : Option ℕ) → All IsStill (shut_events {K = K} ws)
shut_events-IsStill K none = tt
shut_events-IsStill K (some id) = (tt, tt)

module _ {K : Type 0} where
  quiet-IsStill : (p : Platform) (e : Event K) → IsQuiet p e → IsStill e
  quiet-IsStill p (created id) q = q
  quiet-IsStill p (on_status connecting) q = q
  quiet-IsStill p (on_status ready) q = tt
  quiet-IsStill p (on_status disconnected) q = q
  quiet-IsStill p _ q = tt

  All-IsStill : (p : Platform) (es : List (Event K)) → All (IsQuiet p) es → All IsStill es
  All-IsStill p [] h = tt
  All-IsStill p (e ∷ es) h = (quiet-IsStill p e h.0, All-IsStill p es h.1)

  connect_disposed : (c : Connection K) → c.disposed ≡ true → connect c ≡ (c, [])
  unfolding connect
  connect_disposed c e = ground arith

  reconnect_disposed : (c : Connection K) → c.disposed ≡ true → reconnect c ≡ (c, [])
  unfolding reconnect
  reconnect_disposed c e = ground arith

  -- What `close()` leaves of a socket's state, and the flag, stay.
  abbrev pub IsGone : ℕ → Connection K → Type 0
  IsGone n c = (c.disposed ≡ true) × (c.sockets ≡ n)

  pub shut_socket-IsGone :
      (n : ℕ) (ws : Option ℕ) (c : Connection K) → IsGone n c → IsGone n (shut_socket ws c)
  shut_socket-IsGone n none c h = h
  shut_socket-IsGone n (some id) c h = h

  frame_IsGone : (n : ℕ) → Keeps (IsGone n)
  frame_IsGone n = record {
    keeps_pending = λ c r h. h;
    keeps_e2e = λ c e k h. h;
    keeps_shut = λ c h. shut_socket-IsGone n c.ws c h;
  }

  socket_closed-IsGone :
      (id : ℕ) (c : Connection K)
      → c.disposed ≡ true
      → IsGone c.sockets (socket_closed id c).0 × All IsStill (socket_closed id c).1
  unfolding socket_closed
  socket_closed-IsGone id c h = ground arith

module _ {K : Type 0} (p : Platform) where
  send-IsStill :
      (c : Connection K) (msg : ClientMsg) (nonce : List ℕ) → All IsStill (send p c msg nonce)
  unfolding send
  send-IsStill c msg nonce = ground arith

  tick-IsStill : (c : Connection K) → All IsStill (keepalive_tick p c)
  unfolding keepalive_tick
  tick-IsStill c = ground arith

module _ {K : Type 0} (p : Platform) (s : Setting) where
  pub step-IsGone :
      (i : Input K) (c : Connection K)
      → c.disposed ≡ true
      → IsGone c.sockets (step p s i c).0 × All IsStill (step p s i c).1
  unfolding step close request socket_opened socket_failed
  step-IsGone connects c h = rw (connect_disposed c h) ((h, refl), tt)
  step-IsGone reconnects c h = rw (reconnect_disposed c h) ((h, refl), tt)
  step-IsGone closes c h =
      (shut_socket-IsGone c.sockets c.ws _ (refl, refl), shut_events-IsStill K c.ws)
  step-IsGone (requests k msg nonce) c h = ((h, refl), send-IsStill p _ _ nonce)
  step-IsGone (sends msg nonce) c h = ((h, refl), send-IsStill p c msg nonce)
  step-IsGone ticks c h = ((h, refl), tick-IsStill p c)
  step-IsGone (opens id) c h = ((h, refl), send-IsStill p _ _ [])
  step-IsGone (closed_by id) c h = socket_closed-IsGone id c h
  step-IsGone (failed_by id) c h = ((h, refl), (tt, tt))
  step-IsGone (message id fuel raw draw) c h = (
    socket_message_keeps p (drawing s draw) (IsGone c.sockets) (frame_IsGone c.sockets) fuel raw c
        (h, refl),
    All-IsStill p _ (socket_message-IsFine p (drawing s draw) fuel raw c).quiet,
  )

  -- After `close()`, whatever is called and whatever the browser reports: the connection stays
  -- disposed, opens no socket, and reports neither a new attempt nor a loss.
  pub Runs_disposed :
      {c d : Connection K} {events : List (Event K)}
      → c.disposed ≡ true
      → Runs p s c d events
      → (d.disposed ≡ true) × (d.sockets ≡ c.sockets) × All IsStill events
  Runs_disposed h start = (h, refl, tt)
  Runs_disposed {c} h (next {d} {events} i r a) =
      let (gone, same, still) = Runs_disposed h r in
      let ((gone', same'), still') = step-IsGone i d gone in
      (gone', same' ∙ same, All-append IsStill events (step p s i d).1 still still')
