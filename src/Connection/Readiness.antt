-- ===== src/Connection/Readiness.antt =====
-- When a connection is called ready, what the first message of a socket gives away, and what the
-- encrypted channel does not refuse.
use remote_agent.Common.{
  length, ℕ, suc, ◌≡◌, ◌≢◌, refl, ap, ◌⊎◌, inl, inr, String, true, false, ◌||◌, Option, none, some,
  List, [], ◌∷◌, ◌++◌, Bool-cases, string_eq, ==_ne, ==_refl, is_some, All, if_both, nat_eq, arith,
}
use remote_agent.Platform.{Platform, IsByte, IsStandard}
use remote_agent.Protocol.{client, ClientMsg, hello}
use remote_agent.E2e.{E2eClient, established, seal, open_envelope}
use remote_agent.E2e.Envelope.{open_envelope-seal, parse-seal}
use remote_agent.E2e.Results.{ok}
use remote_agent.Connection.{
  Connection, Event, sent, shut_socket, shut_events, truthy, wire, connect, reconnect, close, send,
  request, socket_opened, socket_closed, socket_failed, opening, keepalive_tick,
}
use remote_agent.Connection.Dispatch.{drawing, Setting, caught, on_frame, dispatch}
use remote_agent.Connection.Frames.{says_ready, socket_message-IsFine}
use remote_agent.Connection.Sockets.{is_live, Reach-IsSingle}
use remote_agent.Connection.Secrecy.{step-IsKeyed}
use remote_agent.Connection.Steps.{
  Input, connects, reconnects, closes, requests, sends, ticks, opens, closed_by, failed_by, message,
  step, Reach, start, next,
}

module _ {K : Type 0} where
  says_ready-append_or :
      (es fs : List (Event K)) → says_ready (es ++ fs) ≡ (says_ready es || says_ready fs)
  says_ready-append_or [] fs = refl
  says_ready-append_or (e ∷ es) fs = ground (arith, says_ready-append_or es fs)

shut_events_silent : (K : Type 0) (ws : Option ℕ) → says_ready (shut_events {K = K} ws) ≡ false
shut_events_silent K none = refl
shut_events_silent K (some id) = refl

module _ {K : Type 0} where
  connect_silent : (c : Connection K) → says_ready (connect c).1 ≡ false
  unfolding connect
  connect_silent c = ground arith

  reconnect_silent : (c : Connection K) → says_ready (reconnect c).1 ≡ false
  unfolding reconnect
  reconnect_silent c =
      if_both (λ (r : Connection K × List (Event K)). says_ready r.1 ≡ false) c.disposed _ _ refl
        (ground (
          arith,
          says_ready-append_or (shut_events c.ws)
              (connect (shut_socket c.ws (record c { ws = none }))).1,
          shut_events_silent K c.ws,
          connect_silent (shut_socket c.ws (record c { ws = none })),
        ))

  socket_closed_silent : (id : ℕ) (c : Connection K) → says_ready (socket_closed id c).1 ≡ false
  unfolding socket_closed
  socket_closed_silent id c = ground arith

  send_silent :
      (p : Platform) (c : Connection K) (msg : ClientMsg) (nonce : List ℕ)
      → says_ready (send p c msg nonce) ≡ false
  unfolding send
  send_silent p c msg nonce = ground arith

  tick_silent : (p : Platform) (c : Connection K) → says_ready (keepalive_tick p c) ≡ false
  unfolding keepalive_tick
  tick_silent p c = ground arith

module _ {K : Type 0} (p : Platform) (s : Setting) where
  abbrev IsEarned : Connection K → Type 0
  IsEarned c = (truthy s.hello.token ≡ none) ⊎ (established c.e2e ≡ true)

  step_ready :
      (i : Input K) (c : Connection K)
      → says_ready (step p s i c).1 ≡ true
      → IsEarned (step p s i c).0
  unfolding step close request socket_opened socket_failed
  step_ready connects c h = cc (connect_silent c)
  step_ready reconnects c h = cc (reconnect_silent c)
  step_ready closes c h = cc (shut_events_silent K c.ws)
  step_ready (requests k msg nonce) c h = cc (send_silent p _ _ nonce)
  step_ready (sends msg nonce) c h = cc (send_silent p c msg nonce)
  step_ready ticks c h = cc (tick_silent p c)
  step_ready (opens id) c h = cc (send_silent p _ _ [])
  step_ready (closed_by id) c h = cc (socket_closed_silent id c)
  step_ready (failed_by id) c h = cc
  step_ready (message id fuel raw draw) c h =
      (socket_message-IsFine p (drawing s draw) fuel raw c).earned h

  -- A connection that has a token and was ever called ready has a session key: it passed the
  -- daemon's authentication.
  pub Reach-ready :
      {c : Connection K} {events : List (Event K)}
      → Reach p s c events
      → says_ready events ≡ true
      → (truthy s.hello.token ≡ none) ⊎ (established c.e2e ≡ true)
  Reach-ready start h = cc
  Reach-ready (next {d} {events} i r a) h = elim (Bool-cases (says_ready (step p s i d).1)) [
    | inl now ↦ step_ready i d now
    | inr later ↦ kept (Reach-ready r (before later))
  ]
    where
      before : says_ready (step p s i d).1 ≡ false → says_ready events ≡ true
      before e = ground (arith, says_ready-append_or events (step p s i d).1)

      kept : IsEarned d → IsEarned (step p s i d).0
      kept (inl e) = inl e
      kept (inr e) = inr (step-IsKeyed p s i d e)

  -- Where a socket that history has brought about opens, the access token is in the first text that
  -- is sent on it, for the relay to read.
  pub hello_reveals_token :
      {c : Connection K} {events : List (Event K)}
      → IsStandard p
      → Reach p s c events
      → (id : ℕ) → c.states id ≡ opening
      → (t : String) → s.hello.token ≡ some t
      → t ≢ ""
      → (w : String) × ((step p s (opens id) c).1 ≡ sent id w ∷ [])
        × (p.parse w ≡ some (client (hello s.hello.device_id (some t))))
  unfolding step socket_opened send wire
  hello_reveals_token {c} std r id opens_now t e nonempty =
      let current = (Reach-IsSingle p s r).live id (ap is_live opens_now) in
      let there : truthy s.hello.token ≡ some t = rw (e, ==_ne t "" nonempty) in
      (
        p.stringify (client (hello s.hello.device_id (some t))),
        ground (arith, current, there, ==_refl id),
        std.parse-stringify _ refl,
      )

  -- An envelope that the other holder of the session key of 32 bytes has sealed, with a nonce of twelve bytes,
  -- has the effect of the text that it holds when that comes in the clear after the handshake, but for an
  -- exception: what is thrown while the envelope's text is handled becomes an error of the code decrypt_failed,
  -- where in the clear it is thrown.
  pub dispatch-seal :
      (std : IsStandard p) (c : Connection K) (peer : E2eClient) (key nonce : List ℕ)
      (text envelope : String) (fuel : ℕ)
      → c.e2e.key ≡ some key
      → peer.key ≡ some key
      → length key ≡ 32
      → length nonce ≡ 12
      → All IsByte nonce
      → p.utf8_decode (p.utf8_encode text) ≡ text
      → seal p peer text nonce ≡ ok envelope
      → dispatch p s (suc fuel) c envelope ≡ caught (dispatch p s fuel c text)
  unfolding dispatch on_frame
  dispatch-seal std c peer key nonce text envelope fuel e e' hk hn bytes u sealed =
      let opens_to = open_envelope-seal p std peer c.e2e key nonce text e' e hk hn bytes u in
      let opened_text : open_envelope p c.e2e envelope ≡ ok text = rw sealed at opens_to in
      let (nn, ct, parsed) = parse-seal p std peer text nonce envelope sealed in
      rw (parsed, dispatch, ap is_some e, opened_text)
