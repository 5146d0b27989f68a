-- ===== src/Connection/Secrecy.antt =====
-- What leaves the client in the clear, when a connection is called ready, and what the handshake
-- does not protect.
use remote_agent.Common.{
  ℕ, ◌≡◌, refl, ap, ◌∙◌, inl, inr, String, true, Option, none, some, List, [], ◌∷◌, All, All-append,
  Bool-cases, Option-cases, string_eq, if_both, nat_eq, arith,
}
use remote_agent.Platform.{Platform}
use remote_agent.Protocol.{client, enc, ClientMsg, hello, ping}
use remote_agent.Protocol.Codec.{b64}
use remote_agent.E2e.{E2eClient, established, seal}
use remote_agent.E2e.Results.{ok, Result-cases}
use remote_agent.Connection.{
  Connection, Event, sent, shut_socket, shut_events, is_cleartext, wire, connect, reconnect, close,
  send, request, keepalive_tick, socket_opened, socket_closed, socket_failed, is_opened,
}
use remote_agent.Connection.Dispatch.{drawing, Setting}
use remote_agent.Connection.Frames.{is_public, IsPublic, IsQuiet, socket_message-IsFine}
use remote_agent.Connection.Steps.{
  Input, connects, reconnects, closes, requests, sends, ticks, opens, closed_by, failed_by, message,
  step, Runs, start, next, Keeps, socket_message_keeps,
}

-- Only public frames are sent.
abbrev pub IsGuarded : {K : Type 0} → Platform → Event K → Type 0
IsGuarded p (sent id w) = IsPublic p w
IsGuarded p _ = Unit

cleartext_public : (msg : ClientMsg) → is_cleartext msg ≡ true → is_public (client msg) ≡ true
cleartext_public (hello id token) h = refl
cleartext_public ping h = refl
cleartext_public _ h = cc

module _ (p : Platform) where
  seal-IsPublic :
      (c : E2eClient) (text : String) (nonce : List ℕ) (w : String)
      → seal p c text nonce ≡ ok w
      → IsPublic p w
  unfolding seal
  seal-IsPublic c text nonce w e = elim (Option-cases c.key) [
    | inl lost ↦ absurd (ground arith)
    | inr (key, found) ↦
        let ct = p.encrypt key nonce (p.utf8_encode text) in
        (enc (b64 p nonce) (b64 p ct), ground arith, refl)
  ]

shut_events-IsGuarded :
    (K : Type 0) (p : Platform) (ws : Option ℕ) → All (IsGuarded p) (shut_events {K = K} ws)
shut_events-IsGuarded K p none = tt
shut_events-IsGuarded K p (some id) = (tt, tt)

module _ {K : Type 0} (p : Platform) where
  quiet-IsGuarded : (e : Event K) → IsQuiet p e → IsGuarded p e
  quiet-IsGuarded (sent id w) q = q
  quiet-IsGuarded _ q = tt

  All-IsGuarded : (es : List (Event K)) → All (IsQuiet p) es → All (IsGuarded p) es
  All-IsGuarded [] h = tt
  All-IsGuarded (e ∷ es) h = (quiet-IsGuarded e h.0, All-IsGuarded es h.1)

  -- With a session key every text that `send` makes is an envelope or of a cleartext type.
  wire-IsPublic :
      (c : Connection K) (msg : ClientMsg) (nonce : List ℕ) (w : String)
      → established c.e2e ≡ true
      → wire p c msg nonce ≡ ok w
      → IsPublic p w
  unfolding wire
  wire-IsPublic c msg nonce w h e = elim (Bool-cases (is_cleartext msg)) [
    | inl clear ↦ (client msg, ground arith, cleartext_public msg clear)
    | inr hidden ↦ seal-IsPublic p c.e2e (p.stringify (client msg)) nonce w (ground arith)
  ]

  send-IsGuarded :
      (c : Connection K) (msg : ClientMsg) (nonce : List ℕ)
      → established c.e2e ≡ true
      → All (IsGuarded p) (send p c msg nonce)
  unfolding send
  send-IsGuarded c msg nonce h = elim (Option-cases c.ws) [
    | inl e ↦ rw (e, send) tt
    | inr (id, e) ↦ elim (Bool-cases (is_opened (c.states id))) [
      | inr shut ↦ rw (e, send, shut) tt
      | inl up ↦ elim (Result-cases (wire p c msg nonce)) [
        | inl (w, e') ↦ rw (e, send, up, e') (wire-IsPublic c msg nonce w h e', tt)
        | inr (x, e') ↦ rw (e, send, up, e') tt
      ]
    ]
  ]

  tick-IsGuarded : (c : Connection K) → All (IsGuarded p) (keepalive_tick p c)
  unfolding keepalive_tick
  tick-IsGuarded c = elim (Option-cases c.ws) [
    | inl e ↦ rw (e, keepalive_tick) tt
    | inr (id, e) ↦ elim (Bool-cases (is_opened (c.states id))) [
      | inr shut ↦ rw (e, keepalive_tick, shut) tt
      | inl up ↦ rw (e, keepalive_tick, up) ((client ping, refl, refl), tt)
    ]
  ]

  connect-IsGuarded : (c : Connection K) → All (IsGuarded p) (connect c).1
  unfolding connect
  connect-IsGuarded c = ground arith

  reconnect-IsGuarded : (c : Connection K) → All (IsGuarded p) (reconnect c).1
  unfolding reconnect
  reconnect-IsGuarded c =
      if_both (λ (r : Connection K × List (Event K)). All (IsGuarded p) r.1) c.disposed _ _ tt
        (All-append (IsGuarded p) (shut_events c.ws) _ (shut_events-IsGuarded K p c.ws)
          (connect-IsGuarded _))

  socket_closed-IsGuarded : (id : ℕ) (c : Connection K) → All (IsGuarded p) (socket_closed id c).1
  unfolding socket_closed
  socket_closed-IsGuarded id c = ground arith

module _ {K : Type 0} where
  abbrev pub IsKeyed : Connection K → Type 0
  IsKeyed c = established c.e2e ≡ true

  shut_socket_e2e : (ws : Option ℕ) (c : Connection K) → (shut_socket ws c).e2e ≡ c.e2e
  shut_socket_e2e none c = refl
  shut_socket_e2e (some id) c = refl

  frame_IsKeyed : Keeps IsKeyed
  frame_IsKeyed = record {
    keeps_pending = λ c r h. h;
    keeps_e2e = λ c e k h. k h;
    keeps_shut = λ c h. ap established (shut_socket_e2e c.ws c) ∙ h;
  }

  connect_e2e : (c : Connection K) → (connect c).0.e2e ≡ c.e2e
  unfolding connect
  connect_e2e c = ground arith

  reconnect_e2e : (c : Connection K) → (reconnect c).0.e2e ≡ c.e2e
  unfolding reconnect
  reconnect_e2e c =
      if_both (λ (r : Connection K × List (Event K)). r.0.e2e ≡ c.e2e) c.disposed _ _ refl
        (connect_e2e _ ∙ shut_socket_e2e c.ws (record c { ws = none }))

  socket_closed_e2e : (id : ℕ) (c : Connection K) → (socket_closed id c).0.e2e ≡ c.e2e
  unfolding socket_closed
  socket_closed_e2e id c = ground arith

module _ {K : Type 0} (p : Platform) (s : Setting) where
  pub step-IsKeyed : (i : Input K) (c : Connection K) → IsKeyed c → IsKeyed (step p s i c).0
  unfolding step close request socket_opened socket_failed
  step-IsKeyed connects c h = ap established (connect_e2e c) ∙ h
  step-IsKeyed reconnects c h = ap established (reconnect_e2e c) ∙ h
  step-IsKeyed closes c h = ap established (shut_socket_e2e c.ws _) ∙ h
  step-IsKeyed (requests k msg nonce) c h = h
  step-IsKeyed (sends msg nonce) c h = h
  step-IsKeyed ticks c h = h
  step-IsKeyed (opens id) c h = h
  step-IsKeyed (closed_by id) c h = ap established (socket_closed_e2e id c) ∙ h
  step-IsKeyed (failed_by id) c h = h
  step-IsKeyed (message id fuel raw draw) c h =
      socket_message_keeps p (drawing s draw) IsKeyed frame_IsKeyed fuel raw c h

  step-IsGuarded : (i : Input K) (c : Connection K) → IsKeyed c → All (IsGuarded p) (step p s i c).1
  unfolding step close request socket_opened socket_failed
  step-IsGuarded connects c h = connect-IsGuarded p c
  step-IsGuarded reconnects c h = reconnect-IsGuarded p c
  step-IsGuarded closes c h = shut_events-IsGuarded K p c.ws
  step-IsGuarded (requests k msg nonce) c h = send-IsGuarded p _ _ nonce h
  step-IsGuarded (sends msg nonce) c h = send-IsGuarded p _ _ nonce h
  step-IsGuarded ticks c h = tick-IsGuarded p c
  step-IsGuarded (opens id) c h = send-IsGuarded p _ _ [] h
  step-IsGuarded (closed_by id) c h = socket_closed-IsGuarded p id c
  step-IsGuarded (failed_by id) c h = (tt, tt)
  step-IsGuarded (message id fuel raw draw) c h =
      All-IsGuarded p _ (socket_message-IsFine p (drawing s draw) fuel raw c).quiet

  -- From the moment that a session key is there, through every later step, reconnections included, a
  -- session key stays there and all that is sent are envelopes, pings, hellos and proofs.
  pub Runs-IsGuarded :
      {c d : Connection K} {events : List (Event K)}
      → established c.e2e ≡ true
      → Runs p s c d events
      → (established d.e2e ≡ true) × All (IsGuarded p) events
  Runs-IsGuarded h start = (h, tt)
  Runs-IsGuarded h (next {d} {events} i r a) =
      let (keyed, guarded) = Runs-IsGuarded h r in
      (
        step-IsKeyed i d keyed,
        All-append (IsGuarded p) events (step p s i d).1 guarded (step-IsGuarded i d keyed),
      )
