-- ===== src/Connection/Steps.antt =====
-- Everything that can happen to a connection, as one step of its caller or of the browser; what a
-- received frame can change; and the connections that a history of steps reaches.
use remote_agent.Common.{
  ℕ, zero, suc, ◌≡◌, ◌≢◌, String, true, Option, inl, inr, List, [], ◌++◌, nat_eq, or_else,
  Option-cases, Bool-cases,
}
use remote_agent.Common.Maps.{lookup, remove}
use remote_agent.Platform.{Platform}
use remote_agent.Protocol.{
  Frame, ClientMsg, enc, daemon, DaemonMsg, hello_ack, auth_ok, presence, agent_status,
  session_exited, snapshot, output, error, frame_req_id,
}
use remote_agent.Protocol.Codec.{b64decode}
use remote_agent.E2e.{E2eClient, established, finish, open_envelope}
use remote_agent.E2e.Handshake.{finish-established, proof_message-established}
use remote_agent.E2e.Results.{Result-cases}
use remote_agent.Connection.{
  Connection, Event, ReadyState, opening, opened, closing, closed, Request, truthy, shut_socket,
  new_connection, connect, reconnect, close, request, send, keepalive_tick, socket_opened,
  socket_closed, socket_failed,
}
use remote_agent.Connection.Dispatch.{
  Outcome, done, thrown, out_of_fuel, Setting, drawing, answer, send_text, caught, on_hello_ack,
  on_auth_ok, on_daemon, on_frame, dispatch, logged_outcome, socket_message,
}

-- `requests` and `sends` draw a nonce, `ticks` is the keepalive interval, and `message` has the fuel of
-- its `dispatch` and the private key that is drawn if the message asks for a proof.
pub data Input (K : Type 0) : Type 0 where
  connects reconnects closes : Input K
  requests : K → Request → List ℕ → Input K
  sends : ClientMsg → List ℕ → Input K
  ticks : Input K
  opens closed_by failed_by : ℕ → Input K
  message : ℕ → ℕ → String → List ℕ → Input K

-- The browser opens a socket that is opening, delivers on one that is open, and reports no socket
-- again that is closed.
abbrev pub Allowed : {K : Type 0} → Connection K → Input K → Type 0
Allowed c (opens id) = c.states id ≡ opening
Allowed c (message id fuel raw draw) = c.states id ≡ opened
Allowed c (closed_by id) = c.states id ≢ closed
Allowed c (failed_by id) = c.states id ≢ closed
Allowed c _ = Unit

module _ {K : Type 0} (p : Platform) (s : Setting) where
  unfoldable pub step : Input K → Connection K → Connection K × List (Event K)
  step connects c = connect c
  step reconnects c = reconnect c
  step closes c = close c
  step (requests k msg nonce) c = request p k msg nonce c
  step (sends msg nonce) c = (c, send p c msg nonce)
  step ticks c = (c, keepalive_tick p c)
  step (opens id) c = socket_opened p s.hello id c
  step (closed_by id) c = socket_closed id c
  step (failed_by id) c = socket_failed id c
  step (message id fuel raw draw) c = socket_message p (drawing s draw) fuel raw c

  -- What a history of steps makes of a connection, and all that it does to the outside.
  pub data Runs (c : Connection K) : Connection K → List (Event K) → Type 0 where
    start : Runs c c []
    next :
        {d : Connection K} {events : List (Event K)} (i : Input K)
        → Runs c d events
        → Allowed d i
        → Runs c (step i d).0 (events ++ (step i d).1)

  abbrev pub Reach : Connection K → List (Event K) → Type 0
  Reach = Runs new_connection

-- What a frame can do to a connection: take a request from the table, change the handshake's state
-- without losing a session key, and close the socket.
pub record Keeps {K : Type 0} (P : Connection K → Type 0) : Type 0 where
  pub keeps_pending :
      (c : Connection K) (r : ℕ) → P c → P (record c { pending = remove r c.pending })
  pub keeps_e2e :
      (c : Connection K) (e : E2eClient)
      → (established c.e2e ≡ true → established e ≡ true)
      → P c
      → P (record c { e2e = e })
  pub keeps_shut : (c : Connection K) → P c → P (shut_socket c.ws c)

abbrev pub After : {K : Type 0} → (Connection K → Type 0) → Outcome K → Type 0
After P (done c events) = P c
After P (thrown c events) = P c
After P out_of_fuel = Unit

module _ {K : Type 0} (P : Connection K → Type 0) (keeps : Keeps P) where
  answer_keeps :
      (c : Connection K) (f : Frame) (events : List (Event K)) → P c → After P (answer c f events)
  unfolding answer
  answer_keeps c f events h = elim (Option-cases (frame_req_id f)) [
    | inl e ↦ rw (e, answer) h
    | inr (r, e) ↦ elim (Option-cases (lookup r c.pending)) [
      | inl e' ↦ rw (e, answer, e') h
      | inr (k, e') ↦ rw (e, answer, e') (keeps.keeps_pending c r h)
    ]
  ]

  caught_keeps : (o : Outcome K) → After P o → After P (caught o)
  unfolding caught
  caught_keeps (done c events) h = h
  caught_keeps (thrown c events) h = h
  caught_keeps out_of_fuel h = h

  send_text_keeps :
      (state : ReadyState) (id : ℕ) (text : String) (c : Connection K)
      → P c
      → After P (send_text state id text c)
  unfolding send_text
  send_text_keeps opening id text c h = h
  send_text_keeps opened id text c h = h
  send_text_keeps closing id text c h = h
  send_text_keeps closed id text c h = h

module _ {K : Type 0} (p : Platform) (s : Setting) (P : Connection K → Type 0)
    (keeps : Keeps P) where
  on_hello_ack_keeps : (c : Connection K) → P c → After P (on_hello_ack p s c)
  unfolding on_hello_ack
  on_hello_ack_keeps c h = elim (Option-cases (truthy s.hello.token)) [
    | inl e ↦ rw (e, on_hello_ack) h
    | inr (token, e) ↦ elim (Option-cases c.ws) [
      | inl e' ↦ rw (e, on_hello_ack, e') h
      | inr (id, e') ↦
          rw (e, on_hello_ack, e')
            (send_text_keeps P keeps _ id _ _
              (keeps.keeps_e2e c _ (proof_message-established p c.e2e token s.draw) h))
    ]
  ]

  on_auth_ok_keeps :
      (c : Connection K) (pub_key mac : Option String)
      → P c
      → After P (on_auth_ok p s c pub_key mac)
  unfolding on_auth_ok
  on_auth_ok_keeps c pub_key mac h =
      let answer =
        finish p c.e2e (or_else s.hello.token "") (or_else pub_key "") (or_else mac "") in
      elim (Result-cases answer) [
        | inl (e2e, e) ↦
            rw (e, on_auth_ok)
              (keeps.keeps_e2e c e2e (λ _. finish-established p c.e2e e2e _ _ _ e) h)
        | inr (x, e) ↦ rw (e, on_auth_ok) (keeps.keeps_shut c h)
      ]

  on_daemon_keeps : (c : Connection K) (m : DaemonMsg) → P c → After P (on_daemon p s c m)
  unfolding on_daemon
  on_daemon_keeps c (hello_ack id) h = on_hello_ack_keeps c h
  on_daemon_keeps c (auth_ok pub_key mac) h = on_auth_ok_keeps c pub_key mac h
  on_daemon_keeps c (snapshot sid seq data64) h = elim (Option-cases (b64decode p data64)) [
    | inl e ↦ rw (e, on_daemon) h
    | inr (bytes, e) ↦ rw (e, on_daemon) h
  ]
  on_daemon_keeps c (output sid seq data64) h = elim (Option-cases (b64decode p data64)) [
    | inl e ↦ rw (e, on_daemon) h
    | inr (bytes, e) ↦ rw (e, on_daemon) h
  ]
  on_daemon_keeps c (presence id online) h = h
  on_daemon_keeps c (agent_status sid agent status detail) h = h
  on_daemon_keeps c (session_exited sid code) h = h
  on_daemon_keeps c (error r code msg) h = answer_keeps P keeps c _ _ h
  on_daemon_keeps c m h = answer_keeps P keeps c (daemon m) [] h

  on_frame_keeps :
      (inner : Connection K → String → Outcome K) (c : Connection K) (raw : String) (f : Frame)
      → ((text : String) → After P (inner c text))
      → P c
      → After P (on_frame p s inner c raw f)
  unfolding on_frame
  on_frame_keeps inner c raw (enc nn ct) ih h = elim (Bool-cases (established c.e2e)) [
    | inr before ↦ rw (before, on_frame) h
    | inl after ↦ elim (Result-cases (open_envelope p c.e2e raw)) [
      | inl (text, e) ↦ rw (after, on_frame, e) (caught_keeps P keeps _ (ih text))
      | inr (x, e) ↦ rw (after, on_frame, e) h
    ]
  ]
  on_frame_keeps inner c raw (daemon m) ih h = on_daemon_keeps c m h
  on_frame_keeps inner c raw f ih h = answer_keeps P keeps c f [] h

  dispatch_keeps :
      (fuel : ℕ) (c : Connection K) (raw : String) → P c → After P (dispatch p s fuel c raw)
  unfolding dispatch
  dispatch_keeps zero c raw h = tt
  dispatch_keeps (suc fuel) c raw h = elim (Option-cases (p.parse raw)) [
    | inl e ↦ rw (e, dispatch) h
    | inr (f, e) ↦
        rw (e, dispatch)
          (on_frame_keeps (dispatch p s fuel) c raw f (λ text. dispatch_keeps fuel c text h) h)
  ]

  logged_outcome_keeps :
      (c : Connection K) (o : Outcome K) → P c → After P o → P (logged_outcome c o).0
  unfolding logged_outcome
  logged_outcome_keeps c (done c' events) h k = k
  logged_outcome_keeps c (thrown c' events) h k = k
  logged_outcome_keeps c out_of_fuel h k = h

  -- A received frame keeps whatever its parts keep.
  pub socket_message_keeps :
      (fuel : ℕ) (raw : String) (c : Connection K) → P c → P (socket_message p s fuel raw c).0
  unfolding socket_message
  socket_message_keeps fuel raw c h =
      logged_outcome_keeps c (dispatch p s fuel c raw) h (dispatch_keeps fuel c raw h)
