-- ===== src/Connection/Dispatch.antt =====
-- `dispatch` of web/src/lib/daemon.ts and the `onmessage` round it. An envelope may hold an
-- envelope, so `dispatch` takes fuel; `Connection.Depth` says how much is enough.
use remote_agent.Common.{
  ℕ, zero, suc, String, not, Option, none, some, or_else, List, [], ◌∷◌, ◌++◌, if◌then◌else◌,
}
use remote_agent.Common.Maps.{lookup, remove}
use remote_agent.Common.{nat_eq}
use remote_agent.Platform.{Platform}
use remote_agent.Protocol.{
  Frame, daemon, enc, DaemonMsg, hello_ack, presence, auth_ok, output, snapshot, agent_status,
  session_exited, error, frame_req_id,
}
use remote_agent.Protocol.Codec.{b64decode}
use remote_agent.E2e.{established, proof_message, finish, open_envelope}
use remote_agent.E2e.Results.{E2eError, ok, err}
use remote_agent.Connection.{
  Connection, Event, HelloFields, ready, opening, opened, closing, closed, ReadyState, on_status,
  on_presence, on_snapshot, on_output, on_agent_status, on_exited, on_error, sent, resolved, logged,
  truthy, shut_socket, shut_events,
}

-- `thrown` keeps what was done before the exception.
pub data Outcome (K : Type 0) : Type 0 where
  done : Connection K → List (Event K) → Outcome K
  thrown : Connection K → List (Event K) → Outcome K
  out_of_fuel : Outcome K

-- What a call from outside needs besides the state: the hello fields, the text `String(e)` of an
-- exception, and the private key that `proofMessage` draws while the one message is handled.
pub record Setting : Type 0 where
  pub hello : HelloFields
  pub text_of : E2eError → String
  pub draw : List ℕ

abbrev pub drawing : Setting → List ℕ → Setting
drawing s draw = record s { draw = draw }

module _ {K : Type 0} where
  -- The end of `dispatch`: the request that the frame answers is taken from the table.
  unfoldable pub answer : Connection K → Frame → List (Event K) → Outcome K
  answer c f events = elim (frame_req_id f) [
    | none ↦ done c events
    | some r ↦ elim (lookup r c.pending) [
      | none ↦ done c events
      | some k ↦ done (record c { pending = remove r c.pending }) (events ++ resolved k f ∷ [])
    ]
  ]

  -- `ws.send(text)`: a socket that is not open yet throws, one that closes drops the text.
  unfoldable pub send_text : ReadyState → ℕ → String → Connection K → Outcome K
  send_text opening id text c = thrown c []
  send_text opened id text c = done c (sent id text ∷ [])
  send_text closing id text c = done c []
  send_text closed id text c = done c []

  -- The `catch` round the inner dispatch of an envelope.
  unfoldable pub caught : Outcome K → Outcome K
  caught (done c events) = done c events
  caught (thrown c events) = done c (events ++ on_error "decrypt_failed" "bad enc frame" ∷ [])
  caught out_of_fuel = out_of_fuel

  -- The `catch` of `onmessage`.
  unfoldable pub logged_outcome : Connection K → Outcome K → Connection K × List (Event K)
  logged_outcome c (done c' events) = (c', events)
  logged_outcome c (thrown c' events) = (c', events ++ logged ∷ [])
  logged_outcome c out_of_fuel = (c, [])

module _ {K : Type 0} (p : Platform) (s : Setting) where
  -- case 'hello_ack'
  unfoldable pub on_hello_ack : Connection K → Outcome K
  on_hello_ack c = elim (truthy s.hello.token) [
    | none ↦ done c (on_status ready ∷ [])
    | some token ↦ elim c.ws [
      | none ↦ done c []
      | some id ↦
          let (e2e, text) = proof_message p c.e2e token s.draw in
          send_text (c.states id) id text (record c { e2e = e2e })
    ]
  ]

  -- case 'auth.ok'
  unfoldable pub on_auth_ok : Connection K → (pub_key mac : Option String) → Outcome K
  on_auth_ok c pub_key mac =
      elim (finish p c.e2e (or_else s.hello.token "") (or_else pub_key "") (or_else mac "")) [
        | ok e2e ↦ done (record c { e2e = e2e }) (on_status ready ∷ [])
        | err e ↦
            done (shut_socket c.ws c) (on_error "auth_failed" (s.text_of e) ∷ shut_events c.ws)
      ]

  -- The cases of the `switch`.
  unfoldable pub on_daemon : Connection K → DaemonMsg → Outcome K
  on_daemon c (hello_ack id) = on_hello_ack c
  on_daemon c (auth_ok pub_key mac) = on_auth_ok c pub_key mac
  on_daemon c (presence id online) = done c (on_presence id online ∷ [])
  on_daemon c (snapshot sid seq data64) = elim (b64decode p data64) [
    | none ↦ thrown c []
    | some bytes ↦ done c (on_snapshot sid bytes seq ∷ [])
  ]
  on_daemon c (output sid seq data64) = elim (b64decode p data64) [
    | none ↦ thrown c []
    | some bytes ↦ done c (on_output sid bytes seq ∷ [])
  ]
  on_daemon c (agent_status sid agent status detail) =
      done c (on_agent_status sid agent status detail ∷ [])
  on_daemon c (session_exited sid code) = done c (on_exited sid code ∷ [])
  on_daemon c (error r code msg) = answer c (daemon (error r code msg)) (on_error code msg ∷ [])
  on_daemon c m = answer c (daemon m) []

  -- One level of `dispatch`; `inner` is the call for the text of an envelope.
  unfoldable pub on_frame :
      (inner : Connection K → String → Outcome K)
      → Connection K
      → (raw : String) → Frame
      → Outcome K
  on_frame inner c raw (enc nn ct) =
      if not (established c.e2e)
      then done c (on_error "protocol_error" "enc frame before handshake" ∷ [])
      else elim (open_envelope p c.e2e raw) [
        | err e ↦ done c (on_error "decrypt_failed" "bad enc frame" ∷ [])
        | ok text ↦ caught (inner c text)
      ]
  on_frame inner c raw (daemon m) = on_daemon c m
  on_frame inner c raw f = answer c f []

  unfoldable pub dispatch : ℕ → Connection K → (raw : String) → Outcome K
  dispatch zero c raw = out_of_fuel
  dispatch (suc fuel) c raw = elim (p.parse raw) [
    | none ↦ thrown c []
    | some f ↦ on_frame (dispatch fuel) c raw f
  ]

  -- `onmessage`.
  unfoldable pub socket_message : ℕ → (raw : String) → Connection K → Connection K × List (Event K)
  socket_message fuel raw c = logged_outcome c (dispatch fuel c raw)
