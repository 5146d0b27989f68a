-- ===== src/Connection/Examples.antt =====
-- Histories of a connection, and the theorems at them.
use remote_agent.Common.{
  replicate, ℕ, suc, ◌≡◌, ◌≢◌, refl, ◌⊎◌, String, true, none, some, List, [], ◌∷◌, ◌++◌, All,
  nat_eq, string_eq, ◌==◌, if◌then◌else◌, arith,
}
use remote_agent.Common.Maps.{lookup}
use remote_agent.Platform.{Platform}
use remote_agent.Platform.Sample.{sample, scan, sample-IsStandard, sample_runs}
use remote_agent.Platform.Sizes.{size, sample_shrinks}
use remote_agent.Protocol.{
  Frame, client, daemon, enc, hello, hello_ack, auth_ok, error, frame_req_id,
}
use remote_agent.E2e.{
  E2eClient, established, seal, proof_message, finish, derive, every_same, typed_set,
}
use remote_agent.Protocol.Codec.{b64, unb64, append_bytes}
use remote_agent.E2e.Results.{ok}
use remote_agent.Connection.{
  Connection, Event, list, opening, opened, new_connection, connect, reconnect, close, request,
  send, wire, socket_opened, socket_closed, sent, resolved, truthy,
}
use remote_agent.Connection.Dispatch.{
  Setting, done, answer, dispatch, caught, out_of_fuel, socket_message, logged_outcome, on_frame,
  on_daemon, on_hello_ack, on_auth_ok, send_text,
}
use remote_agent.Connection.Depth.{dispatch_ends}
use remote_agent.Connection.Disposal.{IsStill, Runs_disposed}
use remote_agent.Connection.Frames.{says_ready}
use remote_agent.Connection.Keepalive.{
  HasOneInterval, Reach-HasOneInterval, late_close_stops_keepalive,
}
use remote_agent.Connection.Readiness.{Reach-ready, hello_reveals_token, dispatch-seal}
use remote_agent.Connection.Requests.{after, answer-request}
use remote_agent.Connection.Secrecy.{IsGuarded, Runs-IsGuarded}
use remote_agent.Connection.Sockets.{IsSingle, Reach-IsSingle}
use remote_agent.Connection.Steps.{
  Input, requests, ticks, connects, reconnects, closes, opens, closed_by, message, step, Reach,
  start, next,
}

abbrev setting : Setting
setting = record {
  hello = record { device_id = "y"; token = some "xy" };
  text_of = λ e. "x";
  draw = 5 ∷ [];
}

-- Requests are named by numbers here.
abbrev begin : Connection ℕ
begin = new_connection

abbrev does : Input ℕ → Connection ℕ → Connection ℕ
does i c = (step sample setting i c).0

abbrev tells : Input ℕ → Connection ℕ → List (Event ℕ)
tells i c = (step sample setting i c).1

-- The first socket opens after `connect`.
abbrev connected : Connection ℕ
connected = does connects begin

abbrev greeted : Connection ℕ
greeted = does (opens 0) connected

runs : Unit {0}
unfolding step connect reconnect close request socket_opened socket_closed new_connection
runs = tt

connected_history : Reach sample setting connected ([] ++ tells connects begin)
connected_history = next connects start tt

socket_0_opening : connected.states 0 ≡ opening
unfolding runs
socket_0_opening = refl

greeted_history :
    Reach sample setting greeted (([] ++ tells connects begin) ++ tells (opens 0) connected)
greeted_history = next (opens 0) connected_history socket_0_opening

Reach-IsSingle_example : IsSingle greeted
Reach-IsSingle_example = Reach-IsSingle sample setting greeted_history

Reach-HasOneInterval_example : HasOneInterval greeted
Reach-HasOneInterval_example = Reach-HasOneInterval sample setting greeted_history

hello_reveals_token_example :
    (w : String) × (tells (opens 0) connected ≡ sent 0 w ∷ [])
    × (sample.parse w ≡ some (client (hello "y" (some "xy"))))
hello_reveals_token_example =
    hello_reveals_token sample setting sample-IsStandard connected_history 0 socket_0_opening "xy"
      refl (λ e. cc)

-- A reconnection, and the second socket opens before the first one has closed.
abbrev restarted : Connection ℕ
restarted = does reconnects greeted

abbrev greeted_again : Connection ℕ
greeted_again = does (opens 1) restarted

restarted_history :
    Reach sample setting restarted
      ((([] ++ tells connects begin) ++ tells (opens 0) connected) ++ tells reconnects greeted)
restarted_history = next reconnects greeted_history tt

socket_1_opening : restarted.states 1 ≡ opening
unfolding runs
socket_1_opening = refl

again_history : Reach sample setting greeted_again (
    ((([] ++ tells connects begin) ++ tells (opens 0) connected) ++ tells reconnects greeted)
    ++ tells (opens 1) restarted)
again_history = next (opens 1) restarted_history socket_1_opening

socket_1_current : greeted_again.ws ≡ some 1
unfolding runs
socket_1_current = refl

socket_1_opened : (greeted_again.states 1 ≡ opened) × (greeted_again.intervals ≡ 1 ∷ [])
unfolding runs
socket_1_opened = (refl, refl)

-- The second socket is open, its interval ran, and then the first one closes.
late_close_stops_keepalive_example :
    let d = does (closed_by 0) greeted_again in
    (d.intervals ≡ [])
    × (d.ws ≡ some 1)
    × (d.states 1 ≡ greeted_again.states 1)
    × (tells (closed_by 0) greeted_again ≡ [])
late_close_stops_keepalive_example =
    late_close_stops_keepalive sample setting again_history 0 1 socket_1_current
      (λ (e : ◌≡◌ {A = ℕ} 0 1). omega arith)

abbrev reply : Frame
reply = daemon (error (some 1) "x" "y")

asked_id : frame_req_id reply ≡ some (suc greeted.req_id)
unfolding runs
asked_id = refl

-- Another request and a beat of the keepalive come in between.
abbrev meanwhile : List (Input ℕ)
meanwhile = requests 8 list [] ∷ ticks ∷ []

answer-request_example :
    let n = suc greeted.req_id in
    let c = after sample setting meanwhile (request sample 7 list [] greeted).0 in
    (lookup n greeted.pending ≡ none)
    × ((request sample 7 list [] greeted).0.req_id ≡ n)
    × ((d : Connection ℕ) × (answer c reply [] ≡ done d (resolved 7 reply ∷ []))
        × (answer d reply [] ≡ done d [])
        × ((r : ℕ) → r ≢ n → lookup r d.pending ≡ lookup r c.pending))
answer-request_example =
    answer-request sample setting greeted_history 7 list [] meanwhile reply (tt, (tt, tt)) asked_id

abbrev over : Connection ℕ
over = does closes greeted

over_disposed : over.disposed ≡ true
unfolding runs
over_disposed = refl

Runs_disposed_example :
    ((does connects over).disposed ≡ true)
    × ((does connects over).sockets ≡ over.sockets)
    × All IsStill ([] ++ tells connects over)
Runs_disposed_example = Runs_disposed sample setting over_disposed (next connects start tt)

abbrev session_key : List ℕ
session_key = replicate 32 1

abbrev keyed : E2eClient
keyed = record { key = some session_key; priv = none }

abbrev secured : Connection ℕ
secured = record begin { e2e = keyed }

Runs-IsGuarded_example :
    (established (does connects secured).e2e ≡ true)
    × All (IsGuarded sample) ([] ++ tells connects secured)
unfolding runs
Runs-IsGuarded_example = Runs-IsGuarded sample setting {c = secured} refl (next connects start tt)

-- A platform on which a hello_ack can be read, so that a whole handshake runs.
abbrev chatty : Platform
chatty = record sample { parse = λ t. if t == "h" then some (daemon (hello_ack "y")) else scan t }

abbrev chats : Input ℕ → Connection ℕ → Connection ℕ
chats i c = (step chatty setting i c).0

abbrev says : Input ℕ → Connection ℕ → List (Event ℕ)
says i c = (step chatty setting i c).1

abbrev acknowledgement : Input ℕ
acknowledgement = message 0 1 "h" (5 ∷ [])

-- The daemon's answer to the proof.
abbrev confirmation : Input ℕ
confirmation =
    let public = sample.public_key (7 ∷ []) in
    let mac = sample.hmac (sample.utf8_encode "xy") public in
    message 0 1
      (sample.stringify (daemon (auth_ok (some (sample.btoa public)) (some (sample.btoa mac))))) []

abbrev dialled : Connection ℕ
dialled = chats (opens 0) (chats connects begin)

abbrev proved : Connection ℕ
proved = chats acknowledgement dialled

handshake_runs : Unit {0}
unfolding runs sample_runs socket_message logged_outcome dispatch on_frame on_daemon on_hello_ack
    on_auth_ok send_text answer proof_message finish derive every_same typed_set unb64 b64
    append_bytes
handshake_runs = tt

dialled_opened : (dialled.states 0 ≡ opened) × (proved.states 0 ≡ opened)
unfolding handshake_runs
dialled_opened = (refl, refl)

first_opening : (chats connects begin).states 0 ≡ opening
unfolding runs
first_opening = refl

confirmed_history : Reach chatty setting (chats confirmation proved) (
    ((([] ++ says connects begin) ++ says (opens 0) (chats connects begin))
      ++ says acknowledgement dialled)
    ++ says confirmation proved)
confirmed_history =
    next confirmation
      (next acknowledgement (next (opens 0) (next connects start tt) first_opening)
        dialled_opened.0)
      dialled_opened.1

says_ready_confirmed :
    says_ready (
      ((([] ++ says connects begin) ++ says (opens 0) (chats connects begin))
        ++ says acknowledgement dialled)
      ++ says confirmation proved)
    ≡ true
unfolding handshake_runs send wire
says_ready_confirmed = refl

Reach-ready_example :
    (truthy setting.hello.token ≡ none) ⊎ (established (chats confirmation proved).e2e ≡ true)
Reach-ready_example = Reach-ready chatty setting confirmed_history says_ready_confirmed

abbrev sealed_text : String
sealed_text = "xyxx"

-- The envelope of `sealed_text` under a nonce of twelve bytes.
abbrev envelope_text : String
envelope_text =
    sample.stringify (enc (sample.btoa (replicate 12 4)) (sample.btoa (120 ∷ 121 ∷ 120 ∷ 120 ∷ [])))

sealed : seal sample keyed sealed_text (replicate 12 4) ≡ ok envelope_text
unfolding seal sample_runs b64 append_bytes
sealed = refl

dispatch-seal_example :
    dispatch sample setting 2 secured envelope_text
    ≡ caught (dispatch sample setting 1 secured sealed_text)
unfolding sample_runs
dispatch-seal_example =
    dispatch-seal sample setting sample-IsStandard secured keyed session_key (replicate 12 4)
      sealed_text envelope_text 1 refl refl refl refl (omega arith) refl sealed

dispatch_ends_example :
    dispatch sample setting (suc (size envelope_text)) secured envelope_text ≢ out_of_fuel
unfolding sample_runs
dispatch_ends_example =
    dispatch_ends sample setting size sample_shrinks (suc (size envelope_text)) secured
      envelope_text (omega arith)
