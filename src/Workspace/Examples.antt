-- ===== src/Workspace/Examples.antt =====
-- A page that connects, loses its connection and gets it back, and the theorems at it.
use remote_agent.Common.{
  ◌≡◌, ◌≢◌, refl, sym, ◌∙◌, true, false, none, some, List, [], ◌∷◌, ◌++◌, any, string_eq, ◌==◌,
  if◌then◌else◌,
}
use remote_agent.Platform.Sample.{sample, sample_runs}
use remote_agent.Connection.{
  ReadyState, opening, opened, closed, connecting, ready, disconnected, list,
}
use remote_agent.Protocol.{daemon, hello_ack}
use remote_agent.Connection.Dispatch.{
  socket_message, logged_outcome, dispatch, on_frame, on_daemon, on_hello_ack,
}
use remote_agent.Connection.Steps
use remote_agent.Connection
use remote_agent.Terminal.Handlers
use remote_agent.Terminal.{Act, start, request, booting, save_conn}
use remote_agent.Workspace.{
  Workspace, World, opened_page, happen, moves, perform, receive, settle, deliver, asks, user,
  begins, retries, History, begun, by_browser, by_user,
}
use remote_agent.Workspace.Ended.{after_error, is_retry, History-on_error}
use remote_agent.Workspace.Recovery.{History-recovers}
use remote_agent.Workspace.Restored.{History-restored}
use remote_agent.Workspace.Quiet.{is_restored}

-- A device without a token is ready as soon as it greets.
abbrev world : World
world = record {
  platform = record sample {
    parse = λ text. if text == "h" then some (daemon (hello_ack "y")) else none;
  };
  setting = record {
    hello = record { device_id = "y"; token = none };
    text_of = λ e. "x";
    draw = [];
  };
  nonce = λ n. n ∷ [];
  slice = λ s from to. s;
  measure = λ sid. (80, 24);
  stored_font = 14;
}

abbrev first_try : Workspace
first_try = (moves world begins (opened_page none true)).0

abbrev open_page : Workspace
open_page = (happen world (Steps.opens 0) first_try).0

abbrev ready_page : Workspace
ready_page = (happen world (Steps.message 0 1 "h" []) open_page).0

abbrev lost_page : Workspace
lost_page = (happen world (Steps.closed_by 0) ready_page).0

abbrev second_try : Workspace
second_try = (moves world retries lost_page).0

abbrev reopened : Workspace
reopened = (happen world (Steps.opens 1) second_try).0

abbrev ready_again : Workspace
ready_again = (happen world (Steps.message 1 1 "h" []) reopened).0

runs : Unit {0}
unfolding opened_page start happen moves perform receive settle deliver asks user Steps.step
    Connection.new_connection Connection.connect Connection.send Connection.socket_opened
    Connection.socket_closed Connection.request Handlers.on_status socket_message logged_outcome
    dispatch on_frame on_daemon on_hello_ack sample_runs Connection.wire
runs = tt

ready_status : ready_page.app.status ≡ ready
unfolding runs
ready_status = refl

lost_status : lost_page.app.status ≡ disconnected
unfolding runs
lost_status = refl

again_status : ready_again.app.status ≡ ready
unfolding runs
again_status = refl

abbrev lost_log : List Act
lost_log =
    ((([] ++ (moves world begins (opened_page none true)).1)
        ++ (happen world (Steps.opens 0) first_try).1)
      ++ (happen world (Steps.message 0 1 "h" []) open_page).1)
    ++ (happen world (Steps.closed_by 0) ready_page).1

first_opening : first_try.conn.states 0 ≡ opening
unfolding runs
first_opening = refl

first_opened : open_page.conn.states 0 ≡ opened
unfolding runs
first_opened = refl

still_opened : ready_page.conn.states 0 ≡ opened
unfolding runs
still_opened = refl

not_closed : ready_page.conn.states 0 ≢ closed
not_closed e = let same : ◌≡◌ {A = ReadyState} opened closed = sym still_opened ∙ e in cc

lost-History : History world (opened_page none true) lost_page lost_log
lost-History =
    by_browser (Steps.closed_by 0)
      (by_browser (Steps.message 0 1 "h" [])
        (by_browser (Steps.opens 0) (by_user begins begun) first_opening) first_opened)
      not_closed

second_opening : second_try.conn.states 1 ≡ opening
unfolding runs
second_opening = refl

second_opened : reopened.conn.states 1 ≡ opened
unfolding runs
second_opened = refl

abbrev whole_log : List Act
whole_log =
    ((lost_log ++ (moves world retries lost_page).1) ++ (happen world (Steps.opens 1) second_try).1)
    ++ (happen world (Steps.message 1 1 "h" []) reopened).1

again-History : History world (opened_page none true) ready_again whole_log
again-History =
    by_browser (Steps.message 1 1 "h" [])
      (by_browser (Steps.opens 1) (by_user retries lost-History) second_opening) second_opened

-- Ready, lost, and ready again, and the user is not told.
History-restored_example : any is_restored whole_log ≡ false
History-restored_example = History-restored world none true again-History

-- The device turns out to be busy while the page connects, and the user tries again.
abbrev refused_page : Workspace
refused_page = after_error world "device_busy" "x" open_page

refused-History :
    History world refused_page
      (moves world retries refused_page).0
      ([] ++ (moves world retries refused_page).1)
refused-History = by_user retries begun

History-on_error_example :
    ((moves world retries refused_page).0.conn.disposed ≡ true)
    × ((moves world retries refused_page).0.conn.sockets ≡ open_page.conn.sockets)
    × (any is_retry ([] ++ (moves world retries refused_page).1) ≡ false)
History-on_error_example = History-on_error world "device_busy" "x" open_page refl refused-History

lost_disposed : lost_page.conn.disposed ≡ false
unfolding runs
lost_disposed = refl

History-recovers_example :
    let n = lost_page.conn.sockets in
    let w1 = (moves world retries lost_page).0 in
    let w2 = (happen world (Steps.opens n) w1).0 in
    let (w3, acts) = happen world (Steps.message n 1 "h" []) w2 in
    (w1.conn.states n ≡ opening)
    × (w2.conn.states n ≡ opened)
    × (w3.app.status ≡ ready)
    × (w3.app.attempts ≡ 0)
    × (acts ≡ request list booting ∷ (if lost_page.app.saved_conn then [] else save_conn ∷ []))
History-recovers_example =
    History-recovers world none true 0 "h" "y" [] lost-History lost_status lost_disposed refl refl
