-- ===== src/Workspace/RelayExamples.antt =====
-- A page that loses its connection over a relay and gets it back.
use remote_agent.Common.{
  ℕ, ◌≡◌, ◌≢◌, refl, ap, sym, ◌∙◌, String, true, false, none, some, List, [], ◌∷◌, ◌++◌,
  if◌then◌else◌, replicate,
}
use remote_agent.Platform.{Platform, IsStandard}
use remote_agent.Platform.Sample.{sample, sample-IsStandard, sample_runs, scan}
use remote_agent.Protocol.{Frame, daemon, hello_ack, auth_ok, auth_proof}
use remote_agent.Protocol.Codec.{b64}
use remote_agent.E2e.{proof_message, hkdf_info}
use remote_agent.E2e.Halves.{answer_lem}
use remote_agent.Connection.{
  ReadyState, opening, opened, closed, connecting, ready, disconnected, sent, list,
}
use remote_agent.Connection
use remote_agent.Connection.Steps
use remote_agent.Connection.Steps.{step}
use remote_agent.Terminal.Handlers
use remote_agent.Terminal.{start, request, booting, save_conn}
use remote_agent.Workspace.{
  Workspace, World, opened_page, happen, moves, perform, receive, settle, deliver, asks, user,
  begins, retries, History, begun, by_browser, by_user,
}
use remote_agent.Workspace.Rejoin.{History-rejoins}

-- What is no frame of another kind is a greeting.
abbrev relay_platform : Platform
relay_platform = record sample {
  parse = λ text. elim (scan text) [ some f ↦ some f | none ↦ some (daemon (hello_ack "y")) ];
}

relay_platform-IsStandard : IsStandard relay_platform
relay_platform-IsStandard = record {
  utf8_bytes = sample-IsStandard.utf8_bytes;
  atob-btoa = sample-IsStandard.atob-btoa;
  parse-stringify = λ f h.
      ap (λ o. elim o [ some f ↦ some f | none ↦ some (daemon (hello_ack "y")) ])
        (sample-IsStandard.parse-stringify f h);
  public_key_length = sample-IsStandard.public_key_length;
  public_key_bytes = sample-IsStandard.public_key_bytes;
  hmac_bytes = sample-IsStandard.hmac_bytes;
  agreement = sample-IsStandard.agreement;
  encrypt_bytes = sample-IsStandard.encrypt_bytes;
  decrypt-encrypt = sample-IsStandard.decrypt-encrypt;
}

-- What the page and the daemon draw.
abbrev page_key : List ℕ
page_key = 5 ∷ replicate 31 1

abbrev daemon_secret : List ℕ
daemon_secret = 7 ∷ replicate 31 2

-- A device behind a relay has a token.
abbrev relay_world : World
relay_world = record {
  platform = relay_platform;
  setting = record {
    hello = record { device_id = "y"; token = some "xy" };
    text_of = λ e. "x";
    draw = [];
  };
  nonce = λ n. n ∷ [];
  slice = λ s from to. s;
  measure = λ sid. (80, 24);
  stored_font = 14;
}

abbrev tried : Workspace
tried = (moves relay_world begins (opened_page none true)).0

abbrev met : Workspace
met = (happen relay_world (Steps.opens 0) tried).0

abbrev parted : Workspace
parted = (happen relay_world (Steps.closed_by 0) met).0

runs : Unit {0}
unfolding opened_page start happen moves perform receive settle deliver asks user step
    Connection.new_connection Connection.connect Connection.send Connection.socket_opened
    Connection.socket_closed Handlers.on_status sample_runs Connection.wire
runs = tt

tried_opening : tried.conn.states 0 ≡ opening
unfolding runs
tried_opening = refl

met_opened : met.conn.states 0 ≡ opened
unfolding runs
met_opened = refl

not_closed : met.conn.states 0 ≢ closed
not_closed e = let same : ◌≡◌ {A = ReadyState} opened closed = sym met_opened ∙ e in cc

parted-History : History relay_world (opened_page none true) parted (
    ([]
      ++ (moves relay_world begins (opened_page none true)).1
      ++ (happen relay_world (Steps.opens 0) tried).1)
    ++ (happen relay_world (Steps.closed_by 0) met).1)
parted-History =
    by_browser (Steps.closed_by 0) (by_browser (Steps.opens 0) (by_user begins begun) tried_opening)
      not_closed

parted_status : parted.app.status ≡ disconnected
unfolding runs
parted_status = refl

parted_disposed : parted.conn.disposed ≡ false
unfolding runs
parted_disposed = refl

abbrev proof_frame : Frame
proof_frame =
    let p = relay_platform in
    let P = p.public_key page_key in auth_proof (b64 p P) (b64 p (p.hmac (p.utf8_encode "xy") P))

abbrev daemon_public : List ℕ
daemon_public = sample.public_key daemon_secret

abbrev daemon_reply : String
daemon_reply =
    let p = relay_platform in
    p.stringify (
      daemon (
        auth_ok (some (p.btoa daemon_public))
          (some (p.btoa (p.hmac (p.utf8_encode "xy") daemon_public)))))

abbrev daemon_key : List ℕ
daemon_key =
    let p = relay_platform in
    let P = p.public_key page_key in
    p.hkdf (p.diffie_hellman daemon_secret P) (daemon_public ++ P) (p.utf8_encode hkdf_info) 32

proof_parsed :
    relay_platform.parse (proof_message relay_platform parted.conn.e2e "xy" page_key).1
    ≡ some proof_frame
unfolding proof_message
proof_parsed = relay_platform-IsStandard.parse-stringify proof_frame refl

greeting_parsed : relay_platform.parse "h" ≡ some (daemon (hello_ack "y"))
unfolding sample_runs
greeting_parsed = refl

History-rejoins_example :
    let n = parted.conn.sockets in
    let text = (proof_message relay_platform parted.conn.e2e "xy" page_key).1 in
    let w1 = (moves relay_world retries parted).0 in
    let w2 = (happen relay_world (Steps.opens n) w1).0 in
    let w3 = (happen relay_world (Steps.message n 1 "h" page_key) w2).0 in
    let (w4, acts) = happen relay_world (Steps.message n 1 daemon_reply page_key) w3 in
    ((step relay_platform relay_world.setting (Steps.message n 1 "h" page_key) w2.conn).1
      ≡ sent n text ∷ [])
    × (w3.app.status ≡ connecting)
    × ((step relay_platform relay_world.setting
          (Steps.message n 1 daemon_reply page_key)
          w3.conn).0.e2e
        ≡ record { key = some daemon_key; priv = none })
    × (w4.app.status ≡ ready)
    × (w4.app.attempts ≡ 0)
    × (acts ≡ request list booting ∷ (if parted.app.saved_conn then [] else save_conn ∷ []))
History-rejoins_example =
    History-rejoins relay_world none true "xy" 0 "h" "y" page_key page_key daemon_secret proof_frame
      daemon_reply daemon_key parted-History relay_platform-IsStandard refl refl refl parted_status
      parted_disposed greeting_parsed proof_parsed
      (answer_lem relay_platform relay_platform-IsStandard "xy" page_key daemon_secret refl)
