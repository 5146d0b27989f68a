-- ===== src/Connection/Frames.antt =====
-- What a received frame does to the outside, on every path of `dispatch`.
use remote_agent.Common.{
  ℕ, zero, suc, ◌≡◌, refl, sym, ◌∙◌, ◌⊎◌, inl, inr, String, Bool, true, false, ◌||◌, Option, none,
  some, or_else, List, [], ◌∷◌, ◌++◌, All, All-append, nat_eq, Option-cases, Bool-cases, arith,
}
use remote_agent.Common.Maps.{lookup}
use remote_agent.Platform.{Platform}
use remote_agent.Protocol.{
  Frame, client, enc, auth_proof, daemon, DaemonMsg, hello, ping, hello_ack, auth_ok, presence,
  agent_status, session_exited, snapshot, output, error, frame_req_id,
}
use remote_agent.Protocol.Codec.{b64decode}
use remote_agent.E2e.{established, proof_message, finish, open_envelope}
use remote_agent.E2e.Handshake.{finish-established}
use remote_agent.E2e.Results.{Result-cases}
use remote_agent.Connection.{
  Connection, Event, connecting, ready, disconnected, ReadyState, opening, opened, closing, closed,
  on_status, on_error, created, sent, truthy, shut_events, resolved, logged,
}
use remote_agent.Connection.Dispatch.{
  Outcome, done, thrown, out_of_fuel, Setting, answer, send_text, caught, on_hello_ack, on_auth_ok,
  on_daemon, on_frame, dispatch, logged_outcome, socket_message,
}

-- The frames that are no secret: envelopes, the handshake and what the relay itself reads.
abbrev pub is_public : Frame → Bool
is_public (enc nn ct) = true
is_public (auth_proof key mac) = true
is_public (client (hello id token)) = true
is_public (client ping) = true
is_public _ = false

abbrev pub IsPublic : Platform → String → Type 0
IsPublic p w = (f : Frame) × (w ≡ p.stringify f) × (is_public f ≡ true)

-- No socket is opened, no connecting or loss is reported, and only public frames are sent.
abbrev pub IsQuiet : {K : Type 0} → Platform → Event K → Type 0
IsQuiet p (created id) = ⊥
IsQuiet p (on_status connecting) = ⊥
IsQuiet p (on_status disconnected) = ⊥
IsQuiet p (sent id w) = IsPublic p w
IsQuiet p _ = Unit

abbrev pub is_ready : {K : Type 0} → Event K → Bool
is_ready (on_status ready) = true
is_ready _ = false

abbrev pub says_ready : {K : Type 0} → List (Event K) → Bool
says_ready [] = false
says_ready (e ∷ es) = is_ready e || says_ready es

says_ready-append :
    {K : Type 0} (es fs : List (Event K))
    → says_ready fs ≡ false
    → says_ready (es ++ fs) ≡ says_ready es
says_ready-append [] fs h = h
says_ready-append (e ∷ es) fs h = rw (says_ready-append es fs h)

module _ {K : Type 0} (p : Platform) (s : Setting) where
  -- Quiet, and ready only without a token or with a session key.
  pub record IsFine (c : Connection K) (events : List (Event K)) : Type 0 where
    pub quiet : All (IsQuiet p) events
    pub earned :
        says_ready events ≡ true → (truthy s.hello.token ≡ none) ⊎ (established c.e2e ≡ true)

  abbrev Fine : Outcome K → Type 0
  Fine (done c events) = IsFine c events
  Fine (thrown c events) = IsFine c events
  Fine out_of_fuel = Unit

  -- A harmless event at the end, and any change of the state but that of the session key.
  IsFine-append :
      (c d : Connection K) (events : List (Event K)) (e : Event K)
      → c.e2e ≡ d.e2e
      → IsQuiet p e
      → is_ready e ≡ false
      → IsFine c events
      → IsFine d (events ++ e ∷ [])
  IsFine-append c d events e same q r f =
      let last : says_ready (e ∷ []) ≡ false = rw r refl in
      let before = says_ready-append events (e ∷ []) last in
      record {
        quiet = All-append (IsQuiet p) events (e ∷ []) f.quiet (q, tt);
        earned = λ h. ground (arith, f.earned (sym before ∙ h));
      }

  one : (c : Connection K) (e : Event K) → IsQuiet p e → is_ready e ≡ false → IsFine c (e ∷ [])
  one c e q r = record { quiet = (q, tt); earned = λ h. ground arith }

  nothing : (c : Connection K) → IsFine c []
  nothing c = record { quiet = tt; earned = λ h. cc }

  shut-IsFine :
      (ws : Option ℕ) (c : Connection K) (code msg : String)
      → IsFine c (on_error code msg ∷ shut_events ws)
  shut-IsFine none c code msg = one c (on_error code msg) tt refl
  shut-IsFine (some id) c code msg = record { quiet = (tt, (tt, tt)); earned = λ h. cc }

  answer-Fine :
      (c : Connection K) (f : Frame) (events : List (Event K))
      → IsFine c events
      → Fine (answer c f events)
  unfolding answer
  answer-Fine c f events h = elim (Option-cases (frame_req_id f)) [
    | inl e ↦ rw (e, answer) h
    | inr (r, e) ↦ elim (Option-cases (lookup r c.pending)) [
      | inl e' ↦ rw (e, answer, e') h
      | inr (k, e') ↦ rw (e, answer, e') (IsFine-append c _ events (resolved k f) refl tt refl h)
    ]
  ]

  caught-Fine : (o : Outcome K) → Fine o → Fine (caught o)
  unfolding caught
  caught-Fine (done c events) h = h
  caught-Fine (thrown c events) h = IsFine-append c c events _ refl tt refl h
  caught-Fine out_of_fuel h = h

  send_text-Fine :
      (state : ReadyState) (id : ℕ) (text : String) (c : Connection K)
      → IsPublic p text
      → Fine (send_text state id text c)
  unfolding send_text
  send_text-Fine opening id text c q = nothing c
  send_text-Fine opened id text c q = one c (sent id text) q refl
  send_text-Fine closing id text c q = nothing c
  send_text-Fine closed id text c q = nothing c

  on_hello_ack-Fine : (c : Connection K) → Fine (on_hello_ack p s c)
  unfolding on_hello_ack proof_message
  on_hello_ack-Fine c = elim (Option-cases (truthy s.hello.token)) [
    | inl e ↦ rw (e, on_hello_ack) (record { quiet = (tt, tt); earned = λ h. inl e })
    | inr (token, e) ↦ elim (Option-cases c.ws) [
      | inl e' ↦ rw (e, on_hello_ack, e') (nothing c)
      | inr (id, e') ↦
          rw (e, on_hello_ack, e') (send_text-Fine _ id _ _ (auth_proof _ _, refl, refl))
    ]
  ]

  on_auth_ok-Fine :
      (c : Connection K) (pub_key mac : Option String) → Fine (on_auth_ok p s c pub_key mac)
  unfolding on_auth_ok
  on_auth_ok-Fine c pub_key mac =
      let answer =
        finish p c.e2e (or_else s.hello.token "") (or_else pub_key "") (or_else mac "") in
      elim (Result-cases answer) [
        | inl (e2e, e) ↦
            let keyed = finish-established p c.e2e e2e _ _ _ e in
            rw (e, on_auth_ok) (record { quiet = (tt, tt); earned = λ h. inr keyed })
        | inr (x, e) ↦ rw (e, on_auth_ok) (shut-IsFine c.ws _ _ _)
      ]

  on_daemon-Fine : (c : Connection K) (m : DaemonMsg) → Fine (on_daemon p s c m)
  unfolding on_daemon
  on_daemon-Fine c (hello_ack id) = on_hello_ack-Fine c
  on_daemon-Fine c (auth_ok pub_key mac) = on_auth_ok-Fine c pub_key mac
  on_daemon-Fine c (snapshot sid seq data64) = elim (Option-cases (b64decode p data64)) [
    | inl e ↦ rw (e, on_daemon) (nothing c)
    | inr (bytes, e) ↦ rw (e, on_daemon) (one c _ tt refl)
  ]
  on_daemon-Fine c (output sid seq data64) = elim (Option-cases (b64decode p data64)) [
    | inl e ↦ rw (e, on_daemon) (nothing c)
    | inr (bytes, e) ↦ rw (e, on_daemon) (one c _ tt refl)
  ]
  on_daemon-Fine c (presence id online) = one c _ tt refl
  on_daemon-Fine c (agent_status sid agent status detail) = one c _ tt refl
  on_daemon-Fine c (session_exited sid code) = one c _ tt refl
  on_daemon-Fine c (error r code msg) = answer-Fine c _ _ (one c _ tt refl)
  on_daemon-Fine c m = answer-Fine c (daemon m) [] (nothing c)

  on_frame-Fine :
      (inner : Connection K → String → Outcome K) (c : Connection K) (raw : String) (f : Frame)
      → ((text : String) → Fine (inner c text))
      → Fine (on_frame p s inner c raw f)
  unfolding on_frame
  on_frame-Fine inner c raw (enc nn ct) ih = elim (Bool-cases (established c.e2e)) [
    | inr before ↦ rw (before, on_frame) (one c _ tt refl)
    | inl after ↦ elim (Result-cases (open_envelope p c.e2e raw)) [
      | inl (text, e) ↦ rw (after, on_frame, e) (caught-Fine _ (ih text))
      | inr (x, e) ↦ rw (after, on_frame, e) (one c _ tt refl)
    ]
  ]
  on_frame-Fine inner c raw (daemon m) ih = on_daemon-Fine c m
  on_frame-Fine inner c raw f ih = answer-Fine c f [] (nothing c)

  dispatch-Fine : (fuel : ℕ) (c : Connection K) (raw : String) → Fine (dispatch p s fuel c raw)
  unfolding dispatch
  dispatch-Fine zero c raw = tt
  dispatch-Fine (suc fuel) c raw = elim (Option-cases (p.parse raw)) [
    | inl e ↦ rw (e, dispatch) (nothing c)
    | inr (f, e) ↦
        rw (e, dispatch)
          (on_frame-Fine (dispatch p s fuel) c raw f (λ text. dispatch-Fine fuel c text))
  ]

  logged_outcome-Fine :
      (c : Connection K) (o : Outcome K)
      → Fine o
      → IsFine (logged_outcome c o).0 (logged_outcome c o).1
  unfolding logged_outcome
  logged_outcome-Fine c (done c' events) h = h
  logged_outcome-Fine c (thrown c' events) h = IsFine-append c' c' events logged refl tt refl h
  logged_outcome-Fine c out_of_fuel h = nothing c

  -- A received frame opens no socket, reports no loss, sends nothing but a proof, and makes the
  -- connection ready only where no token is asked for or a session key is there.
  pub socket_message-IsFine :
      (fuel : ℕ) (raw : String) (c : Connection K)
      → IsFine (socket_message p s fuel raw c).0 (socket_message p s fuel raw c).1
  unfolding socket_message
  socket_message-IsFine fuel raw c =
      logged_outcome-Fine c (dispatch p s fuel c raw) (dispatch-Fine fuel c raw)
