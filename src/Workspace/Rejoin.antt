-- ===== src/Workspace/Rejoin.antt =====
-- The way back from a lost connection over a relay: the retry of web/src/TerminalApp.tsx, the socket that it
-- opens, and the handshake of web/src/lib/daemon.ts on it.
use remote_agent.Common.{
  length, ℕ, suc, ◌≡◌, refl, sym, ap, ◌∙◌, String, Bool, false, Option, none, some, or_else, List,
  [], ◌∷◌, if◌then◌else◌,
}
use remote_agent.Protocol.{Frame, daemon, hello_ack, auth_ok, auth_proof}
use remote_agent.E2e.{E2eClient, proof_message, finish}
use remote_agent.E2e.DaemonSide.{answer}
use remote_agent.E2e.Halves.{finish_answer, answer_lem}
use remote_agent.Pairing.Arrival.{truthy_sound}
use remote_agent.Platform.{IsStandard}
use remote_agent.Protocol.Codec.{b64}
use remote_agent.E2e.Results.{Result, ok, err}
use remote_agent.Connection.{
  Connection, Event, connecting, ready, disconnected, on_status, sent, list, truthy, opened,
  socket_opened, ReadyState,
}
use remote_agent.Connection.Dispatch.{
  drawing, socket_message, Outcome, logged_outcome, dispatch, done, on_frame, on_daemon,
  on_hello_ack, on_auth_ok, send_text,
}
use remote_agent.Connection.Steps
use remote_agent.Connection.Steps.{step}
use remote_agent.Terminal.{App, Await, Act, request, booting, save_conn}
use remote_agent.Terminal.Handlers
use remote_agent.Workspace.{
  Workspace, World, opened_page, deliver, settle, receive, happen, moves, History, retries,
}
use remote_agent.Workspace.Restored.{History-IsSafe, opened_page-IsSafe}
use remote_agent.Workspace.Recovery.{
  attempted, moves-retries, greeted, greeted_opened, happen-opens, happen-message,
}

module _ (o : World) (draw : List ℕ) (token : String)
    (needed : truthy o.setting.hello.token ≡ some token) where
  -- The handshake's state behind the proof, and the text of the proof.
  abbrev proof : E2eClient → E2eClient × String
  proof e = proof_message o.platform e token draw

  hello_proves :
      (id : ℕ) (c : Connection Await)
      → c.ws ≡ some id
      → c.states id ≡ opened
      → on_hello_ack o.platform (drawing o.setting draw) c
        ≡ done (record c { e2e = (proof c.e2e).0 }) (sent id (proof c.e2e).1 ∷ [])
  unfolding on_hello_ack send_text
  hello_proves id c w s =
      let outcome : Option ℕ → Outcome Await = λ ws. elim ws [
        | none ↦ done c []
        | some i ↦ send_text (c.states i) i (proof c.e2e).1 (record c { e2e = (proof c.e2e).0 })
      ] in
      let sends : ReadyState → Outcome Await =
        λ state. send_text state id (proof c.e2e).1 (record c { e2e = (proof c.e2e).0 }) in
      rw (needed, on_hello_ack) (ap outcome w ∙ ap sends s)

  greeting_proves :
      (id fuel : ℕ) (raw device : String) (c : Connection Await)
      → c.ws ≡ some id
      → c.states id ≡ opened
      → o.platform.parse raw ≡ some (daemon (hello_ack device))
      → socket_message o.platform (drawing o.setting draw) (suc fuel) raw c
        ≡ (record c { e2e = (proof c.e2e).0 }, sent id (proof c.e2e).1 ∷ [])
  unfolding socket_message logged_outcome dispatch on_frame on_daemon
  greeting_proves id fuel raw device c w s parsed =
      rw (parsed, socket_message, dispatch) (ap (logged_outcome c) (hello_proves id c w s))

  auth_done :
      (draw' : List ℕ) (pub_key mac : String) (c : Connection Await) (e : E2eClient)
      → finish o.platform c.e2e (or_else o.setting.hello.token "") pub_key mac ≡ ok e
      → on_auth_ok o.platform (drawing o.setting draw') c (some pub_key) (some mac)
        ≡ done (record c { e2e = e }) (on_status ready ∷ [])
  unfolding on_auth_ok
  auth_done draw' pub_key mac c e finished = rw (finished, on_auth_ok) refl

  -- The answer of the daemon that proves it knows the token.
  answer_read :
      (draw' : List ℕ) (fuel : ℕ) (raw pub_key mac : String) (c : Connection Await) (e : E2eClient)
      → o.platform.parse raw ≡ some (daemon (auth_ok (some pub_key) (some mac)))
      → finish o.platform c.e2e (or_else o.setting.hello.token "") pub_key mac ≡ ok e
      → socket_message o.platform (drawing o.setting draw') (suc fuel) raw c
        ≡ (record c { e2e = e }, on_status ready ∷ [])
  unfolding socket_message logged_outcome dispatch on_frame on_daemon
  answer_read draw' fuel raw pub_key mac c e parsed finished =
      rw (parsed, socket_message, dispatch)
        (ap (logged_outcome c) (auth_done draw' pub_key mac c e finished))

  -- The page behind the greeting.
  abbrev proving : Workspace → Workspace
  proving w = record w { conn = record w.conn { e2e = (proof w.conn.e2e).0 }; drawn = suc w.drawn }

  happen-greeting :
      (id fuel : ℕ) (raw device : String) (w : Workspace)
      → w.conn.ws ≡ some id
      → w.conn.states id ≡ opened
      → o.platform.parse raw ≡ some (daemon (hello_ack device))
      → happen o (Steps.message id (suc fuel) raw draw) w ≡ (proving w, [])
  unfolding happen step receive deliver settle
  happen-greeting id fuel raw device w ws s parsed =
      ap
        (λ (r : Connection Await × List (Event Await)).
          receive o r.1 (record w { conn = r.0; drawn = suc w.drawn }))
        (greeting_proves id fuel raw device w.conn ws s parsed)

  -- The daemon's answer to the proof makes the connection ready, with the daemon's key.
  reply_read :
      (std : IsStandard o.platform)
      → (draw' : List ℕ) (fuel : ℕ) (secret : List ℕ) (frame : Frame) (reply : String)
        (key : List ℕ)
      → length draw ≡ 32
      → length secret ≡ 32
      → (c : Connection Await) (e : E2eClient) → o.platform.parse (proof e).1 ≡ some frame
      → answer o.platform token secret frame ≡ ok (reply, key)
      → socket_message o.platform
          (drawing o.setting draw')
          (suc fuel)
          reply
          (record c { e2e = (proof e).0 })
        ≡ (record c { e2e = record { key = some key; priv = none } }, on_status ready ∷ [])
  unfolding proof_message
  reply_read std draw' fuel secret frame reply key hp hs c e parsed answered =
      let p = o.platform in
      let t = p.utf8_encode token in
      let P = p.public_key draw in
      let S = p.public_key secret in
      let sent_frame = auth_proof (b64 p P) (b64 p (p.hmac t P)) in
      let answer_frame = daemon (auth_ok (some (p.btoa S)) (some (p.btoa (p.hmac t S)))) in
      let same_frame : frame ≡ sent_frame =
        ap (λ (f : Option Frame). elim f [ some x ↦ x | none ↦ frame ])
          (sym parsed ∙ std.parse-stringify sent_frame refl) in
      let same : (reply, key) ≡ (p.stringify answer_frame, _) =
        ap (λ (r : Result (String × List ℕ)). elim r [ ok x ↦ x | err x ↦ (reply, key) ])
          (sym answered
            ∙ ap (answer p token secret) same_frame
            ∙ answer_lem p std token draw secret hp) in
      let read : p.parse reply ≡ some answer_frame =
        ap (λ (r : String × List ℕ). p.parse r.0) same ∙ std.parse-stringify answer_frame refl in
      let known : or_else o.setting.hello.token "" ≡ token =
        ap (λ s. or_else s "") (truthy_sound o.setting.hello.token token needed).0 in
      let finished =
        ap (λ s. finish p (proof e).0 s (p.btoa S) (p.btoa (p.hmac t S))) known
        ∙ finish_answer p std (proof e).0 token draw secret refl hp hs
        ∙ ap (λ (r : String × List ℕ). ok (record { key = some r.1; priv = none })) (sym same) in
      answer_read draw' fuel reply (p.btoa S) (p.btoa (p.hmac t S)) (record c { e2e = (proof e).0 })
        (record { key = some key; priv = none }) read finished

-- A page that has lost its connection, in whatever history, and has not closed it, gets it back over a relay
-- too, where the platform's functions do as documented and the daemon has the page's token: the retry opens a
-- new socket; when that is open and the daemon greets, the page sends a proof under a private key of 32 bytes
-- that it draws then, whatever it drew before; and when the daemon's answer to that proof arrives, under a
-- private key of 32 bytes, the page has the daemon's session key, is ready, counts no failed attempt and asks
-- for the sessions.
pub History-rejoins :
    (o : World) (new_cmd : Option String) (takeover : Bool) (token : String)
    → (fuel : ℕ) (raw device : String) (draw draw' secret : List ℕ) (frame : Frame) (reply : String)
      (key : List ℕ)
    → {w : Workspace} {log : List Act} → History o (opened_page new_cmd takeover) w log
    → IsStandard o.platform
    → length draw ≡ 32
    → length secret ≡ 32
    → truthy o.setting.hello.token ≡ some token
    → w.app.status ≡ disconnected
    → w.conn.disposed ≡ false
    → o.platform.parse raw ≡ some (daemon (hello_ack device))
    → let text = (proof_message o.platform w.conn.e2e token draw).1 in
      o.platform.parse text ≡ some frame
      → answer o.platform token secret frame ≡ ok (reply, key)
      → let n = w.conn.sockets in
        let w1 = (moves o retries w).0 in
        let w2 = (happen o (Steps.opens n) w1).0 in
        let w3 = (happen o (Steps.message n (suc fuel) raw draw) w2).0 in
        let (w4, acts) = happen o (Steps.message n (suc fuel) reply draw') w3 in
        ((step o.platform o.setting (Steps.message n (suc fuel) raw draw) w2.conn).1
          ≡ sent n text ∷ [])
        × (w3.app.status ≡ connecting)
        × ((step o.platform o.setting (Steps.message n (suc fuel) reply draw') w3.conn).0.e2e
            ≡ record { key = some key; priv = none })
        × (w4.app.status ≡ ready)
        × (w4.app.attempts ≡ 0)
        × (acts ≡ request list booting ∷ (if w.app.saved_conn then [] else save_conn ∷ []))
unfolding step socket_opened
History-rejoins o new_cmd takeover token fuel raw device draw draw' secret frame reply key {w} h std
      hp hs needed s d greets parsed answered =
    let safe = (History-IsSafe o (opened_page-IsSafe new_cmd takeover) h).0 in
    let dead = safe.lost (ap Handlers.is_disconnected s) in
    let n = w.conn.sockets in
    let w1 = attempted o w in
    let w2 = greeted o w1 n in
    let up = greeted_opened o n w1 in
    let read =
      reply_read o draw token needed std draw' fuel secret frame reply key hp hs w2.conn w.conn.e2e
        parsed answered in
    let (app, acts) =
      happen-message o n (suc fuel) reply draw' _ (proving o draw token needed w2) refl read in
    rw
      (
        moves-retries o w d dead,
        happen-opens o n w1,
        happen-greeting o draw token needed n fuel raw device w2 refl up greets,
      )
      (
        ap (λ (r : Connection Await × List (Event Await)). r.1)
            (greeting_proves o draw token needed n fuel raw device w2.conn refl up greets),
        refl,
        ap (λ (r : Connection Await × List (Event Await)). r.0.e2e) read,
        ap (λ (a : App). a.status) app,
        ap (λ (a : App). a.attempts) app,
        acts,
      )
