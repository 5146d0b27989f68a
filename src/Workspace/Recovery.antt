-- ===== src/Workspace/Recovery.antt =====
-- The way back from a lost connection: the retry of web/src/TerminalApp.tsx, and the socket that it opens.
use remote_agent.Common.{
  ℕ, suc, ◌≡◌, refl, ap, ◌∙◌, String, Bool, true, false, ◌&&◌, append-nil, Option, none, some, List,
  [], ◌∷◌, ◌++◌, Option-cases, Bool-cases, inl, inr, if◌then◌else◌, nat_eq, ==_refl,
}
use remote_agent.Protocol.{ClientMsg, daemon, hello_ack}
use remote_agent.E2e.Results.{Result-cases}
use remote_agent.Connection
use remote_agent.Connection.{
  Connection, Event, Status, connecting, ready, disconnected, on_status, created, sent, list,
  truthy, new_socket, has_socket, is_opened, wire, send, opening, opened, socket_opened, ReadyState,
  update,
}
use remote_agent.Connection.Dispatch.{
  drawing, socket_message, logged_outcome, dispatch, done, on_frame, on_daemon, on_hello_ack,
}
use remote_agent.Connection.Steps
use remote_agent.Connection.Steps.{step}
use remote_agent.Terminal.{App, Await, Act, request, connect, booting, save_conn, toast}
use remote_agent.Terminal.Handlers
use remote_agent.Workspace.{
  Workspace, World, opened_page, asks, deliver, settle, receive, happen, perform, user, moves,
  History, retries,
}
use remote_agent.Workspace.Restored.{settle_app, History-IsSafe, opened_page-IsSafe}

pub update_self :
    (states : ℕ → ReadyState) (id : ℕ) (state : ReadyState) → update states id state id ≡ state
update_self states id state = rw (==_refl id) refl

connect_anew :
    (c : Connection Await)
    → c.disposed ≡ false
    → has_socket c ≡ false
    → Connection.connect c ≡ (new_socket c, on_status connecting ∷ created c.sockets ∷ [])
unfolding Connection.connect
connect_anew c d e = rw (d, Connection.connect, e) refl

told_connecting :
    (a : App) → Handlers.on_status connecting a ≡ (record a { status = connecting }, [])
unfolding Handlers.on_status
told_connecting a = elim (Bool-cases (Handlers.is_disconnected a.status)) [
  | inl e ↦ rw (e, Handlers.on_status) refl
  | inr e ↦ rw (e, Handlers.on_status) refl
]

module _ (o : World) where
  -- What is sent is nobody's business.
  receive-send :
      (c : Connection Await) (msg : ClientMsg) (nonce : List ℕ) (w : Workspace)
      → receive o (send o.platform c msg nonce) w ≡ (w, [])
  unfolding receive deliver settle send
  receive-send c msg nonce w = elim (Option-cases c.ws) [
    | inl e ↦ rw (e, send) refl
    | inr (id, e) ↦ elim (Bool-cases (is_opened (c.states id))) [
      | inr e' ↦ rw (e, send, e') refl
      | inl e' ↦ elim (Result-cases (wire o.platform c msg nonce)) [
        | inl (text, e'') ↦ rw (e, send, e', e'') refl
        | inr (x, e'') ↦ rw (e, send, e', e'') refl
      ]
    ]
  ]

  -- The page behind an attempt.
  abbrev pub attempted : Workspace → Workspace
  attempted w = record {
    app = record w.app { status = connecting };
    conn = new_socket w.conn;
    drawn = suc w.drawn;
  }

  pub moves-retries :
      (w : Workspace)
      → w.conn.disposed ≡ false
      → has_socket w.conn ≡ false
      → moves o retries w ≡ (attempted w, connect ∷ [])
  unfolding moves user perform asks happen step receive deliver settle
  moves-retries w d e =
      ap
        (λ (r : Connection Await × List (Event Await)).
          let (w', log) = receive o r.1 (record w { conn = r.0; drawn = suc w.drawn }) in
          (w', connect ∷ log ++ []))
        (connect_anew w.conn d e)
      ∙ ap
          (λ (r : App × List Act). (
            settle o r.1 (record w { app = r.0; conn = new_socket w.conn; drawn = suc w.drawn }),
            connect ∷ (r.1 ++ []) ++ [],
          ))
          (told_connecting w.app)

  -- The page behind the opening of its socket.
  abbrev pub greeted : Workspace → ℕ → Workspace
  greeted w id = record w {
    conn = (socket_opened o.platform o.setting.hello id w.conn).0;
    drawn = suc w.drawn;
  }

  pub greeted_opened : (id : ℕ) (w : Workspace) → (greeted w id).conn.states id ≡ opened
  unfolding socket_opened
  greeted_opened id w = update_self w.conn.states id opened

  pub happen-opens : (id : ℕ) (w : Workspace) → happen o (Steps.opens id) w ≡ (greeted w id, [])
  unfolding happen step socket_opened
  happen-opens id w = receive-send _ _ [] _

  hello_done :
      (draw : List ℕ) (c : Connection Await)
      → truthy o.setting.hello.token ≡ none
      → on_hello_ack o.platform (drawing o.setting draw) c ≡ done c (on_status ready ∷ [])
  unfolding on_hello_ack
  hello_done draw c none_needed = rw (none_needed, on_hello_ack) refl

  -- A greeting of the daemon where no token is needed.
  greeting_read :
      (fuel : ℕ) (raw device : String) (draw : List ℕ) (c : Connection Await)
      → truthy o.setting.hello.token ≡ none
      → o.platform.parse raw ≡ some (daemon (hello_ack device))
      → socket_message o.platform (drawing o.setting draw) (suc fuel) raw c
        ≡ (c, on_status ready ∷ [])
  unfolding socket_message logged_outcome dispatch on_frame on_daemon
  greeting_read fuel raw device draw c none_needed parsed =
      rw (parsed, socket_message, dispatch) (ap (logged_outcome c) (hello_done draw c none_needed))

  told_ready :
      (a : App)
      → a.status ≡ connecting
      → Handlers.on_status ready a ≡ (
        record a { status = ready; attempts = 0; busy_hint = false; saved_conn = true },
        request list booting ∷ (if a.saved_conn then [] else save_conn ∷ []),
      )
  unfolding Handlers.on_status
  told_ready a s =
      ap
        (λ (before : Status). (
          record a { status = ready; attempts = 0; busy_hint = false; saved_conn = true },
          (if Handlers.is_disconnected before && true then toast "连接已恢复，会话画面自动同步" ∷ [] else [])
              ++ request list booting ∷ (if a.saved_conn then [] else save_conn ∷ []),
        ))
        s

  -- The page behind a frame with which the connection is ready.
  pub happen-message :
      (id fuel : ℕ) (raw : String) (draw : List ℕ) (c : Connection Await) (w : Workspace)
      → w.app.status ≡ connecting
      → socket_message o.platform (drawing o.setting draw) fuel raw w.conn
        ≡ (c, on_status ready ∷ [])
      → let (w', log) = happen o (Steps.message id fuel raw draw) w in
        (w'.app
          ≡ record w.app { status = ready; attempts = 0; busy_hint = false; saved_conn = true })
        × (log ≡ request list booting ∷ (if w.app.saved_conn then [] else save_conn ∷ []))
  unfolding happen step receive deliver
  happen-message id fuel raw draw c w s read =
      let told = told_ready w.app s in
      let acts = request list booting ∷ (if w.app.saved_conn then [] else save_conn ∷ []) in
      let receives : Connection Await × List (Event Await) → Workspace × List Act =
        λ r. receive o r.1 (record w { conn = r.0; drawn = suc w.drawn }) in
      let settles : App × List Act → Workspace =
        λ r. settle o r.1 (record w { app = r.0; conn = c; drawn = suc w.drawn }) in
      (
        ap (λ r. (receives r).0.app) read ∙ ap (λ r. (settles r).app) told ∙ settle_app o acts _,
        ap (λ r. (receives r).1) read
            ∙ ap (λ (r : App × List Act). r.1 ++ []) told
            ∙ append-nil acts,
      )

-- A page that has lost its connection, in whatever history, and has not closed it, gets it back where no
-- token is needed: the retry opens a new socket, and when that is open and the daemon greets, the page is
-- ready, counts no failed attempt and asks for the sessions.
pub History-recovers :
    (o : World) (new_cmd : Option String) (takeover : Bool) (fuel : ℕ) (raw device : String)
    (draw : List ℕ) {w : Workspace} {log : List Act}
    → History o (opened_page new_cmd takeover) w log
    → w.app.status ≡ disconnected
    → w.conn.disposed ≡ false
    → truthy o.setting.hello.token ≡ none
    → o.platform.parse raw ≡ some (daemon (hello_ack device))
    → let n = w.conn.sockets in
      let w1 = (moves o retries w).0 in
      let w2 = (happen o (Steps.opens n) w1).0 in
      let (w3, acts) = happen o (Steps.message n (suc fuel) raw draw) w2 in
      (w1.conn.states n ≡ opening)
      × (w2.conn.states n ≡ opened)
      × (w3.app.status ≡ ready)
      × (w3.app.attempts ≡ 0)
      × (acts ≡ request list booting ∷ (if w.app.saved_conn then [] else save_conn ∷ []))
History-recovers o new_cmd takeover fuel raw device draw {w} h s d none_needed parsed =
    let safe = (History-IsSafe o (opened_page-IsSafe new_cmd takeover) h).0 in
    let dead = safe.lost (ap Handlers.is_disconnected s) in
    let n = w.conn.sockets in
    let w2 = greeted o (attempted o w) n in
    let read = greeting_read o fuel raw device draw w2.conn none_needed parsed in
    let (app, acts) = happen-message o n (suc fuel) raw draw w2.conn w2 refl read in
    rw (moves-retries o w d dead, happen-opens o n (attempted o w))
      (
        update_self w.conn.states n opening,
        greeted_opened o n (attempted o w),
        ap (λ (a : App). a.status) app,
        ap (λ (a : App). a.attempts) app,
        acts,
      )
