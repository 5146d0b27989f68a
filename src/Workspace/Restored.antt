-- ===== src/Workspace/Restored.antt =====
-- The toast of `onStatus` in web/src/TerminalApp.tsx that is meant to follow a loss.
use remote_agent.Common.{
  ℕ, ◌≡◌, refl, sym, ap, subst, ◌∙◌, Bool, true, false, ◌&&◌, ◌||◌, Option, none, some, List, [],
  ◌∷◌, any, any-append, or_false, arith, Option-cases, inl, inr, String,
}
use remote_agent.Connection.{
  Connection, Event, Status, connecting, ready, disconnected, on_status, new_connection,
}
use remote_agent.Connection.Sockets.{IsSingle, step-IsSingle, new_connection-IsSingle}
use remote_agent.Connection.Steps
use remote_agent.Connection
use remote_agent.Connection.Steps.{Allowed, step}
use remote_agent.Terminal.{App, Await, Act, send, request, connect, reconnect, close, toast, start}
use remote_agent.Terminal.Handlers
use remote_agent.Terminal.Handlers.{is_ready, is_disconnected}
use remote_agent.Workspace.{
  Workspace, World, opened_page, asks, deliver, settle, receive, happen, perform, UserMove, user,
  moves, History, begun, by_browser, by_user,
}
use mathlib.Core.Bool.{true≢false}
use remote_agent.Workspace.Simulation.{asks-Allowed}
use remote_agent.Workspace.Losses.{IsDead, Calm, status_after, recovers, step-Calm, shut_IsDead}
use remote_agent.Workspace.Quiet.{is_restored, is_loud, deliver-Mild, user_status, user_untold}

quiet_untold : (acts : List Act) → any is_loud acts ≡ false → any is_restored acts ≡ false
quiet_untold [] h = refl
quiet_untold (toast text ∷ acts) h = ground (arith, quiet_untold acts)
quiet_untold (act ∷ acts) h = ground (arith, quiet_untold acts)

-- Of a workspace: one socket at most, and none that is live while the status is a loss.
pub record IsSafe (w : Workspace) : Type 0 where
  pub single : IsSingle w.conn
  pub lost : is_disconnected w.app.status ≡ true → IsDead w.conn

-- One event, split from those behind it.
status_after_first :
    (s : Status) (e : Event Await) (es : List (Event Await))
    → status_after s (e ∷ es) ≡ status_after (status_after s (e ∷ [])) es
status_after_first s (on_status t) es = refl
status_after_first s _ es = refl

recovers_first :
    (s : Status) (e : Event Await) (es : List (Event Await))
    → recovers s (e ∷ es) ≡ (recovers s (e ∷ []) || recovers (status_after s (e ∷ [])) es)
recovers_first s (on_status t) es = ground arith
recovers_first s _ es = refl

-- `onStatus`, but with `ready` behind a loss.
on_status_quiet :
    (s : Status) (a : App)
    → (is_disconnected a.status && is_ready s) ≡ false
    → ((Handlers.on_status s a).0.status ≡ s) × (any is_loud (Handlers.on_status s a).1 ≡ false)
unfolding Handlers.on_status
on_status_quiet connecting a h = rw h (refl, refl)
on_status_quiet disconnected a h = rw h (refl, refl)
on_status_quiet ready a h = rw h (refl, ground arith)

module _ (o : World) where
  deliver_told :
      (e : Event Await) (a : App)
      → recovers a.status (e ∷ []) ≡ false
      → ((deliver o e a).0.status ≡ status_after a.status (e ∷ []))
        × (any is_loud (deliver o e a).1 ≡ false)
  unfolding deliver
  deliver_told (on_status s) a h = on_status_quiet s a (ground arith)
  deliver_told e a h = let m = deliver-Mild o e a (λ s. cc) in (m.same_status, m.quiet)

  pub settle_app : (acts : List Act) (w : Workspace) → (settle o acts w).app ≡ w.app
  unfolding settle
  settle_app [] w = refl
  settle_app (act ∷ acts) w = elim (Option-cases (asks act (o.nonce w.drawn))) [
    | inl e ↦ rw (e, settle) (settle_app acts w)
    | inr (i, e) ↦ rw (e, settle) (settle_app acts _)
  ]

  settle-IsSingle :
      (acts : List Act) (w : Workspace) → IsSingle w.conn → IsSingle (settle o acts w).conn
  unfolding settle
  settle-IsSingle [] w v = v
  settle-IsSingle (act ∷ acts) w v = elim (Option-cases (asks act (o.nonce w.drawn))) [
    | inl e ↦ rw (e, settle) (settle-IsSingle acts w v)
    | inr (i, e) ↦
        rw (e, settle)
          (settle-IsSingle acts _ (
            step-IsSingle o.platform o.setting i w.conn (asks-Allowed o w.conn act _ i w.conn e) v))
  ]

  abbrev KeepsDead : Connection Await → Option (Steps.Input Await) → Type 0
  KeepsDead c none = Unit
  KeepsDead c (some i) = IsDead (step o.platform o.setting i c).0

  -- Acts that are not loud open no socket.
  asks-KeepsDead :
      (act : Act) (nonce : List ℕ) (c : Connection Await)
      → is_loud act ≡ false
      → IsDead c
      → KeepsDead c (asks act nonce)
  unfolding asks step Connection.request Connection.close
  asks-KeepsDead (send msg) nonce c q h = h
  asks-KeepsDead (request r k) nonce c q h = h
  asks-KeepsDead connect nonce c q h = absurd (true≢false q)
  asks-KeepsDead reconnect nonce c q h = absurd (true≢false q)
  asks-KeepsDead close nonce c q h = shut_IsDead c.ws _ h
  asks-KeepsDead _ nonce c q h = tt

  settle-IsDead :
      (acts : List Act) (w : Workspace)
      → any is_loud acts ≡ false
      → IsDead w.conn
      → IsDead (settle o acts w).conn
  unfolding settle
  settle-IsDead [] w q h = h
  settle-IsDead (act ∷ acts) w q h =
      let (first, rest) = or_false q in
      elim (Option-cases (asks act (o.nonce w.drawn))) [
        | inl e ↦ rw (e, settle) (settle-IsDead acts w rest h)
        | inr (i, e) ↦
            rw (e, settle)
              (settle-IsDead acts _ rest
                (subst (KeepsDead w.conn) e (asks-KeepsDead act _ w.conn first h)))
      ]

  -- Events among which no `ready` follows a loss show no such toast.
  receive-IsSafe :
      (es : List (Event Await)) (w : Workspace)
      → IsSingle w.conn
      → Calm w.app.status (w.conn, es)
      → IsSafe (receive o es w).0 × (any is_restored (receive o es w).1 ≡ false)
  unfolding receive
  receive-IsSafe [] w v calm = (record { single = v; lost = calm.lost }, refl)
  receive-IsSafe (e ∷ es) w v calm =
      let (first, rest) = or_false (sym (recovers_first w.app.status e es) ∙ calm.unrecovered) in
      let (told, quiet) = deliver_told e w.app first in
      let (a, acts) = deliver o e w.app in
      let w' = settle o acts (record w { app = a }) in
      let same = ap (λ (b : App). b.status) (settle_app acts (record w { app = a })) ∙ told in
      let (safe, untold) = receive-IsSafe es w' (settle-IsSingle acts _ v) (record {
        unrecovered = ap (λ s. recovers s es) same ∙ rest;
        lost = λ l. settle-IsDead acts _ quiet (
            calm.lost (
              ap is_disconnected
                (status_after_first w.app.status e es ∙ sym (ap (λ s. status_after s es) same))
              ∙ l));
      }) in
      (safe, any-append is_restored acts _ ∙ ground (arith, quiet_untold acts quiet, untold))

  happen-IsSafe :
      (i : Steps.Input Await) (w : Workspace)
      → Allowed w.conn i
      → IsSafe w
      → IsSafe (happen o i w).0 × (any is_restored (happen o i w).1 ≡ false)
  unfolding happen
  happen-IsSafe i w a safe =
      let calm = step-Calm o.platform o.setting i w.app.status w.conn a safe.single safe.lost in
      receive-IsSafe _ _ (step-IsSingle o.platform o.setting i w.conn a safe.single)
        (record { unrecovered = calm.unrecovered; lost = calm.lost })

  perform-IsSafe :
      (acts : List Act) (w : Workspace)
      → any is_restored acts ≡ false
      → IsSafe w
      → IsSafe (perform o acts w).0 × (any is_restored (perform o acts w).1 ≡ false)
  unfolding perform
  perform-IsSafe [] w q safe = (safe, refl)
  perform-IsSafe (act ∷ acts) w q safe =
      let (first, rest) = or_false {a = is_restored act} q in
      elim (Option-cases (asks act (o.nonce w.drawn))) [
        | inl e ↦
            let (after, untold) = perform-IsSafe acts w rest safe in
            rw (e, perform) (after, ground (arith, first, untold))
        | inr (i, e) ↦
            let (v, told) = happen-IsSafe i w (asks-Allowed o w.conn act _ i w.conn e) safe in
            let (after, untold) = perform-IsSafe acts (happen o i w).0 rest v in
            let joined =
              any-append is_restored (happen o i w).1 (perform o acts (happen o i w).0).1 in
            rw (e, perform) (after, ground (arith, first, joined, told, untold))
      ]

  moves-IsSafe :
      (m : UserMove) (w : Workspace)
      → IsSafe w
      → IsSafe (moves o m w).0 × (any is_restored (moves o m w).1 ≡ false)
  unfolding moves
  moves-IsSafe m w safe = perform-IsSafe (user o m w.app).1 _ (user_untold o m w.app) (record {
    single = safe.single;
    lost = λ l. safe.lost (ap is_disconnected (sym (user_status o m w.app)) ∙ l);
  })

  pub History-IsSafe :
      {w v : Workspace} {log : List Act}
      → IsSafe w
      → History o w v log
      → IsSafe v × (any is_restored log ≡ false)
  History-IsSafe safe begun = (safe, refl)
  History-IsSafe safe (by_browser {v} {log} i h a) =
      let (before, none_yet) = History-IsSafe safe h in
      let (after, untold) = happen-IsSafe i v a before in
      (after, any-append is_restored log _ ∙ ground (arith, none_yet, untold))
  History-IsSafe safe (by_user {v} {log} m h) =
      let (before, none_yet) = History-IsSafe safe h in
      let (after, untold) = moves-IsSafe m v before in
      (after, any-append is_restored log _ ∙ ground (arith, none_yet, untold))

pub opened_page-IsSafe :
    (new_cmd : Option String) (takeover : Bool) → IsSafe (opened_page new_cmd takeover)
unfolding opened_page start
opened_page-IsSafe new_cmd takeover = record {
  single = new_connection-IsSingle Await;
  lost = λ l. absurd (true≢false (sym l));
}

-- Whatever the user, the page, the timers and the browser do from the first render on, the toast that
-- the connection is back is never among the acts that are carried out: every `ready` comes behind the
-- `connecting` of its own attempt, never behind a loss.
pub History-restored :
    (o : World) (new_cmd : Option String) (takeover : Bool) {v : Workspace} {log : List Act}
    → History o (opened_page new_cmd takeover) v log
    → any is_restored log ≡ false
History-restored o new_cmd takeover h = (History-IsSafe o (opened_page-IsSafe new_cmd takeover) h).1
