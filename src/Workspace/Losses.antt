-- ===== src/Workspace/Losses.antt =====
-- Losses of a connection, as its `onStatus` reports them to web/src/TerminalApp.tsx: the status behind the
-- events of one step, and what a loss leaves of the socket.
use remote_agent.Common.{
  ℕ, ◌≡◌, refl, sym, ap, ◌∙◌, Bool, true, false, not, ◌&&◌, ◌||◌, Option, none, some, List, [], ◌∷◌,
  ◌++◌, arith, Bool-cases, inl, inr, All, nat_eq, if_both,
}
use mathlib.Core.Bool.{true≢false}
use remote_agent.Platform.{Platform}
use remote_agent.Protocol.{ClientMsg}
use remote_agent.Connection.{
  is_closed, ReadyState, Connection, Event, Status, connecting, ready, disconnected, on_status,
  is_current, update, closed, send, connect, reconnect, close, request, socket_opened,
  socket_closed, socket_failed, keepalive_tick, shut_socket, shut_events, has_socket,
}
use remote_agent.Connection.Dispatch.{drawing, Setting}
use remote_agent.Connection.Frames.{IsQuiet, socket_message-IsFine}
use remote_agent.Connection.Sockets.{IsSingle, is_live, no_live}
use remote_agent.Connection.Steps
use remote_agent.Connection.Steps.{
  Allowed, step, connects, reconnects, closes, requests, sends, ticks, opens, closed_by, failed_by,
  message, Keeps, socket_message_keeps,
}
use remote_agent.Terminal.Handlers.{is_ready, is_disconnected}

-- No socket, or one that is closed, so that the next attempt opens a new one.
abbrev pub IsDead : {K : Type 0} → Connection K → Type 0
IsDead c = has_socket c ≡ false

-- With the current socket closed none is live.
current_IsDead :
    (states : ℕ → ReadyState) (ws : Option ℕ) (id : ℕ)
    → is_current ws id ≡ true
    → (elim ws [ none ↦ false | some j ↦ not (is_closed (update states id closed j)) ]) ≡ false
current_IsDead states ws id e = ground arith

module _ {K : Type 0} where
  -- The status behind some events, and whether one of them is a `ready` right behind a loss.
  abbrev pub status_after : Status → List (Event K) → Status
  status_after s [] = s
  status_after s (on_status t ∷ es) = status_after t es
  status_after s (e ∷ es) = status_after s es

  abbrev pub recovers : Status → List (Event K) → Bool
  recovers s [] = false
  recovers s (on_status t ∷ es) = is_disconnected s && is_ready t || recovers t es
  recovers s (e ∷ es) = recovers s es

  -- Events that do not go from a loss to `ready`, and after which a lost connection has no socket but a closed one.
  pub record Calm (s : Status) (r : Connection K × List (Event K)) : Type 0 where
    pub unrecovered : recovers s r.1 ≡ false
    pub lost : is_disconnected (status_after s r.1) ≡ true → IsDead r.0

  pub shut_IsDead : (ws : Option ℕ) (c : Connection K) → IsDead c → IsDead (shut_socket ws c)
  shut_IsDead none c h = h
  shut_IsDead (some id) c h = ground (arith, h)

  send_after :
      (p : Platform) (s : Status) (c : Connection K) (msg : ClientMsg) (nonce : List ℕ)
      → status_after s (send p c msg nonce) ≡ s
  unfolding send
  send_after p s c msg nonce = ground arith

  send_unrecovered :
      (p : Platform) (s : Status) (c : Connection K) (msg : ClientMsg) (nonce : List ℕ)
      → recovers s (send p c msg nonce) ≡ false
  unfolding send
  send_unrecovered p s c msg nonce = ground arith

  tick_after :
      (p : Platform) (s : Status) (c : Connection K) → status_after s (keepalive_tick p c) ≡ s
  unfolding keepalive_tick
  tick_after p s c = ground arith

  tick_unrecovered :
      (p : Platform) (s : Status) (c : Connection K) → recovers s (keepalive_tick p c) ≡ false
  unfolding keepalive_tick
  tick_unrecovered p s c = ground arith

  shut_after :
      (s : Status) (ws : Option ℕ) (es : List (Event K))
      → status_after s (shut_events ws ++ es) ≡ status_after s es
  shut_after s none es = refl
  shut_after s (some id) es = refl

  shut_unrecovered :
      (s : Status) (ws : Option ℕ) (es : List (Event K))
      → recovers s (shut_events ws ++ es) ≡ recovers s es
  shut_unrecovered s none es = refl
  shut_unrecovered s (some id) es = refl

  connect-Calm :
      (s : Status) (c : Connection K) → (is_disconnected s ≡ true → IsDead c) → Calm s (connect c)
  unfolding connect
  connect-Calm s c h = elim (Bool-cases c.disposed) [
    | inl e ↦ rw (e, connect) (record { unrecovered = refl; lost = h })
    | inr e ↦ elim (Bool-cases (has_socket c)) [
      | inl e' ↦ rw (e, connect, e') (record { unrecovered = refl; lost = h })
      | inr e' ↦ rw (e, connect, e') (record { unrecovered = ground arith; lost = λ l. cc })
    ]
  ]

  reconnect-Calm :
      (s : Status) (c : Connection K) → (is_disconnected s ≡ true → IsDead c) → Calm s (reconnect c)
  unfolding reconnect
  reconnect-Calm s c h =
      let d = shut_socket c.ws (record c { ws = none }) in
      let calm = connect-Calm s d (λ l. shut_IsDead c.ws (record c { ws = none }) refl) in
      if_both (Calm s) c.disposed _ _ (record { unrecovered = refl; lost = h })
        (record {
          unrecovered = shut_unrecovered s c.ws _ ∙ calm.unrecovered;
          lost = λ l. calm.lost (sym (ap is_disconnected (shut_after s c.ws _)) ∙ l);
        })

  shut-Calm :
      (s : Status) (ws : Option ℕ) (c : Connection K)
      → (is_disconnected s ≡ true → IsDead c)
      → Calm s (shut_socket ws c, shut_events ws)
  shut-Calm s none c h = record { unrecovered = refl; lost = h }
  shut-Calm s (some id) c h = record {
    unrecovered = refl;
    lost = λ l. shut_IsDead (some id) c (h l);
  }

  -- While a socket is live the status is no loss.
  unlost :
      (s : Status) (c : Connection K) (id : ℕ)
      → IsSingle c
      → is_live (c.states id) ≡ true
      → (is_disconnected s ≡ true → IsDead c)
      → is_disconnected s ≡ false
  unlost s c id v a h = elim (Bool-cases (is_disconnected s)) [
    | inl l ↦ absurd (true≢false (sym a ∙ no_live c v (h l) id))
    | inr u ↦ u
  ]

  socket_closed-Calm :
      (s : Status) (id : ℕ) (c : Connection K)
      → IsSingle c
      → (is_disconnected s ≡ true → IsDead c)
      → Calm s (socket_closed id c)
  unfolding socket_closed
  socket_closed-Calm s id c v h = elim (Bool-cases (is_current c.ws id)) [
    | inl e ↦
        rw (e, socket_closed)
          (record { unrecovered = ground arith; lost = λ l. current_IsDead c.states c.ws id e })
    | inr e ↦ rw (e, socket_closed) (record { unrecovered = refl; lost = λ l. ground (arith, h l) })
  ]

  quiet_unlost :
      (p : Platform) (s : Status) (es : List (Event K))
      → All (IsQuiet p) es
      → is_disconnected s ≡ false
      → (recovers s es ≡ false) × (is_disconnected (status_after s es) ≡ false)
  quiet_unlost p s [] q h = (refl, h)
  quiet_unlost p s (on_status connecting ∷ es) q h = absurd q.0
  quiet_unlost p s (on_status disconnected ∷ es) q h = absurd q.0
  quiet_unlost p s (on_status ready ∷ es) q h = rw h (quiet_unlost p ready es q.1 refl)
  quiet_unlost p s (_ ∷ es) q h = quiet_unlost p s es q.1 h

module _ {K : Type 0} (p : Platform) (g : Setting) where
  -- One step of a connection.
  pub step-Calm :
      (i : Steps.Input K) (s : Status) (c : Connection K)
      → Allowed c i
      → IsSingle c
      → (is_disconnected s ≡ true → IsDead c)
      → Calm s (step p g i c)
  unfolding step close request socket_opened socket_failed
  step-Calm connects s c a v h = connect-Calm s c h
  step-Calm reconnects s c a v h = reconnect-Calm s c h
  step-Calm closes s c a v h = shut-Calm s c.ws _ h
  step-Calm (requests k msg nonce) s c a v h = record {
    unrecovered = send_unrecovered p s _ _ nonce;
    lost = λ l. h (sym (ap is_disconnected (send_after p s _ _ nonce)) ∙ l);
  }
  step-Calm (sends msg nonce) s c a v h = record {
    unrecovered = send_unrecovered p s c msg nonce;
    lost = λ l. h (sym (ap is_disconnected (send_after p s c msg nonce)) ∙ l);
  }
  step-Calm ticks s c a v h = record {
    unrecovered = tick_unrecovered p s c;
    lost = λ l. h (sym (ap is_disconnected (tick_after p s c)) ∙ l);
  }
  step-Calm (opens id) s c a v h = record {
    unrecovered = send_unrecovered p s _ _ _;
    lost = λ l. absurd (
        true≢false
          (sym l ∙ ap is_disconnected (send_after p s _ _ _) ∙ unlost s c id v (ap is_live a) h));
  }
  step-Calm (closed_by id) s c a v h = socket_closed-Calm s id c v h
  step-Calm (failed_by id) s c a v h = record {
    unrecovered = refl;
    lost = λ l. shut_IsDead (some id) c (h l);
  }
  step-Calm (message id fuel raw draw) s c a v h =
      let u = unlost s c id v (ap is_live a) h in
      let q = quiet_unlost p s _ (socket_message-IsFine p (drawing g draw) fuel raw c).quiet u in
      record { unrecovered = q.0; lost = λ l. absurd (true≢false (sym l ∙ q.1)) }
