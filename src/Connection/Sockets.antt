-- ===== src/Connection/Sockets.antt =====
-- One socket at a time: a socket that is opening or open is the current one.
use remote_agent.Common.{
  ℕ, suc, ◌≤◌, ◌≡◌, refl, Bool, true, false, Option, none, some, List, nat_eq, Option-cases,
  Bool-cases, inl, inr, arith, if_both,
}
use remote_agent.Platform.{Platform}
use remote_agent.Connection.{
  Connection, Event, ReadyState, opening, opened, closed, update, after_close, has_socket,
  shut_socket, new_connection, connect, reconnect, close, request, socket_opened, socket_closed,
  socket_failed, is_current,
}
use remote_agent.Connection.Dispatch.{drawing, Setting}
use remote_agent.Connection.Steps.{
  Input, connects, reconnects, closes, requests, sends, ticks, opens, closed_by, failed_by, message,
  Allowed, step, Runs, Reach, start, next, Keeps, socket_message_keeps,
}

-- A socket that has not begun to close.
abbrev pub is_live : ReadyState → Bool
is_live opening = true
is_live opened = true
is_live _ = false

-- Each live socket is `ws`, and the sockets from number `sockets` on do not exist yet.
pub record Single (states : ℕ → ReadyState) (sockets : ℕ) (ws : Option ℕ) : Type 0 where
  pub live : (id : ℕ) → is_live (states id) ≡ true → ws ≡ some id
  pub fresh : (id : ℕ) → sockets ≤ id → states id ≡ closed

module _ (states : ℕ → ReadyState) (sockets : ℕ) (ws : Option ℕ)
    (v : Single states sockets ws) where
  shut_Single : (id : ℕ) → Single (update states id (after_close (states id))) sockets ws
  shut_Single id = record {
    live = λ i h. ground (arith, v.live i);
    fresh = λ i h. ground (arith, v.fresh i h);
  }

  opened_Single : (id : ℕ) → states id ≡ opening → Single (update states id opened) sockets ws
  opened_Single id e = record {
    live = λ i h. ground (arith, v.live i, v.live id);
    fresh = λ i h. ground (arith, v.fresh i h);
  }

  closed_Single : (id : ℕ) → Single (update states id closed) sockets ws
  closed_Single id = record {
    live = λ i h. ground (arith, v.live i);
    fresh = λ i h. ground (arith, v.fresh i h);
  }

  -- Once the current socket begins to close, none is live.
  detached_Single :
      (id : ℕ) → ws ≡ some id → Single (update states id (after_close (states id))) sockets none
  detached_Single id e = record {
    live = λ i h. ground (arith, v.live i);
    fresh = λ i h. ground (arith, v.fresh i h);
  }

  -- A new socket is the only live one, if the old one is closed or there is none.
  new_Single :
      ((id : ℕ) → is_live (states id) ≡ false)
      → Single (update states sockets opening) (suc sockets) (some sockets)
  new_Single dead = record {
    live = λ i h. ground (arith, dead i);
    fresh = λ i h. ground (arith, v.fresh i);
  }

module _ {K : Type 0} where
  abbrev pub IsSingle : Connection K → Type 0
  IsSingle c = Single c.states c.sockets c.ws

  shut_socket-IsSingle :
      (ws : Option ℕ) (c : Connection K) → IsSingle c → IsSingle (shut_socket ws c)
  shut_socket-IsSingle none c v = v
  shut_socket-IsSingle (some id) c v = shut_Single c.states c.sockets c.ws v id

  -- A connection whose current socket is closed, or that has none, has no live socket.
  pub no_live :
      (c : Connection K)
      → IsSingle c
      → has_socket c ≡ false
      → (id : ℕ) → is_live (c.states id) ≡ false
  no_live c v h id = ground (arith, v.live id)

  connect-IsSingle : (c : Connection K) → IsSingle c → IsSingle (connect c).0
  unfolding connect
  connect-IsSingle c v = elim (Bool-cases c.disposed) [
    | inl e ↦ rw (e, connect) v
    | inr e ↦ elim (Bool-cases (has_socket c)) [
      | inl e' ↦ rw (e, connect, e') v
      | inr e' ↦ rw (e, connect, e') (new_Single c.states c.sockets c.ws v (no_live c v e'))
    ]
  ]

  detached-IsSingle :
      (c : Connection K) → IsSingle c → IsSingle (shut_socket c.ws (record c { ws = none }))
  detached-IsSingle c v = elim (Option-cases c.ws) [
    | inl e ↦ rw e (rw e at v)
    | inr (id, e) ↦ rw e (detached_Single c.states c.sockets c.ws v id e)
  ]

  reconnect-IsSingle : (c : Connection K) → IsSingle c → IsSingle (reconnect c).0
  unfolding reconnect
  reconnect-IsSingle c v =
      if_both (λ (r : Connection K × List (Event K)). IsSingle r.0) c.disposed _ _ v
        (connect-IsSingle _ (detached-IsSingle c v))

  close-IsSingle : (c : Connection K) → IsSingle c → IsSingle (close c).0
  unfolding close
  close-IsSingle c v = shut_socket-IsSingle c.ws _ v

  socket_closed-IsSingle :
      (id : ℕ) (c : Connection K) → IsSingle c → IsSingle (socket_closed id c).0
  unfolding socket_closed
  socket_closed-IsSingle id c v =
      let w = closed_Single c.states c.sockets c.ws v id in
      if_both (λ (r : Connection K × List (Event K)). IsSingle r.0) (is_current c.ws id) _ _ w w

pub new_connection-IsSingle : (K : Type 0) → IsSingle {K = K} new_connection
unfolding new_connection
new_connection-IsSingle K = record { live = λ id h. cc; fresh = λ id h. refl }

frame_IsSingle : {K : Type 0} → Keeps {K = K} IsSingle
frame_IsSingle = record {
  keeps_pending = λ c r v. v;
  keeps_e2e = λ c e h v. v;
  keeps_shut = λ c v. shut_socket-IsSingle c.ws c v;
}

module _ {K : Type 0} (p : Platform) (s : Setting) where
  pub step-IsSingle :
      (i : Input K) (c : Connection K) → Allowed c i → IsSingle c → IsSingle (step p s i c).0
  unfolding step request socket_opened socket_failed
  step-IsSingle connects c a v = connect-IsSingle c v
  step-IsSingle reconnects c a v = reconnect-IsSingle c v
  step-IsSingle closes c a v = close-IsSingle c v
  step-IsSingle (requests k msg nonce) c a v = v
  step-IsSingle (sends msg nonce) c a v = v
  step-IsSingle ticks c a v = v
  step-IsSingle (opens id) c a v = opened_Single c.states c.sockets c.ws v id a
  step-IsSingle (closed_by id) c a v = socket_closed-IsSingle id c v
  step-IsSingle (failed_by id) c a v = shut_socket-IsSingle (some id) c v
  step-IsSingle (message id fuel raw draw) c a v =
      socket_message_keeps p (drawing s draw) IsSingle frame_IsSingle fuel raw c v

  Runs-IsSingle :
      {c d : Connection K} {events : List (Event K)} → IsSingle c → Runs p s c d events → IsSingle d
  Runs-IsSingle v start = v
  Runs-IsSingle v (next {d} i r a) = step-IsSingle i d a (Runs-IsSingle v r)

  -- Whatever the caller and the browser do, in whatever order, every socket that is opening or open
  -- is the current one: there are never two.
  pub Reach-IsSingle :
      {c : Connection K} {events : List (Event K)} → Reach p s c events → IsSingle c
  Reach-IsSingle r = Runs-IsSingle (new_connection-IsSingle K) r
