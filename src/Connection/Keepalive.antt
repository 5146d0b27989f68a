-- ===== src/Connection/Keepalive.antt =====
-- The interval of the keepalive: at most one runs, and a late `onclose` of an old socket stops the
-- one of its successor.
use remote_agent.Common.{
  ℕ, ◌≡◌, ◌≢◌, refl, ◌⊎◌, inl, inr, Option, none, some, List, [], ◌∷◌, nat_eq, ==_refl, if_both,
  arith,
}
use remote_agent.Platform.{Platform}
use remote_agent.Connection.{
  Connection, Event, clear_interval, is_current, shut_socket, connect, reconnect, close, request,
  socket_opened, socket_closed, socket_failed, new_connection,
}
use remote_agent.Connection.Dispatch.{drawing, Setting}
use remote_agent.Connection.Steps.{
  Input, connects, reconnects, closes, requests, sends, ticks, opens, closed_by, failed_by, message,
  step, Runs, Reach, start, next, Keeps, socket_message_keeps,
}

-- No interval runs, or the one of `keepalive` alone.
abbrev pub AtMostOne : Option ℕ → List ℕ → Type 0
AtMostOne k hs = (hs ≡ []) ⊎ ((h : ℕ) × (k ≡ some h) × (hs ≡ h ∷ []))

clear_all : (k : Option ℕ) (hs : List ℕ) → AtMostOne k hs → clear_interval k hs ≡ []
clear_all none hs (inl e) = e
clear_all (some h) hs (inl e) = rw e refl
clear_all k hs (inr (h, e, e')) = rw (e, e', ==_refl h) refl

module _ {K : Type 0} where
  abbrev pub HasOneInterval : Connection K → Type 0
  HasOneInterval c = AtMostOne c.keepalive c.intervals

  shut_socket-HasOneInterval :
      (ws : Option ℕ) (c : Connection K) → HasOneInterval c → HasOneInterval (shut_socket ws c)
  shut_socket-HasOneInterval none c v = v
  shut_socket-HasOneInterval (some id) c v = v

  frame_HasOneInterval : Keeps HasOneInterval
  frame_HasOneInterval = record {
    keeps_pending = λ c r v. v;
    keeps_e2e = λ c e h v. v;
    keeps_shut = λ c v. shut_socket-HasOneInterval c.ws c v;
  }

  connect-HasOneInterval : (c : Connection K) → HasOneInterval c → HasOneInterval (connect c).0
  unfolding connect
  connect-HasOneInterval c v =
      if_both (λ (r : Connection K × List (Event K)). HasOneInterval r.0) c.disposed _ _ v
        (if_both (λ (r : Connection K × List (Event K)). HasOneInterval r.0) _ _ _ v v)

  reconnect-HasOneInterval : (c : Connection K) → HasOneInterval c → HasOneInterval (reconnect c).0
  unfolding reconnect
  reconnect-HasOneInterval c v =
      if_both (λ (r : Connection K × List (Event K)). HasOneInterval r.0) c.disposed _ _ v
        (connect-HasOneInterval _ (shut_socket-HasOneInterval c.ws _ v))

  close-HasOneInterval : (c : Connection K) → HasOneInterval c → HasOneInterval (close c).0
  unfolding close
  close-HasOneInterval c v =
      shut_socket-HasOneInterval c.ws _ (inl (clear_all c.keepalive c.intervals v))

  socket_closed-HasOneInterval :
      (id : ℕ) (c : Connection K) → HasOneInterval c → HasOneInterval (socket_closed id c).0
  unfolding socket_closed
  socket_closed-HasOneInterval id c v =
      let w : HasOneInterval (record c { intervals = clear_interval c.keepalive c.intervals }) =
        inl (clear_all c.keepalive c.intervals v) in
      if_both (λ (r : Connection K × List (Event K)). HasOneInterval r.0) (is_current c.ws id) _ _ w
        w

module _ {K : Type 0} (p : Platform) (s : Setting) where
  step-HasOneInterval :
      (i : Input K) (c : Connection K) → HasOneInterval c → HasOneInterval (step p s i c).0
  unfolding step request socket_opened socket_failed
  step-HasOneInterval connects c v = connect-HasOneInterval c v
  step-HasOneInterval reconnects c v = reconnect-HasOneInterval c v
  step-HasOneInterval closes c v = close-HasOneInterval c v
  step-HasOneInterval (requests k msg nonce) c v = v
  step-HasOneInterval (sends msg nonce) c v = v
  step-HasOneInterval ticks c v = v
  step-HasOneInterval (opens id) c v =
      inr (c.timers, refl, rw (clear_all c.keepalive c.intervals v))
  step-HasOneInterval (closed_by id) c v = socket_closed-HasOneInterval id c v
  step-HasOneInterval (failed_by id) c v = v
  step-HasOneInterval (message id fuel raw draw) c v =
      socket_message_keeps p (drawing s draw) HasOneInterval frame_HasOneInterval fuel raw c v

  Runs-HasOneInterval :
      {c d : Connection K} {events : List (Event K)}
      → HasOneInterval c
      → Runs p s c d events
      → HasOneInterval d
  Runs-HasOneInterval v start = v
  Runs-HasOneInterval v (next {d} i r a) = step-HasOneInterval i d (Runs-HasOneInterval v r)

  -- In every reachable connection at most one keepalive interval runs, the one whose handle is kept:
  -- reconnections leak none.
  pub Reach-HasOneInterval :
      {c : Connection K} {events : List (Event K)} → Reach p s c events → HasOneInterval c
  unfolding new_connection
  Reach-HasOneInterval r = Runs-HasOneInterval (inl refl) r

  -- When a socket that is no longer the current one closes, no keepalive interval runs any more,
  -- whatever the state of the current socket, which stays as it was.
  pub late_close_stops_keepalive :
      {c : Connection K} {events : List (Event K)}
      → Reach p s c events
      → (old current : ℕ) → c.ws ≡ some current
      → old ≢ current
      → let d = (step p s (closed_by old) c).0 in
        (d.intervals ≡ [])
        × (d.ws ≡ some current)
        × (d.states current ≡ c.states current)
        × ((step p s (closed_by old) c).1 ≡ [])
  unfolding step socket_closed
  late_close_stops_keepalive {c} r old current e differ =
      let cleared = clear_all c.keepalive c.intervals (Reach-HasOneInterval r) in
      (ground (arith, cleared), ground arith, ground arith, ground arith)
