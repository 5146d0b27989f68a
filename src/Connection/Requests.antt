-- ===== src/Connection/Requests.antt =====
-- Requests and their answers: ids are never used twice, and an answer goes to its request once.
use remote_agent.Common.{
  ◌≤◌, ◌≢◌, sym, true, false, All, ℕ, suc, ◌<◌, ◌≡◌, refl, Option, none, some, List, [], ◌∷◌,
  nat_eq, ==_ne, if_both, arith,
}
use mathlib.Core.Bool.{true≢false}
use remote_agent.Common.Maps.{
  lookup, insert, remove, lookup-insert, lookup-remove, lookup-insert_self, lookup-remove_self,
}
use remote_agent.Platform.{Platform}
use remote_agent.Protocol.{Frame, frame_req_id}
use remote_agent.Connection.{
  Connection, Event, Request, resolved, is_current, shut_socket, connect, reconnect, close, request,
  socket_opened, socket_closed, socket_failed, new_connection,
}
use remote_agent.Connection.Dispatch.{drawing, Setting, done, answer}
use remote_agent.Connection.Steps.{
  Input, connects, reconnects, closes, requests, sends, ticks, opens, closed_by, failed_by, message,
  step, Reach, start, next, Keeps, socket_message_keeps,
}

module _ {K : Type 0} where
  -- No request waits under an id that is still to come.
  abbrev pub Bounded : ℕ → List (ℕ × K) → Type 0
  Bounded n pending = (r : ℕ) → n < r → lookup r pending ≡ none

  abbrev pub IsBounded : Connection K → Type 0
  IsBounded c = Bounded c.req_id c.pending

  insert-Bounded :
      (n : ℕ) (k : K) (pending : List (ℕ × K))
      → Bounded n pending
      → Bounded (suc n) (insert (suc n) k pending)
  insert-Bounded n k pending v r h =
      rw (lookup-insert (suc n) r k pending, ==_ne (suc n) r (omega arith)) (v r (omega arith))

  remove-Bounded :
      (n i : ℕ) (pending : List (ℕ × K)) → Bounded n pending → Bounded n (remove i pending)
  remove-Bounded n i pending v r h = ground (arith, lookup-remove i r pending, v r h)

  nil-Bounded : (n : ℕ) → Bounded n []
  unfolding lookup
  nil-Bounded n r h = refl

  shut_socket-IsBounded :
      (ws : Option ℕ) (c : Connection K) → IsBounded c → IsBounded (shut_socket ws c)
  shut_socket-IsBounded none c v = v
  shut_socket-IsBounded (some id) c v = v

  frame_IsBounded : Keeps IsBounded
  frame_IsBounded = record {
    keeps_pending = λ c r v. remove-Bounded c.req_id r c.pending v;
    keeps_e2e = λ c e h v. v;
    keeps_shut = λ c v. shut_socket-IsBounded c.ws c v;
  }

  connect-IsBounded : (c : Connection K) → IsBounded c → IsBounded (connect c).0
  unfolding connect
  connect-IsBounded c v =
      if_both (λ (r : Connection K × List (Event K)). IsBounded r.0) c.disposed _ _ v
        (if_both (λ (r : Connection K × List (Event K)). IsBounded r.0) _ _ _ v v)

  reconnect-IsBounded : (c : Connection K) → IsBounded c → IsBounded (reconnect c).0
  unfolding reconnect
  reconnect-IsBounded c v =
      if_both (λ (r : Connection K × List (Event K)). IsBounded r.0) c.disposed _ _ v
        (connect-IsBounded _ (shut_socket-IsBounded c.ws _ v))

  socket_closed-IsBounded :
      (id : ℕ) (c : Connection K) → IsBounded c → IsBounded (socket_closed id c).0
  unfolding socket_closed
  socket_closed-IsBounded id c v =
      if_both (λ (r : Connection K × List (Event K)). IsBounded r.0) (is_current c.ws id) _ _
        (nil-Bounded c.req_id) v

module _ {K : Type 0} (p : Platform) (s : Setting) where
  step-IsBounded : (i : Input K) (c : Connection K) → IsBounded c → IsBounded (step p s i c).0
  unfolding step close request socket_opened socket_failed
  step-IsBounded connects c v = connect-IsBounded c v
  step-IsBounded reconnects c v = reconnect-IsBounded c v
  step-IsBounded closes c v = shut_socket-IsBounded c.ws _ v
  step-IsBounded (requests k msg nonce) c v = insert-Bounded c.req_id k c.pending v
  step-IsBounded (sends msg nonce) c v = v
  step-IsBounded ticks c v = v
  step-IsBounded (opens id) c v = v
  step-IsBounded (closed_by id) c v = socket_closed-IsBounded id c v
  step-IsBounded (failed_by id) c v = v
  step-IsBounded (message id fuel raw draw) c v =
      socket_message_keeps p (drawing s draw) IsBounded frame_IsBounded fuel raw c v

  -- In every reachable connection no request waits under an id above the last one given out.
  pub Reach-IsBounded :
      {c : Connection K} {events : List (Event K)} → Reach p s c events → IsBounded c
  unfolding new_connection
  Reach-IsBounded start = nil-Bounded 0
  Reach-IsBounded (next {d} i r a) = step-IsBounded i d (Reach-IsBounded r)

  -- What happens while a request waits, but for messages and the end of a socket.
  abbrev pub IsPatient : Input K → Type 0
  IsPatient (message id fuel raw draw) = false ≡ true
  IsPatient (closed_by id) = false ≡ true
  IsPatient _ = Unit

  abbrev pub after : List (Input K) → Connection K → Connection K
  after [] c = c
  after (i ∷ is) c = after is (step p s i c).0

  abbrev Waits : ℕ → K → Connection K → Type 0
  Waits n k c = (n ≤ c.req_id) × (lookup n c.pending ≡ some k)

  shut_socket-Waits :
      (n : ℕ) (k : K) (ws : Option ℕ) (c : Connection K)
      → Waits n k c
      → Waits n k (shut_socket ws c)
  shut_socket-Waits n k none c v = v
  shut_socket-Waits n k (some id) c v = v

  connect-Waits : (n : ℕ) (k : K) (c : Connection K) → Waits n k c → Waits n k (connect c).0
  unfolding connect
  connect-Waits n k c v =
      if_both (λ (r : Connection K × List (Event K)). Waits n k r.0) c.disposed _ _ v
        (if_both (λ (r : Connection K × List (Event K)). Waits n k r.0) _ _ _ v v)

  reconnect-Waits : (n : ℕ) (k : K) (c : Connection K) → Waits n k c → Waits n k (reconnect c).0
  unfolding reconnect
  reconnect-Waits n k c v =
      if_both (λ (r : Connection K × List (Event K)). Waits n k r.0) c.disposed _ _ v
        (connect-Waits n k _ (shut_socket-Waits n k c.ws _ v))

  step-Waits :
      (n : ℕ) (k : K) (i : Input K) (c : Connection K)
      → IsPatient i
      → Waits n k c
      → Waits n k (step p s i c).0
  unfolding step close request socket_opened socket_failed
  step-Waits n k connects c q v = connect-Waits n k c v
  step-Waits n k reconnects c q v = reconnect-Waits n k c v
  step-Waits n k closes c q v = shut_socket-Waits n k c.ws _ v
  step-Waits n k (requests k' msg nonce) c q (below, waits) = (
    omega (arith, below),
    rw
        (
          lookup-insert (suc c.req_id) n k' c.pending,
          ==_ne (suc c.req_id) n (λ e. omega (arith, e, below)),
        )
        waits,
  )
  step-Waits n k (sends msg nonce) c q v = v
  step-Waits n k ticks c q v = v
  step-Waits n k (opens id) c q v = v
  step-Waits n k (closed_by id) c q v = absurd (true≢false (sym q))
  step-Waits n k (failed_by id) c q v = v
  step-Waits n k (message id fuel raw draw) c q v = absurd (true≢false (sym q))

  after-Waits :
      (n : ℕ) (k : K) (is : List (Input K)) (c : Connection K)
      → All IsPatient is
      → Waits n k c
      → Waits n k (after is c)
  after-Waits n k [] c q v = v
  after-Waits n k (i ∷ is) c (q, qs) v =
      after-Waits n k is (step p s i c).0 qs (step-Waits n k i c q v)

  -- A request takes an id under which no other request waits. Whatever is called afterwards, further requests and
  -- reconnections included, and whatever sockets open and fail, as long as no message arrives and no socket closes,
  -- the first frame with that id that comes to the end of `dispatch` is handed to the request, whose entry is
  -- removed while all others stay, and a second such frame is handed to nobody.
  pub answer-request :
      {c : Connection K} {events : List (Event K)}
      → Reach p s c events
      → (k : K) (msg : Request) (nonce : List ℕ) (is : List (Input K)) (f : Frame)
      → All IsPatient is
      → let n = suc c.req_id in
        let c' = after is (request p k msg nonce c).0 in
        frame_req_id f ≡ some n
        → (lookup n c.pending ≡ none)
          × ((request p k msg nonce c).0.req_id ≡ n)
          × ((d : Connection K) × (answer c' f [] ≡ done d (resolved k f ∷ []))
              × (answer d f [] ≡ done d [])
              × ((r : ℕ) → r ≢ n → lookup r d.pending ≡ lookup r c'.pending))
  unfolding request answer
  answer-request {c} r k msg nonce is f qs e =
      let n = suc c.req_id in
      let v = Reach-IsBounded r n (omega arith) in
      let c' = after is (request p k msg nonce c).0 in
      let (_, waits) =
        after-Waits n k is (request p k msg nonce c).0 qs
          (omega arith, lookup-insert_self n k c.pending) in
      let d : Connection K = record c' { pending = remove n c'.pending } in
      (
        v,
        refl,
        (
          d,
          rw (e, answer, waits),
          rw (e, answer, lookup-remove_self n c'.pending),
          λ q other. rw (lookup-remove n q c'.pending, ==_ne n q (λ same. other (sym same))) refl,
        ),
      )
