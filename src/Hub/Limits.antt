-- ===== src/Hub/Limits.antt =====
-- relay/hub.go: one viewer to a room, and queues of bounded length, kept by every locked part.
use remote_agent.Common.{
  ℕ, suc, ◌≤◌, String, Bool, not, Option, none, some, List, [], ◌∷◌, length, length-append, keep,
  ltb, ltb→lt, ◌==◌, nat_eq, string_eq, is_some, if_cases, if_both, ◌&&◌, option_cases, arith,
}
use remote_agent.Common.Maps.{lookup}
use remote_agent.Platform.{Platform}
use remote_agent.Protocol.{Frame}
use remote_agent.Hub.{
  Hub, Conn, Room, as_daemon, as_client, unset, Sent, queued, kicked, panicked, Outcome, set_conn,
  set_room, shutdown, send_msg, send_queue, broadcast, find_or_make, register, join, forward_up,
  forward, kick, leave, reclaim, unregister, sent_outcome, is_host,
}
use remote_agent.Hub.Ends.{SentHolds, OutcomeHolds, sent_cases, outcome_cases}

pub record IsLimited (h : Hub) : Type 0 where
  pub viewers : (r : ℕ) → length (h.heap r).clients ≤ 1
  pub queues : (c : ℕ) → length (h.conns c).queue ≤ send_queue

abbrev pub LimitedSent : Sent → Type 0
LimitedSent s = SentHolds IsLimited s

abbrev pub LimitedOutcome : Outcome → Type 0
LimitedOutcome o = OutcomeHolds IsLimited o

pub set_conn-IsLimited :
    (c : ℕ) (k : Conn) (h : Hub)
    → length k.queue ≤ send_queue
    → IsLimited h
    → IsLimited (set_conn c k h)
set_conn-IsLimited c k h fits v = record {
  viewers = v.viewers;
  queues = λ j. if_both (λ (x : Conn). length x.queue ≤ send_queue) (c == j) _ _ fits (v.queues j);
}

set_room-IsLimited :
    (r : ℕ) (room : Room) (h : Hub)
    → length room.clients ≤ 1
    → IsLimited h
    → IsLimited (set_room r room h)
set_room-IsLimited r room h few v = record {
  viewers = λ j. if_both (λ (x : Room). length x.clients ≤ 1) (r == j) _ _ few (v.viewers j);
  queues = v.queues;
}

pub shutdown-IsLimited : (c : ℕ) (h : Hub) → IsLimited h → IsLimited (shutdown c h)
unfolding shutdown
shutdown-IsLimited c h v = set_conn-IsLimited c _ h (v.queues c) v

pub send_msg-Limited :
    (c : ℕ) (text : String) (h : Hub) → IsLimited h → LimitedSent (send_msg c text h)
unfolding send_msg
send_msg-Limited c text h v =
    let k = h.conns c in
    if_both LimitedSent k.shut _ _ v (
      if_cases LimitedSent (ltb (length k.queue) send_queue) _ _
        (λ room.
          set_conn-IsLimited c _ h
            (omega
              (arith, length-append k.queue (text ∷ []), ltb→lt (length k.queue) send_queue room))
            v)
        (λ _. shutdown-IsLimited c h v))

broadcast-Limited :
    (cs : List ℕ) (text : String) (h : Hub) → IsLimited h → LimitedOutcome (broadcast cs text h)
unfolding broadcast
broadcast-Limited [] text h v = v
broadcast-Limited (c ∷ cs) text h v =
    sent_cases LimitedOutcome IsLimited (send_msg c text h) _ _ _ (send_msg-Limited c text h v)
      (broadcast-Limited cs text) (broadcast-Limited cs text) (λ h' v'. v')

pub find_or_make-IsLimited : (id : String) (h : Hub) → IsLimited h → IsLimited (find_or_make id h).0
unfolding find_or_make
find_or_make-IsLimited id h v =
    option_cases (λ (r : Hub × ℕ). IsLimited r.0) (lookup id h.rooms) _ _
      (record {
        viewers = λ j.
            if_both (λ (x : Room). length x.clients ≤ 1) (h.made == j) _ _ (omega arith)
              (v.viewers j);
        queues = v.queues;
      })
      (λ r e. v)

length-keep : (test : ℕ → Bool) (cs : List ℕ) → length (keep test cs) ≤ length cs
length-keep test [] = omega arith
length-keep test (c ∷ cs) =
    if_both (λ (l : List ℕ). length l ≤ suc (length cs)) (test c) _ _
      (omega (arith, length-keep test cs)) (omega (arith, length-keep test cs))

module _ (p : Platform) where
  pub register-Limited :
      (id token : String) (c r : ℕ) (h : Hub)
      → IsLimited h
      → LimitedOutcome (register p id token c r h).0
  unfolding register
  register-Limited id token c r h v =
      option_cases (λ (o : Outcome × Frame). LimitedOutcome o.0) (h.heap r).host _ _
        (broadcast-Limited (h.heap r).clients _ _
          (set_conn-IsLimited c _ _ (v.queues c) (set_room-IsLimited r _ h (v.viewers r) v)))
        (λ other e. v)

  pub join-IsLimited :
      (id : String) (c r : ℕ) (h : Hub) → IsLimited h → IsLimited (join p id c r h).0
  unfolding join
  join-IsLimited id c r h v =
      let Good : Hub × Frame → Type 0 = λ o. IsLimited o.0 in
      if_both Good (not (is_some (h.heap r).host)) _ _ v (
        if_cases Good (ltb 0 (length (h.heap r).clients)) _ _ (λ _. v)
          (λ empty.
            set_conn-IsLimited c _ _ (v.queues c)
              (set_room-IsLimited r _ h (ground (arith, empty)) v)))

  sent_outcome-Limited : (s : Sent) → LimitedSent s → LimitedOutcome (sent_outcome p s)
  sent_outcome-Limited (queued h) v = v
  sent_outcome-Limited (kicked h) v = v
  sent_outcome-Limited (panicked h) v = v

  forward_up-Limited :
      (c : ℕ) (host : Option ℕ) (raw : String) (h : Hub)
      → IsLimited h
      → LimitedOutcome (forward_up p c host raw h)
  unfolding forward_up
  forward_up-Limited c none raw h v =
      sent_outcome-Limited (send_msg c _ h) (send_msg-Limited c _ h v)
  forward_up-Limited c (some d) raw h v =
      sent_outcome-Limited (send_msg d raw h) (send_msg-Limited d raw h v)

  pub forward-Limited :
      (c r : ℕ) (raw : String) (h : Hub) → IsLimited h → LimitedOutcome (forward p c r raw h)
  unfolding forward
  forward-Limited c r raw h v =
      elim (h.conns c).role
        as (λ role. LimitedOutcome (elim role [
          | as_daemon ↦ broadcast (h.heap r).clients raw h
          | as_client ↦ forward_up p c (h.heap r).host raw h
          | unset ↦ forward_up p c (h.heap r).host raw h
        ])) [
          | as_daemon ↦ broadcast-Limited (h.heap r).clients raw h v
          | as_client ↦ forward_up-Limited c (h.heap r).host raw h v
          | unset ↦ forward_up-Limited c (h.heap r).host raw h v
        ]

  pub kick-IsLimited : (r : ℕ) (h : Hub) → IsLimited h → IsLimited (kick p r h)
  unfolding kick
  kick-IsLimited r h v = set_room-IsLimited r _ h (omega arith) v

  leave-Limited : (c r : ℕ) (h : Hub) → IsLimited h → LimitedOutcome (leave p c r h)
  unfolding leave
  leave-Limited c r h v =
      if_both LimitedOutcome (is_host p h c r) _ _
        (broadcast-Limited (h.heap r).clients _ _ (set_room-IsLimited r _ h (v.viewers r) v))
        (set_room-IsLimited r _ h
          (omega (arith, v.viewers r, length-keep (λ other. not (other == c)) (h.heap r).clients))
          v)

  reclaim-IsLimited : (c r : ℕ) (h : Hub) → IsLimited h → IsLimited (reclaim p c r h)
  unfolding reclaim
  reclaim-IsLimited c r h v =
      if_both IsLimited (not (is_some (h.heap r).host) && not (ltb 0 (length (h.heap r).clients))) _
        _ (record { viewers = v.viewers; queues = v.queues }) v

  pub unregister-Limited : (c r : ℕ) (h : Hub) → IsLimited h → LimitedOutcome (unregister p c r h)
  unfolding unregister
  unregister-Limited c r h v =
      let left = leave-Limited c r h v in
      outcome_cases LimitedOutcome IsLimited (leave p c r h) _ _ left (reclaim-IsLimited c r)
        (λ h' v'. v')
