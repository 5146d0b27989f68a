-- ===== src/Hub/Pump/Delivery.antt =====
-- relay/hub.go and main.go: the way of a text from a daemon to its viewer, over the room and the queue.
use remote_agent.Common.{
  subst, ℕ, ◌<◌, ◌≡◌, ◌≢◌, refl, sym, ap, ◌∙◌, String, true, false, Option, none, some, List, [],
  ◌∷◌, ◌++◌, append_assoc, append-nil, All, length, ltb, ◌==◌, nat_eq, string_eq, arith, take,
}
use mathlib.Core.Bool.{true≢false}
use remote_agent.Common.Maps.{lookup}
use remote_agent.Platform.{Platform}
use remote_agent.Hub.{Hub, as_daemon, done, set_conn, send_msg, send_queue, broadcast}
use remote_agent.Hub.Pump.{
  Phase, proceed, System, forwarding, reading, at, texts, proceeds, drains, step, read, with_room,
  drain,
}
use remote_agent.Hub.Pump.Slow.{put_self, put_other, with_room_lem, step-forwarding, forward_down}

-- Where the goroutine of a daemon is that has registered, and the text that it carries to the room `r`.
abbrev pub IsCarrying : (r : ℕ) → List String → Phase → Type 0
IsCarrying r [] phase = phase ≡ reading
IsCarrying r (raw ∷ rest) phase = (phase ≡ forwarding r raw) × (rest ≡ [])

-- The daemon `d` is served, and `c` is the one viewer of its room `r`; `carried` is what it has read and not yet
-- forwarded.
pub record IsServing (d c r : ℕ) (carried : List String) (s : System) : Type 0 where
  pub carries : IsCarrying r carried (s.phases d)
  pub role : (s.hub.conns d).role ≡ as_daemon
  pub room : lookup (s.hub.conns d).device_id s.hub.rooms ≡ some r
  pub viewers : (s.hub.heap r).clients ≡ c ∷ []
  pub is_open : (s.hub.conns c).shut ≡ false
  pub apart : c ≢ d

-- A text of the daemon arrives, with the type that it has if it is an envelope; the daemon's goroutine goes on;
-- the next text is written to the viewer.
pub data Turn : Type 0 where
  sends : String → Option String → Turn
  goes_on : Turn
  writes : Turn

-- The types that the relay does not take for itself.
abbrev pub IsForwarded : Turn → Type 0
IsForwarded (sends raw none) = Unit
IsForwarded (sends raw (some t)) =
    ((t == "ping") ≡ false) × ((t == "kick") ≡ false) × ((t == "hello") ≡ false)
IsForwarded goes_on = Unit
IsForwarded writes = Unit

-- What the daemon's goroutine carries after each turn: it reads a text when it carries none.
abbrev pub carried_after : Turn → List String → List String
carried_after (sends raw k) [] = raw ∷ []
carried_after (sends raw k) (x ∷ xs) = x ∷ xs
carried_after goes_on xs = []
carried_after writes xs = xs

-- The texts that are read.
abbrev pub taken : Turn → List String → List String
taken (sends raw k) [] = raw ∷ []
taken (sends raw k) (x ∷ xs) = []
taken goes_on xs = []
taken writes xs = []

abbrev pub sent : List Turn → List String → List String
sent [] carried = []
sent (t ∷ ts) carried = taken t carried ++ sent ts (carried_after t carried)

cons_nil : {x : String} {xs : List String} → x ∷ xs ≡ [] → true ≡ false
cons_nil e = cc

-- What is carried in the end.
abbrev pub left : List Turn → List String → List String
left [] carried = carried
left (t ∷ ts) carried = left ts (carried_after t carried)

module _ (p : Platform) (d c : ℕ) where
  abbrev pub turn : Turn → System → System
  turn (sends raw k) s = step p (texts d raw k) s
  turn goes_on s = step p (proceeds d) s
  turn writes s = step p (drains c) s

  abbrev pub turns : List Turn → System → System
  turns [] s = s
  turns (t ∷ ts) s = turns ts (turn t s)

  -- What a turn writes to the viewer's web socket.
  abbrev pub written_by : Turn → System → List String
  written_by (sends raw k) s = []
  written_by goes_on s = []
  written_by writes s = take 1 (s.hub.conns c).queue

  abbrev pub written : List Turn → System → List String
  written [] s = []
  written (t ∷ ts) s = written_by t s ++ written ts (turn t s)

  -- Whenever the daemon's goroutine goes on, there is room in the viewer's queue.
  abbrev pub HasRoom : List Turn → System → Type 0
  HasRoom [] s = Unit
  HasRoom (goes_on ∷ ts) s =
      (length (s.hub.conns c).queue < send_queue) × HasRoom ts (turn goes_on s)
  HasRoom (t ∷ ts) s = HasRoom ts (turn t s)

  read_lem :
      (raw : String) (k : Option String) (s : System)
      → IsForwarded (sends raw k)
      → read p d raw k s ≡ with_room p d (λ r. forwarding r raw) s
  unfolding read
  read_lem raw none s v = refl
  read_lem raw (some t) s (e, e', e'') = rw (read, e, e', e'') refl

  queued_hub : String → Hub → Hub
  queued_hub raw h = set_conn c (record (h.conns c) { queue = (h.conns c).queue ++ raw ∷ [] }) h

  texts_lem :
      (r : ℕ) (raw : String) (k : Option String) (s : System)
      → IsServing d c r [] s
      → IsForwarded (sends raw k)
      → turn (sends raw k) s ≡ at d (forwarding r raw) s.hub s
  unfolding step
  texts_lem r raw k s v f =
      rw (v.carries, step)
        (read_lem raw k s f ∙ with_room_lem p d r (λ r'. forwarding r' raw) s v.room)

  broadcast_one :
      (raw : String) (h : Hub)
      → (h.conns c).shut ≡ false
      → length (h.conns c).queue < send_queue
      → broadcast (c ∷ []) raw h ≡ done (queued_hub raw h)
  unfolding broadcast send_msg queued_hub
  broadcast_one raw h e room =
      let fits : ltb (length (h.conns c).queue) send_queue ≡ true = ground (arith, room) in
      rw (broadcast, send_msg, e, fits) refl

  goes_on_lem :
      (r : ℕ) (raw : String) (s : System)
      → IsServing d c r (raw ∷ []) s
      → length (s.hub.conns c).queue < send_queue
      → turn goes_on s ≡ at d reading (queued_hub raw s.hub) s
  goes_on_lem r raw s v room =
      step-forwarding p d r raw (done (queued_hub raw s.hub)) s v.carries.0
        (forward_down p d r c raw s.hub v.role v.viewers ∙ broadcast_one raw s.hub v.is_open room)

  -- A connection in the loop, or at the lock of its room, takes no other step.
  unread :
      (r : ℕ) (x raw : String) (k : Option String) (s : System)
      → s.phases d ≡ forwarding r x
      → turn (sends raw k) s ≡ s
  unfolding step
  unread r x raw k s e = rw (e, step) refl

  nothing_to_do : (s : System) → s.phases d ≡ reading → turn goes_on s ≡ s
  unfolding step proceed
  nothing_to_do s e = ap (λ phase. proceed p d phase s) e

  texts-IsServing :
      (r : ℕ) (raw : String) (s : System)
      → IsServing d c r [] s
      → IsServing d c r (raw ∷ []) (at d (forwarding r raw) s.hub s)
  texts-IsServing r raw s v = record {
    carries = (put_self d (forwarding r raw) s.phases, refl);
    role = v.role;
    room = v.room;
    viewers = v.viewers;
    is_open = v.is_open;
    apart = v.apart;
  }

  queued-IsServing :
      (r : ℕ) (raw : String) (s : System)
      → IsServing d c r (raw ∷ []) s
      → IsServing d c r [] (at d reading (queued_hub raw s.hub) s)
  unfolding queued_hub
  queued-IsServing r raw s v =
      let h = s.hub in
      let same : (queued_hub raw h).conns d ≡ h.conns d = put_other c d _ h.conns v.apart in
      record {
        carries = put_self d reading s.phases;
        role = ap (λ k. k.role) same ∙ v.role;
        room = ap (λ k. lookup k.device_id h.rooms) same ∙ v.room;
        viewers = v.viewers;
        is_open = ap (λ k. k.shut) (put_self c _ h.conns) ∙ v.is_open;
        apart = v.apart;
      }

  drain-IsServing :
      (r : ℕ) (carried queue : List String) (s : System)
      → IsServing d c r carried s
      → IsServing d c r carried (drain c queue s)
  unfolding drain
  drain-IsServing r carried [] s v = v
  drain-IsServing r carried (text ∷ rest) s v =
      let h = s.hub in
      let same = put_other c d (record (h.conns c) { queue = rest }) h.conns v.apart in
      record {
        carries = v.carries;
        role = ap (λ k. k.role) same ∙ v.role;
        room = ap (λ k. lookup k.device_id h.rooms) same ∙ v.room;
        viewers = v.viewers;
        is_open = ap (λ k. k.shut) (put_self c _ h.conns) ∙ v.is_open;
        apart = v.apart;
      }

  drain_queue :
      (queue : List String) (s : System)
      → (s.hub.conns c).queue ≡ queue
      → take 1 queue ++ ((drain c queue s).hub.conns c).queue ≡ queue
  unfolding drain
  drain_queue [] s e = e
  drain_queue (text ∷ rest) s e = ap (λ q. text ∷ q) (ap (λ k. k.queue) (put_self c _ s.hub.conns))

  abbrev queue_of : System → List String
  queue_of s = (s.hub.conns c).queue

  abbrev Delivers : List Turn → List String → System → Type 0
  Delivers ts carried s =
      written ts s ++ (queue_of (turns ts s) ++ left ts carried)
      ≡ queue_of s ++ (carried ++ sent ts carried)

  -- The turn leaves the viewer's queue alone.
  after_turn :
      (t : Turn) (ts : List Turn) (carried : List String) (s s' : System)
      → turn t s ≡ s'
      → HasRoom ts (turn t s)
      → (HasRoom ts s' → Delivers ts carried s')
      → written ts (turn t s) ++ (queue_of (turns ts (turn t s)) ++ left ts carried)
        ≡ queue_of s' ++ (carried ++ sent ts carried)
  after_turn t ts carried s s' e room ih =
      ap (λ x. written ts x ++ (queue_of (turns ts x) ++ left ts carried)) e
      ∙ ih (subst (HasRoom ts) e room)

  -- Where a daemon has one viewer, and the viewer's queue has room whenever the daemon's goroutine goes on, then
  -- whatever texts of the daemon arrive, but ping, kick and hello, and however their arrival, the steps of the
  -- daemon's goroutine and those of the viewer's writePump take turns, with nobody else in between: what has been
  -- written to the viewer, what is still in its queue and what the daemon's goroutine still carries are, in
  -- order, what was in the queue, what was carried and the texts that were read since. No text is lost, none
  -- comes twice and none is changed.
  pub written-delivers :
      (r : ℕ) (ts : List Turn) (carried : List String) (s : System)
      → IsServing d c r carried s
      → All IsForwarded ts
      → HasRoom ts s
      → written ts s ++ (((turns ts s).hub.conns c).queue ++ left ts carried)
        ≡ (s.hub.conns c).queue ++ (carried ++ sent ts carried)
  unfolding queued_hub step
  written-delivers r [] carried s v f room = ap (λ l. queue_of s ++ l) (sym (append-nil carried))
  written-delivers r (sends raw k ∷ ts) [] s v (f, fs) room =
      after_turn (sends raw k) ts (raw ∷ []) s _ (texts_lem r raw k s v f) room
        (written-delivers r ts (raw ∷ []) _ (texts-IsServing r raw s v) fs)
  written-delivers r (sends raw k ∷ ts) (x ∷ xs) s v (f, fs) room =
      after_turn (sends raw k) ts (x ∷ xs) s s (unread r x raw k s v.carries.0) room
        (written-delivers r ts (x ∷ xs) s v fs)
  written-delivers r (goes_on ∷ ts) [] s v (f, fs) (fits, room) =
      after_turn goes_on ts [] s s (nothing_to_do s v.carries) room
        (written-delivers r ts [] s v fs)
  written-delivers r (goes_on ∷ ts) (raw ∷ []) s v (f, fs) (fits, room) =
      let grows = ap (λ k'. k'.queue) (put_self c _ s.hub.conns) in
      after_turn goes_on ts [] s _ (goes_on_lem r raw s v fits) room
        (written-delivers r ts [] _ (queued-IsServing r raw s v) fs)
      ∙ ap (λ l. l ++ sent ts []) grows
      ∙ append_assoc (queue_of s) (raw ∷ []) (sent ts [])
  written-delivers r (goes_on ∷ ts) (raw ∷ y ∷ ys) s v (f, fs) room =
      absurd (true≢false (cons_nil v.carries.1))
  written-delivers r (writes ∷ ts) carried s v (f, fs) room =
      let q = queue_of s in
      let s' = drain c q s in
      let cut : take 1 q ++ queue_of s' ≡ q = drain_queue q s refl in
      append_assoc (take 1 q) (written ts s') _
      ∙ ap (λ l. take 1 q ++ l)
          (written-delivers r ts carried s' (drain-IsServing r carried q s v) fs room)
      ∙ sym (append_assoc (take 1 q) (queue_of s') (carried ++ sent ts carried))
      ∙ ap (λ l. l ++ (carried ++ sent ts carried)) cut
