-- ===== src/Hub/Pump/Moves.antt =====
-- relay/hub.go and main.go: every step leaves the connections in rooms of their own devices.
use remote_agent.Common.{
  ℕ, ◌<◌, ◌≡◌, refl, inl, inr, String, true, false, not, ◌&&◌, Option, none, some, ◌==◌, nat_eq,
  string_eq, if_both, option_cases, arith,
}
use remote_agent.Common.Maps.{lookup}
use remote_agent.Platform.{Platform}
use remote_agent.Protocol.{Frame}
use remote_agent.Hub.{
  Hub, as_daemon, as_client, unset, Sent, queued, kicked, panicked, Outcome, done, panics, has_key,
}
use remote_agent.Hub.Ends.{SentHolds, OutcomeHolds}
use remote_agent.Hub.Calm.{IsCalm, send_msg-Calm}
use remote_agent.Hub.Rooms.{IsQuiet, IsQuiet-refl, IsCalm-IsQuiet, Settles}
use remote_agent.Hub.Pump.{
  System, Phase, Envelope, registering, joining, answering, forwarding, kicking, telling, shutting,
  leaving, leaving_at, gone, reading, greeting, after, at, sent_from, refuses, begin_register,
  begin_join, greet, with_room, begin_kick, read, is_greeting,
}
use remote_agent.Hub.Pump.Placed.{
  held, is_told, is_early, Placed, MayEnter, at-Placed, idle-MayEnter, enter-Placed,
}
use remote_agent.Hub.Pump.Made.{Somewhere, find_or_make-Somewhere}

pub stay-Placed :
    {own : ℕ → String} (c : ℕ) (phase : Phase) (s : System)
    → MayEnter own s c phase
    → Placed own s
    → Placed own (at c phase s.hub s)
stay-Placed c phase s may v = at-Placed c phase s.hub s (IsQuiet-refl s.hub) may v

pub after-Placed :
    {own : ℕ → String} (c : ℕ) (phase : Phase) (o : Outcome) (s : System)
    → OutcomeHolds (IsQuiet s.hub) o
    → MayEnter own s c phase
    → Placed own s
    → Placed own (after c phase o s)
after-Placed c phase (done h) s q may v = at-Placed c phase h s q may v
after-Placed {own} c phase (panics h) s q may v =
    at-Placed c leaving h s q (idle-MayEnter own s c leaving (λ d. (refl, λ x. refl)) refl) v

pub sent_from-Placed :
    {own : ℕ → String} (c : ℕ) (phase behind : Phase) (o : Sent) (s : System)
    → SentHolds (IsCalm s.hub) o
    → MayEnter own s c phase
    → MayEnter own s c behind
    → Placed own s
    → Placed own (sent_from c phase behind o s)
sent_from-Placed c phase behind (queued h) s u may may' v =
    at-Placed c phase h s (IsCalm-IsQuiet u) may v
sent_from-Placed c phase behind (kicked h) s u may may' v =
    at-Placed c behind h s (IsCalm-IsQuiet u) may' v
sent_from-Placed {own} c phase behind (panicked h) s u may may' v =
    at-Placed c leaving h s (IsCalm-IsQuiet u)
      (idle-MayEnter own s c leaving (λ d. (refl, λ x. refl)) refl) v

-- A connection takes a place in a room, or is refused.
pub settle-Placed :
    {own : ℕ → String} (c r : ℕ) (id : String) (phase : Phase) (h : Hub) (s : System)
    → Settles s.hub c id r h
    → (own r ≡ id) × (r < s.hub.made)
    → is_early (s.phases c) ≡ true
    → ((d : String) → (held d phase ≡ none) × ((x : ℕ) → is_told x phase ≡ false))
    → is_early phase ≡ false
    → Placed own s
    → Placed own (at c phase h s)
settle-Placed {own} c r id phase h s (inl q) owns early nothing late v =
    at-Placed c phase h s q (idle-MayEnter own s c phase nothing late) v
settle-Placed c r id phase h s (inr u) owns early nothing late v =
    enter-Placed c r id phase h s u owns early nothing late v

pub registered-Placed :
    {own : ℕ → String} (c r : ℕ) (id : String) (ack : Frame) (o : Outcome) (s : System)
    → OutcomeHolds (Settles s.hub c id r) o
    → (own r ≡ id) × (r < s.hub.made)
    → is_early (s.phases c) ≡ true
    → Placed own s
    → Placed own (after c (answering ack) o s)
registered-Placed c r id ack (done h) s u owns early v =
    settle-Placed c r id (answering ack) h s u owns early (λ d. (refl, λ x. refl)) refl v
registered-Placed c r id ack (panics h) s u owns early v =
    settle-Placed c r id leaving h s u owns early (λ d. (refl, λ x. refl)) refl v

pub greeting-early : (p : Platform) (f : Phase) → is_greeting p f ≡ true → is_early f ≡ true
greeting-early p greeting e = refl
greeting-early p (registering id token r) e = refl
greeting-early p (joining id r) e = refl
greeting-early p (answering ack) e = e
greeting-early p reading e = e
greeting-early p (forwarding r raw) e = e
greeting-early p (kicking r) e = e
greeting-early p (telling xs) e = e
greeting-early p (shutting x xs) e = e
greeting-early p leaving e = e
greeting-early p (leaving_at r) e = e
greeting-early p gone e = e

module _ (p : Platform) (own : ℕ → String) (c : ℕ) (s : System) (v : Placed own s) where
  idle :
      (phase : Phase)
      → ((d : String) → (held d phase ≡ none) × ((x : ℕ) → is_told x phase ≡ false))
      → is_early phase ≡ false
      → MayEnter own s c phase
  idle phase nothing late = idle-MayEnter own s c phase nothing late

  refuses-Placed : (code msg : String) → Placed own (refuses p c code msg s)
  unfolding refuses
  refuses-Placed code msg =
      sent_from-Placed c leaving leaving _ s (send_msg-Calm c _ s.hub)
        (idle leaving (λ d. (refl, λ x. refl)) refl) (idle leaving (λ d. (refl, λ x. refl)) refl) v

  pub greet-Somewhere :
      (e : Option Envelope) → is_early (s.phases c) ≡ true → Somewhere (greet p c e s)
  unfolding greet begin_register begin_join
  greet-Somewhere none early =
      (own, stay-Placed c leaving s (idle leaving (λ d. (refl, λ x. refl)) refl) v)
  greet-Somewhere (some e) early =
      let no : (code msg : String) → Somewhere (refuses p c code msg s) =
        λ code msg. (own, refuses-Placed code msg) in
      let denied : (ack : Frame) → Somewhere (at c (answering ack) s.hub s) = λ ack. (
        own,
        stay-Placed c (answering ack) s (idle (answering ack) (λ d. (refl, λ x. refl)) refl) v,
      ) in
      if_both Somewhere (not (e.t == "hello")) _ _ (no _ _) (
        if_both Somewhere (not (e.v == 1)) _ _ (no _ _) (
          if_both Somewhere (e.device_id == "") _ _ (no _ _) (
            if_both Somewhere (e.role == "daemon" && e.token == "") _ _ (no _ _) (
              if_both Somewhere (e.role == "daemon") _ _
                (if_both Somewhere (has_key s.hub e.token) _ _
                  (find_or_make-Somewhere own e.device_id e.token c s early v) (denied _))
                (if_both Somewhere (e.role == "client") _ _
                  (option_cases Somewhere (lookup e.device_id s.hub.rooms) _ _ (denied _)
                    (λ r found. (
                      own,
                      stay-Placed c (joining e.device_id r) s
                          (record {
                            knows = v.bound e.device_id r found;
                            late = λ _. early;
                            tells = λ x e'. absurd (ground (arith, e'));
                          })
                          v,
                    )))
                  (denied _))))))

  -- A reference to the room of the connection's device.
  pub found-Placed :
      (phase : ℕ → Phase)
      → ((d : String) (r : ℕ)
          → (held d (phase r) ≡ some (d, r)) × ((x : ℕ) → is_told x (phase r) ≡ false))
      → ((r : ℕ) → is_early (phase r) ≡ false)
      → (r : ℕ) → lookup (s.hub.conns c).device_id s.hub.rooms ≡ some r
      → Placed own (at c (phase r) s.hub s)
  found-Placed phase holds late r found =
      stay-Placed c (phase r) s
        (record {
          knows = rw (holds (s.hub.conns c).device_id r).0 (v.bound _ r found);
          tells = λ x e.
              (let no = (holds (s.hub.conns c).device_id r).1 x in absurd (ground (arith, e, no)));
          late = λ e. (let no = late r in ground (arith, e, no));
        })
        v

  with_room-Placed :
      (phase : ℕ → Phase)
      → ((d : String) (r : ℕ)
          → (held d (phase r) ≡ some (d, r)) × ((x : ℕ) → is_told x (phase r) ≡ false))
      → ((r : ℕ) → is_early (phase r) ≡ false)
      → Placed own (with_room p c phase s)
  unfolding with_room
  with_room-Placed phase holds late =
      option_cases (Placed own) (lookup (s.hub.conns c).device_id s.hub.rooms) _ _ v
        (found-Placed phase holds late)

  pub read-Placed : (raw : String) (t : Option String) → Placed own (read p c raw t s)
  unfolding read begin_kick
  read-Placed raw none =
      with_room-Placed (λ r. forwarding r raw) (λ d r. (refl, λ x. refl)) (λ r. refl)
  read-Placed raw (some t) =
      if_both (Placed own) (t == "ping") _ _
        (sent_from-Placed c reading reading _ s (send_msg-Calm c _ s.hub)
          (idle reading (λ d. (refl, λ x. refl)) refl) (idle reading (λ d. (refl, λ x. refl)) refl)
          v)
        (if_both (Placed own) (t == "kick") _ _
          (elim (s.hub.conns c).role
            as (λ role.
              Placed own
                (elim role [ as_daemon ↦ with_room p c kicking s | as_client ↦ s | unset ↦ s ])) [
                  | as_daemon ↦ with_room-Placed kicking (λ d r. (refl, λ x. refl)) (λ r. refl)
                  | as_client ↦ v
                  | unset ↦ v
                ])
          (if_both (Placed own) (t == "hello") _ _ v
            (with_room-Placed (λ r. forwarding r raw) (λ d r. (refl, λ x. refl)) (λ r. refl))))
