-- ===== src/Hub/Pump/Limits.antt =====
-- What the relay keeps to in every interleaving: one viewer to a room, and queues of bounded length.
use remote_agent.Common.{
  ℕ, ◌≤◌, ◌≡◌, refl, ap, String, not, Option, none, some, List, [], ◌∷◌, length, ◌==◌, nat_eq,
  string_eq, if_both, ◌&&◌, option_cases, arith,
}
use remote_agent.Common.Maps.{lookup}
use remote_agent.Platform.{Platform}
use remote_agent.Hub.{
  as_daemon, as_client, unset, Sent, queued, kicked, panicked, Outcome, done, panics, send_queue,
  has_key, unregister,
}
use remote_agent.Hub.Pump.{
  System, Phase, Envelope, registering, joining, answering, forwarding, kicking, telling, shutting,
  leaving, leaving_at, gone, reading, greeting, after, sent_from, refuses, begin_register,
  begin_join, greet, with_room, begin_kick, read, proceed, drain, Input, greets, texts, read_fails,
  proceeds, drains, write_fails, is_greeting, is_reading, step, Reach, start, next,
}
use remote_agent.Hub.Limits.{
  IsLimited, LimitedSent, LimitedOutcome, set_conn-IsLimited, shutdown-IsLimited, send_msg-Limited,
  find_or_make-IsLimited, register-Limited, join-IsLimited, forward-Limited, kick-IsLimited,
  unregister-Limited,
}
use remote_agent.Hub.Ends.{outcome_cases}

module _ (p : Platform) where
  -- The steps of the goroutines.
  abbrev Limited : System → Type 0
  Limited s = IsLimited s.hub

  after-Limited :
      (c : ℕ) (phase : Phase) (o : Outcome) (s : System)
      → LimitedOutcome o
      → Limited (after c phase o s)
  after-Limited c phase (done h) s v = v
  after-Limited c phase (panics h) s v = v

  sent_from-Limited :
      (c : ℕ) (phase behind : Phase) (o : Sent) (s : System)
      → LimitedSent o
      → Limited (sent_from c phase behind o s)
  sent_from-Limited c phase behind (queued h) s v = v
  sent_from-Limited c phase behind (kicked h) s v = v
  sent_from-Limited c phase behind (panicked h) s v = v

  refuses-Limited :
      (c : ℕ) (code msg : String) (s : System) → Limited s → Limited (refuses p c code msg s)
  unfolding refuses
  refuses-Limited c code msg s v = sent_from-Limited c _ _ _ s (send_msg-Limited c _ s.hub v)

  begin_register-Limited :
      (c : ℕ) (e : Envelope) (s : System) → Limited s → Limited (begin_register p c e s)
  unfolding begin_register
  begin_register-Limited c e s v =
      if_both Limited (has_key s.hub e.token) _ _ (find_or_make-IsLimited e.device_id s.hub v) v

  begin_join-Limited :
      (c : ℕ) (e : Envelope) (s : System) → Limited s → Limited (begin_join p c e s)
  unfolding begin_join
  begin_join-Limited c e s v =
      option_cases Limited (lookup e.device_id s.hub.rooms) _ _ v (λ r found. v)

  greet-Limited : (c : ℕ) (e : Option Envelope) (s : System) → Limited s → Limited (greet p c e s)
  unfolding greet
  greet-Limited c none s v = v
  greet-Limited c (some e) s v =
      let no : (code msg : String) → Limited (refuses p c code msg s) =
        λ code msg. refuses-Limited c code msg s v in
      if_both Limited (not (e.t == "hello")) _ _ (no _ _) (
        if_both Limited (not (e.v == 1)) _ _ (no _ _) (
          if_both Limited (e.device_id == "") _ _ (no _ _) (
            if_both Limited (e.role == "daemon" && e.token == "") _ _ (no _ _) (
              if_both Limited (e.role == "daemon") _ _ (begin_register-Limited c e s v)
                (if_both Limited (e.role == "client") _ _ (begin_join-Limited c e s v) v)))))

  with_room-Limited :
      (c : ℕ) (phase : ℕ → Phase) (s : System) → Limited s → Limited (with_room p c phase s)
  unfolding with_room
  with_room-Limited c phase s v =
      option_cases Limited (lookup (s.hub.conns c).device_id s.hub.rooms) _ _ v (λ r found. v)

  begin_kick-IsLimited : (c : ℕ) (s : System) → Limited s → Limited (begin_kick p c s)
  unfolding begin_kick
  begin_kick-IsLimited c s v =
      elim (s.hub.conns c).role
        as (λ role.
          Limited (elim role [ as_daemon ↦ with_room p c kicking s | as_client ↦ s | unset ↦ s ])) [
            | as_daemon ↦ with_room-Limited c kicking s v
            | as_client ↦ v
            | unset ↦ v
          ]

  read-Limited :
      (c : ℕ) (raw : String) (t : Option String) (s : System)
      → Limited s
      → Limited (read p c raw t s)
  unfolding read
  read-Limited c raw none s v = with_room-Limited c _ s v
  read-Limited c raw (some t) s v =
      if_both Limited (t == "ping") _ _ (sent_from-Limited c _ _ _ s (send_msg-Limited c _ s.hub v))
        (if_both Limited (t == "kick") _ _ (begin_kick-IsLimited c s v)
          (if_both Limited (t == "hello") _ _ v (with_room-Limited c _ s v)))

  proceed-Limited : (c : ℕ) (phase : Phase) (s : System) → Limited s → Limited (proceed p c phase s)
  unfolding proceed
  proceed-Limited c (registering id token r) s v =
      after-Limited c _ _ s (register-Limited p id token c r s.hub v)
  proceed-Limited c (joining id r) s v = join-IsLimited p id c r s.hub v
  proceed-Limited c (answering ack) s v = sent_from-Limited c _ _ _ s (send_msg-Limited c _ s.hub v)
  proceed-Limited c (forwarding r raw) s v =
      after-Limited c _ _ s (forward-Limited p c r raw s.hub v)
  proceed-Limited c (kicking r) s v = kick-IsLimited p r s.hub v
  proceed-Limited c (telling []) s v = v
  proceed-Limited c (telling (x ∷ xs)) s v =
      sent_from-Limited c _ _ _ s (send_msg-Limited x _ s.hub v)
  proceed-Limited c (shutting x xs) s v = shutdown-IsLimited x s.hub v
  proceed-Limited c leaving s v =
      option_cases Limited (lookup (s.hub.conns c).device_id s.hub.rooms) _ _
        (shutdown-IsLimited c s.hub v) (λ r found. v)
  proceed-Limited c (leaving_at r) s v =
      outcome_cases Limited IsLimited (unregister p c r s.hub) _ _
        (unregister-Limited p c r s.hub v) (shutdown-IsLimited c) (λ h v'. v')
  proceed-Limited c greeting s v = v
  proceed-Limited c reading s v = v
  proceed-Limited c gone s v = v

  drain-Limited :
      (c : ℕ) (queue : List String) (s : System)
      → (s.hub.conns c).queue ≡ queue
      → Limited s
      → Limited (drain c queue s)
  unfolding drain
  drain-Limited c [] s e v = v
  drain-Limited c (text ∷ rest) s e v =
      set_conn-IsLimited c _ s.hub (omega (arith, v.queues c, ap length e)) v

  step-Limited : (i : Input) (s : System) → Limited s → Limited (step p i s)
  unfolding step
  step-Limited (greets c e) s v =
      if_both Limited (is_greeting p (s.phases c)) _ _ (greet-Limited c e s v) v
  step-Limited (texts c raw t) s v =
      if_both Limited (is_reading p (s.phases c)) _ _ (read-Limited c raw t s v) v
  step-Limited (read_fails c) s v = if_both Limited (is_reading p (s.phases c)) _ _ v v
  step-Limited (proceeds c) s v = proceed-Limited c (s.phases c) s v
  step-Limited (drains c) s v = drain-Limited c (s.hub.conns c).queue s refl v
  step-Limited (write_fails c) s v = shutdown-IsLimited c s.hub v

  Reach-Limited : {key : String} {s : System} → Reach p key s → Limited s
  Reach-Limited start = record { viewers = λ r. omega arith; queues = λ c. omega arith }
  Reach-Limited (next i reach) = step-Limited i _ (Reach-Limited reach)

  -- However the goroutines of the connections interleave, a room never has a second viewer, and no connection
  -- has more than 64 texts waiting.
  pub Reach-limits :
      {key : String} {s : System}
      → Reach p key s
      → ((r : ℕ) → length (s.hub.heap r).clients ≤ 1)
        × ((c : ℕ) → length (s.hub.conns c).queue ≤ send_queue)
  Reach-limits reach = let v = Reach-Limited reach in (v.viewers, v.queues)
