-- ===== src/Hub/Pump/Isolation.antt =====
-- relay/hub.go and main.go: what a connection does reaches no connection of another device.
use remote_agent.Common.{
  true, or_false, ℕ, ◌≡◌, ◌≢◌, refl, sym, ◌∙◌, inl, inr, String, false, not, ◌&&◌, Option, none,
  some, List, [], ◌∷◌, ◌==◌, ==_ne, nat_eq, string_eq, if_both, option_cases, Bool-cases, subst,
}
use remote_agent.Common.Maps.{lookup}
use remote_agent.Platform.{Platform}
use remote_agent.Hub.{
  kick, Hub, as_daemon, as_client, unset, Sent, queued, kicked, panicked, Outcome, done, panics,
  has_key, send_msg, shutdown, find_or_make, unregister,
}
use remote_agent.Hub.Ends.{SentHolds, outcome_cases}
use remote_agent.Hub.Calm.{
  Untouched, UntouchedOutcome, send_msg-Untouched, forward-Untouched, is_in,
}
use remote_agent.Hub.Reached.{
  shutdown-Untouched, register-Untouched, join-Untouched, unregister-Untouched,
}
use remote_agent.Hub.Pump.{
  System, Phase, Envelope, registering, joining, answering, forwarding, kicking, telling, shutting,
  leaving, leaving_at, gone, reading, greeting, after, at, sent_from, refuses, begin_register,
  begin_join, greet, with_room, begin_kick, read, proceed, drain, Input, greets, texts, read_fails,
  proceeds, drains, write_fails, is_greeting, is_reading, step, Reach,
}
use remote_agent.Hub.Pump.Placed.{held, is_told, IsKnown, Placed}
use remote_agent.Hub.Pump.Invariant.{Reach-Somewhere}

-- The connection whose goroutine takes the step.
abbrev pub actor : Input → ℕ
actor (greets c e) = c
actor (texts c raw t) = c
actor (read_fails c) = c
actor (proceeds c) = c
actor (drains c) = c
actor (write_fails c) = c

-- The device for which a connection acts: until it is in a room, the one that it asked for.
abbrev pub acts_for : String → Phase → String
acts_for device (registering id token r) = id
acts_for device (joining id r) = id
acts_for device _ = device

-- What a connection sees of a step: its own queue, and whether it is shut.
abbrev Same : ℕ → System → System → Type 0
Same x s s' = Untouched x s.hub s'.hub

after-Same :
    (x c : ℕ) (phase : Phase) (o : Outcome) (s : System)
    → UntouchedOutcome x s.hub o
    → Same x s (after c phase o s)
after-Same x c phase (done h) s u = u
after-Same x c phase (panics h) s u = u

sent_from-Same :
    (x c : ℕ) (phase behind : Phase) (o : Sent) (s : System)
    → SentHolds (Untouched x s.hub) o
    → Same x s (sent_from c phase behind o s)
sent_from-Same x c phase behind (queued h) s u = u
sent_from-Same x c phase behind (kicked h) s u = u
sent_from-Same x c phase behind (panicked h) s u = u

module _ (p : Platform) (x c : ℕ) (s : System) (other : (c == x) ≡ false) where
  says-Same :
      (phase behind : Phase) (text : String)
      → Same x s (sent_from c phase behind (send_msg c text s.hub) s)
  says-Same phase behind text =
      sent_from-Same x c phase behind _ s (send_msg-Untouched x c text s.hub other)

  begin_register-Same : (e : Envelope) → Same x s (begin_register p c e s)
  unfolding begin_register find_or_make
  begin_register-Same e =
      if_both (Same x s) (has_key s.hub e.token) _ _
        (option_cases (λ (o : Hub × ℕ). Same x s (at c (registering e.device_id e.token o.1) o.0 s))
          (lookup e.device_id s.hub.rooms) _ _ refl (λ r found. refl))
        refl

  begin_join-Same : (e : Envelope) → Same x s (begin_join p c e s)
  unfolding begin_join
  begin_join-Same e =
      option_cases (Same x s) (lookup e.device_id s.hub.rooms) _ _ refl (λ r found. refl)

  greet-Same : (e : Option Envelope) → Same x s (greet p c e s)
  unfolding greet refuses
  greet-Same none = refl
  greet-Same (some e) = if_both (Same x s) (not (e.t == "hello")) _ _ (says-Same _ _ _) (
      if_both (Same x s) (not (e.v == 1)) _ _ (says-Same _ _ _) (
        if_both (Same x s) (e.device_id == "") _ _ (says-Same _ _ _) (
          if_both (Same x s) (e.role == "daemon" && e.token == "") _ _ (says-Same _ _ _) (
            if_both (Same x s) (e.role == "daemon") _ _ (begin_register-Same e)
              (if_both (Same x s) (e.role == "client") _ _ (begin_join-Same e) refl)))))

  with_room-Same : (phase : ℕ → Phase) → Same x s (with_room p c phase s)
  unfolding with_room
  with_room-Same phase =
      option_cases (Same x s) (lookup (s.hub.conns c).device_id s.hub.rooms) _ _ refl
        (λ r found. refl)

  read-Same : (raw : String) (t : Option String) → Same x s (read p c raw t s)
  unfolding read begin_kick
  read-Same raw none = with_room-Same _
  read-Same raw (some t) = if_both (Same x s) (t == "ping") _ _ (says-Same _ _ _) (
      if_both (Same x s) (t == "kick") _ _
        (elim (s.hub.conns c).role
          as (λ role.
            Same x s
              (elim role [ as_daemon ↦ with_room p c kicking s | as_client ↦ s | unset ↦ s ])) [
                | as_daemon ↦ with_room-Same kicking
                | as_client ↦ refl
                | unset ↦ refl
              ])
        (if_both (Same x s) (t == "hello") _ _ refl (with_room-Same _)))

  drain-Same : (queue : List String) → Same x s (drain c queue s)
  unfolding drain
  drain-Same [] = refl
  drain-Same (text ∷ rest) = rw other refl

  module _ (own : ℕ → String) (v : Placed own s) where
    -- A connection of another device is not in the room that is held.
    away_from :
        (id : String) (r : ℕ)
        → IsKnown own s.hub.made (some (id, r))
        → (s.hub.conns x).device_id ≢ id
        → is_in x (s.hub.heap r) ≡ false
    away_from id r (owns, there) differs = elim (Bool-cases (is_in x (s.hub.heap r))) [
      | inr away ↦ away
      | inl here ↦ absurd (differs (sym (v.inside r x here).0 ∙ owns))
    ]

    IsKnown-of :
        (phase : Phase)
        → s.phases c ≡ phase
        → IsKnown own s.hub.made (held (s.hub.conns c).device_id phase)
    IsKnown-of phase e =
        subst (λ f. IsKnown own s.hub.made (held (s.hub.conns c).device_id f)) e (v.known c)

    -- A connection of another device is not kicked.
    untold :
        (phase : Phase)
        → s.phases c ≡ phase
        → (s.hub.conns x).device_id ≢ (s.hub.conns c).device_id
        → is_told x phase ≡ false
    untold phase e differs = elim (Bool-cases (is_told x phase)) [
      | inr no_one ↦ no_one
      | inl one ↦ absurd (differs (v.told c x (subst (λ f. is_told x f ≡ true) (sym e) one)).0)
    ]

    leave_end-Same :
        (o : Outcome)
        → UntouchedOutcome x s.hub o
        → Same x s (elim o [ done h ↦ at c gone (shutdown c h) s | panics h ↦ at c gone h s ])
    leave_end-Same o u =
        outcome_cases (Same x s) (Untouched x s.hub) o _ _ u
          (λ h w. shutdown-Untouched x c h other ∙ w) (λ h w. w)

    proceed-Same :
        (phase : Phase)
        → s.phases c ≡ phase
        → (s.hub.conns x).device_id ≢ acts_for (s.hub.conns c).device_id phase
        → Same x s (proceed p c phase s)
    unfolding proceed kick
    proceed-Same (registering id token r) e differs =
        after-Same x c _ _ s (
          register-Untouched p x c r s.hub other (away_from id r (IsKnown-of _ e) differs) id token)
    proceed-Same (joining id r) e differs =
        join-Untouched p x c r s.hub other (away_from id r (IsKnown-of _ e) differs) id
    proceed-Same (answering ack) e differs = says-Same _ _ _
    proceed-Same (forwarding r raw) e differs =
        after-Same x c _ _ s
          (forward-Untouched p x c r raw s.hub other (away_from _ r (IsKnown-of _ e) differs))
    proceed-Same (kicking r) e differs = refl
    proceed-Same (telling []) e differs = refl
    proceed-Same (telling (y ∷ ys)) e differs =
        sent_from-Same x c _ _ _ s
          (send_msg-Untouched x y _ s.hub (or_false (untold (telling (y ∷ ys)) e differs)).0)
    proceed-Same (shutting y ys) e differs =
        shutdown-Untouched x y s.hub (or_false (untold (shutting y ys) e differs)).0
    proceed-Same leaving e differs =
        option_cases (Same x s) (lookup (s.hub.conns c).device_id s.hub.rooms) _ _
          (shutdown-Untouched x c s.hub other) (λ r found. refl)
    proceed-Same (leaving_at r) e differs =
        leave_end-Same (unregister p c r s.hub)
          (unregister-Untouched p x c r s.hub other (away_from _ r (IsKnown-of _ e) differs))
    proceed-Same greeting e differs = refl
    proceed-Same reading e differs = refl
    proceed-Same gone e differs = refl

module _ (p : Platform) where
  step-Same :
      (own : ℕ → String) (i : Input) (x : ℕ) (s : System)
      → Placed own s
      → (actor i == x) ≡ false
      → (s.hub.conns x).device_id ≢ acts_for (s.hub.conns (actor i)).device_id (s.phases (actor i))
      → Same x s (step p i s)
  unfolding step
  step-Same own (greets c e) x s v other differs =
      if_both (Same x s) (is_greeting p (s.phases c)) _ _ (greet-Same p x c s other e) refl
  step-Same own (texts c raw t) x s v other differs =
      if_both (Same x s) (is_reading p (s.phases c)) _ _ (read-Same p x c s other raw t) refl
  step-Same own (read_fails c) x s v other differs =
      if_both (Same x s) (is_reading p (s.phases c)) _ _ refl refl
  step-Same own (proceeds c) x s v other differs =
      proceed-Same p x c s other own v (s.phases c) refl differs
  step-Same own (drains c) x s v other differs = drain-Same p x c s other (s.hub.conns c).queue
  step-Same own (write_fails c) x s v other differs = shutdown-Untouched x c s.hub other

  -- However the goroutines interleave, a step that a connection's goroutine takes leaves every other connection
  -- alone whose device is not the one that the goroutine acts for: nothing is put into its queue, and it is
  -- neither shut nor given another role.
  pub step_isolated :
      {key : String} {s : System}
      → Reach p key s
      → (i : Input) (x : ℕ) → actor i ≢ x
      → (s.hub.conns x).device_id ≢ acts_for (s.hub.conns (actor i)).device_id (s.phases (actor i))
      → (step p i s).hub.conns x ≡ s.hub.conns x
  step_isolated reach i x apart differs =
      let (own, v) = Reach-Somewhere p reach in
      step-Same own i x _ v (==_ne (actor i) x apart) differs
