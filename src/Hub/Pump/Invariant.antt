-- ===== src/Hub/Pump/Invariant.antt =====
-- relay/hub.go and main.go: in every interleaving, the connections are in rooms of their own devices.
use remote_agent.Common.{
  true, false, Bool-cases, ◌==◌, sym, ◌∙◌, nat_eq, inl, inr, subst, [], ◌∷◌, List, ℕ, ◌≡◌, refl, ap,
  String, none, string_eq, if_both, if_cases, option_cases, arith, if◌then◌else◌,
}
use remote_agent.Common.Maps.{lookup}
use remote_agent.Platform.{Platform}
use remote_agent.Hub.{Outcome, done, panics, shutdown, join, unregister}
use remote_agent.Hub.Ends.{OutcomeHolds, outcome_cases}
use remote_agent.Hub.Calm.{send_msg-Calm, is_hosted_by, shutdown-IsCalm, set_conn-IsCalm}
use remote_agent.Hub.Rooms.{
  IsQuiet, IsCalm-IsQuiet, IsQuiet-trans, register-Settles, join-Settles, forward-Quiet,
  kick-IsQuiet, or_right, unregister-Quiet,
}
use remote_agent.Hub.Pump.{
  System, Phase, registering, joining, answering, forwarding, kicking, telling, shutting, leaving,
  leaving_at, gone, reading, greeting, at, is_err, proceed, drain, Input, greets, texts, read_fails,
  proceeds, drains, write_fails, is_greeting, is_reading, step, Reach, start, next,
}
use remote_agent.Hub.Pump.Placed.{
  held, is_told, is_early, IsKnown, Placed, MayEnter, quiet-Placed, at-Placed, idle-MayEnter,
}
use remote_agent.Hub.Pump.Made.{Somewhere}
use remote_agent.Hub.Pump.Moves.{
  stay-Placed, after-Placed, sent_from-Placed, registered-Placed, settle-Placed, greeting-early,
  greet-Somewhere, found-Placed, read-Placed,
}

module _ (p : Platform) where
  module _ (own : ℕ → String) (c : ℕ) (s : System) (v : Placed own s) where
    -- What the phase of the connection says of the room.
    IsKnown-at :
        (phase : Phase)
        → s.phases c ≡ phase
        → IsKnown own s.hub.made (held (s.hub.conns c).device_id phase)
    IsKnown-at phase e =
        subst (λ f. IsKnown own s.hub.made (held (s.hub.conns c).device_id f)) e (v.known c)

    idles :
        (phase : Phase)
        → ((d : String) → (held d phase ≡ none) × ((x : ℕ) → is_told x phase ≡ false))
        → is_early phase ≡ false
        → MayEnter own s c phase
    idles phase nothing late = idle-MayEnter own s c phase nothing late

    -- The clients that are kicked were in a room of the same device.
    kicked-MayEnter :
        (r : ℕ) → s.phases c ≡ kicking r → MayEnter own s c (telling (s.hub.heap r).clients)
    kicked-MayEnter r e = record {
      knows = tt;
      late = λ early. absurd (ground (arith, early));
      tells = λ x there.
          let room = s.hub.heap r in
          let present = or_right (is_hosted_by room.host x) _ there in
          (
            sym (v.inside r x present).0 ∙ (IsKnown-at (kicking r) e).0,
            elim (Bool-cases (is_early (s.phases x))) [
              | inr late ↦ late
              | inl early ↦
                  (let absent = v.outside x r early in absurd (ground (arith, present, absent)))
            ],
          );
    }

    -- The list of the clients that are left gets shorter.
    goes_on :
        (before after : Phase)
        → s.phases c ≡ before
        → held (s.hub.conns c).device_id after ≡ none
        → is_early after ≡ false
        → ((x : ℕ) → is_told x after ≡ true → is_told x before ≡ true)
        → MayEnter own s c after
    goes_on before after e nothing late fewer = record {
      knows = rw nothing tt;
      late = λ early. absurd (ground (arith, early, late));
      tells = λ x e'. v.told c x (subst (λ f. is_told x f ≡ true) (sym e) (fewer x e'));
    }

    leave_end-Placed :
        (o : Outcome)
        → OutcomeHolds (IsQuiet s.hub) o
        → Placed own (elim o [ done h ↦ at c gone (shutdown c h) s | panics h ↦ at c gone h s ])
    leave_end-Placed o q =
        outcome_cases (Placed own) (IsQuiet s.hub) o _ _ q
          (λ h q'.
            at-Placed c gone (shutdown c h) s
              (IsQuiet-trans q' (IsCalm-IsQuiet (shutdown-IsCalm c h)))
              (idles gone (λ d. (refl, λ x. refl)) refl) v)
          (λ h q'. at-Placed c gone h s q' (idles gone (λ d. (refl, λ x. refl)) refl) v)

    proceed-Placed : (phase : Phase) → s.phases c ≡ phase → Placed own (proceed p c phase s)
    unfolding proceed
    proceed-Placed (registering id token r) e =
        registered-Placed c r id _ _ s (register-Settles p id token c r s.hub) (IsKnown-at _ e)
          (ap is_early e) v
    proceed-Placed (joining id r) e =
        settle-Placed c r id (answering (join p id c r s.hub).1) _ s (join-Settles p id c r s.hub)
          (IsKnown-at _ e) (ap is_early e) (λ d. (refl, λ x. refl)) refl v
    proceed-Placed (answering ack) e =
        sent_from-Placed c (if is_err ack then leaving else reading) leaving _ s
          (send_msg-Calm c _ s.hub)
          (if_both (MayEnter own s c) (is_err ack) _ _ (idles leaving (λ d. (refl, λ x. refl)) refl)
            (idles reading (λ d. (refl, λ x. refl)) refl))
          (idles leaving (λ d. (refl, λ x. refl)) refl) v
    proceed-Placed (forwarding r raw) e =
        after-Placed c reading _ s (forward-Quiet p c r raw s.hub)
          (idles reading (λ d. (refl, λ x. refl)) refl) v
    proceed-Placed (kicking r) e =
        at-Placed c (telling (s.hub.heap r).clients) _ s (kick-IsQuiet p r s.hub)
          (kicked-MayEnter r e) v
    proceed-Placed (telling []) e =
        stay-Placed c reading s (idles reading (λ d. (refl, λ x. refl)) refl) v
    proceed-Placed (telling (x ∷ xs)) e =
        sent_from-Placed c (shutting x xs) (shutting x xs) _ s (send_msg-Calm x _ s.hub)
          (goes_on (telling (x ∷ xs)) (shutting x xs) e refl refl (λ y e'. e'))
          (goes_on (telling (x ∷ xs)) (shutting x xs) e refl refl (λ y e'. e')) v
    proceed-Placed (shutting x xs) e =
        at-Placed c (telling xs) _ s (IsCalm-IsQuiet (shutdown-IsCalm x s.hub))
          (goes_on (shutting x xs) (telling xs) e refl refl (λ y e'. or_right (x == y) _ e')) v
    proceed-Placed leaving e =
        option_cases (Placed own) (lookup (s.hub.conns c).device_id s.hub.rooms) _ _
          (at-Placed c gone _ s (IsCalm-IsQuiet (shutdown-IsCalm c s.hub))
            (idles gone (λ d. (refl, λ x. refl)) refl) v)
          (found-Placed p own c s v leaving_at (λ d r. (refl, λ x. refl)) (λ r. refl))
    proceed-Placed (leaving_at r) e =
        leave_end-Placed (unregister p c r s.hub) (unregister-Quiet p c r s.hub)
    proceed-Placed greeting e = v
    proceed-Placed reading e = v
    proceed-Placed gone e = v

    drain-Placed : (queue : List String) → Placed own (drain c queue s)
    unfolding drain
    drain-Placed [] = v
    drain-Placed (text ∷ rest) = quiet-Placed (IsCalm-IsQuiet (set_conn-IsCalm c _ s.hub refl)) v

  step-Somewhere :
      (own : ℕ → String) (i : Input) (s : System) → Placed own s → Somewhere (step p i s)
  unfolding step
  step-Somewhere own (greets c e) s v =
      if_cases Somewhere (is_greeting p (s.phases c)) _ _
        (λ first. greet-Somewhere p own c s v e (greeting-early p (s.phases c) first))
        (λ _. (own, v))
  step-Somewhere own (texts c raw t) s v =
      (own, if_both (Placed own) (is_reading p (s.phases c)) _ _ (read-Placed p own c s v raw t) v)
  step-Somewhere own (read_fails c) s v = (
    own,
    if_both (Placed own) (is_reading p (s.phases c)) _ _
        (stay-Placed c leaving s (idles own c s v leaving (λ d. (refl, λ x. refl)) refl) v) v,
  )
  step-Somewhere own (proceeds c) s v = (own, proceed-Placed own c s v (s.phases c) refl)
  step-Somewhere own (drains c) s v = (own, drain-Placed own c s v (s.hub.conns c).queue)
  step-Somewhere own (write_fails c) s v =
      (own, quiet-Placed (IsCalm-IsQuiet (shutdown-IsCalm c s.hub)) v)

  pub Reach-Somewhere : {key : String} {s : System} → Reach p key s → Somewhere s
  unfolding lookup
  Reach-Somewhere start = (
    λ r. "",
    record {
      bound = λ id r e. absurd (ground (arith, e));
      inside = λ r x e. absurd (ground (arith, e));
      known = λ c. tt;
      outside = λ c r e. refl;
      told = λ c x e. absurd (ground (arith, e));
    },
  )
  Reach-Somewhere (next i reach) =
      (let (own, v) = Reach-Somewhere reach in step-Somewhere own i _ v)
