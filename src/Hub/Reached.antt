-- ===== src/Hub/Reached.antt =====
-- relay/hub.go: the connections that a locked part reaches are those of its room.
use remote_agent.Common.{
  ℕ, ◌≡◌, refl, ◌∙◌, String, false, not, ◌&&◌, length, ltb, ◌==◌, nat_eq, string_eq, is_some,
  if_both, true, none, some, option_cases, or_false,
}
use remote_agent.Platform.{Platform}
use remote_agent.Protocol.{Frame}
use remote_agent.Hub.{
  Hub, Outcome, set_room, set_conn, shutdown, register, join, is_host, leave, reclaim, unregister,
  presence_text, as_daemon,
}
use remote_agent.Hub.Ends.{outcome_cases, OutcomeHolds-map}
use remote_agent.Hub.Calm.{Untouched, UntouchedOutcome, broadcast-Untouched, is_in}

pub shutdown-Untouched : (x c : ℕ) (h : Hub) → (c == x) ≡ false → Untouched x h (shutdown c h)
unfolding shutdown
shutdown-Untouched x c h other = rw other refl

Untouched-then :
    (x : ℕ) (h h' : Hub) (o : Outcome)
    → Untouched x h h'
    → UntouchedOutcome x h' o
    → UntouchedOutcome x h o
Untouched-then x h h' o u v = OutcomeHolds-map (Untouched x h') (Untouched x h) o (λ y w. w ∙ u) v

module _ (p : Platform) where
  module _ (x c r : ℕ) (h : Hub) (other : (c == x) ≡ false)
      (away : is_in x (h.heap r) ≡ false) where
    pub register-Untouched :
        (id token : String) → UntouchedOutcome x h (register p id token c r h).0
    unfolding register
    register-Untouched id token =
        option_cases (λ (o : Outcome × Frame). UntouchedOutcome x h o.0) (h.heap r).host _ _
          (Untouched-then x h
            (set_conn c (record (h.conns c) { device_id = id; role = as_daemon })
              (set_room r (record (h.heap r) { host = some c; token = token }) h))
            _ (rw other refl)
            (broadcast-Untouched x (h.heap r).clients (presence_text p id true) _
              (or_false away).1))
          (λ d e. refl)

    pub join-Untouched : (id : String) → Untouched x h (join p id c r h).0
    unfolding join
    join-Untouched id =
        let Good : Hub × Frame → Type 0 = λ o. Untouched x h o.0 in
        if_both Good (not (is_some (h.heap r).host)) _ _ refl
          (if_both Good (ltb 0 (length (h.heap r).clients)) _ _ refl (rw other refl))

    leave-Untouched : UntouchedOutcome x h (leave p c r h)
    unfolding leave
    leave-Untouched =
        if_both (UntouchedOutcome x h) (is_host p h c r) _ _
          (Untouched-then x h (set_room r (record (h.heap r) { host = none }) h) _ refl
            (broadcast-Untouched x (h.heap r).clients _ _ (or_false away).1))
          refl

    reclaim-Untouched : (h' : Hub) → Untouched x h' (reclaim p c r h')
    unfolding reclaim
    reclaim-Untouched h' =
        if_both (Untouched x h')
          (not (is_some (h'.heap r).host) && not (ltb 0 (length (h'.heap r).clients))) _ _ refl refl

    pub unregister-Untouched : UntouchedOutcome x h (unregister p c r h)
    unfolding unregister
    unregister-Untouched =
        outcome_cases (UntouchedOutcome x h) (Untouched x h) (leave p c r h) _ _ leave-Untouched
          (λ h' u. reclaim-Untouched h' ∙ u) (λ h' u. u)
