-- ===== src/Hub/Calm.antt =====
-- relay/hub.go: what sending leaves alone, and whom it reaches.
use remote_agent.Common.{
  ℕ, ◌≡◌, refl, ap, ◌∙◌, String, Bool, false, ◌||◌, Option, none, some, List, [], ◌∷◌, length, any,
  ltb, ◌==◌, nat_eq, if_both, Bool-cases, inl, inr, or_false,
}
use remote_agent.Platform.{Platform}
use remote_agent.Hub.{
  Hub, Conn, Room, as_daemon, as_client, unset, Sent, queued, kicked, panicked, Outcome, set_conn,
  shutdown, send_msg, send_queue, broadcast, forward_up, forward, sent_outcome,
}
use remote_agent.Hub.Ends.{SentHolds, OutcomeHolds, sent_cases, OutcomeHolds-map}

-- The rooms are the same, and so is the device of each connection.
pub record IsCalm (h h' : Hub) : Type 0 where
  pub rooms : h'.rooms ≡ h.rooms
  pub heap : h'.heap ≡ h.heap
  pub made : h'.made ≡ h.made
  pub device : (c : ℕ) → (h'.conns c).device_id ≡ (h.conns c).device_id

abbrev CalmSent : Hub → Sent → Type 0
CalmSent h s = SentHolds (IsCalm h) s

abbrev pub CalmOutcome : Hub → Outcome → Type 0
CalmOutcome h o = OutcomeHolds (IsCalm h) o

pub IsCalm-refl : (h : Hub) → IsCalm h h
IsCalm-refl h = record { rooms = refl; heap = refl; made = refl; device = λ c. refl }

IsCalm-trans : {a b c : Hub} → IsCalm a b → IsCalm b c → IsCalm a c
IsCalm-trans u v = record {
  rooms = v.rooms ∙ u.rooms;
  heap = v.heap ∙ u.heap;
  made = v.made ∙ u.made;
  device = λ x. v.device x ∙ u.device x;
}

pub set_conn-IsCalm :
    (c : ℕ) (k : Conn) (h : Hub) → k.device_id ≡ (h.conns c).device_id → IsCalm h (set_conn c k h)
set_conn-IsCalm c k h same = record {
  rooms = refl;
  heap = refl;
  made = refl;
  device = λ x. elim (Bool-cases (c == x)) [
    | inl here ↦ rw here (same ∙ ap (λ y. (h.conns y).device_id) ((nat_eq.decides c x).0 here))
    | inr other ↦ rw other refl
  ];
}

pub shutdown-IsCalm : (c : ℕ) (h : Hub) → IsCalm h (shutdown c h)
unfolding shutdown
shutdown-IsCalm c h = set_conn-IsCalm c _ h refl

pub send_msg-Calm : (c : ℕ) (text : String) (h : Hub) → CalmSent h (send_msg c text h)
unfolding send_msg
send_msg-Calm c text h =
    let k = h.conns c in
    if_both (CalmSent h) k.shut _ _ (IsCalm-refl h) (
      if_both (CalmSent h) (ltb (length k.queue) send_queue) _ _ (set_conn-IsCalm c _ h refl)
        (shutdown-IsCalm c h))

CalmOutcome-trans : {h h' : Hub} (o : Outcome) → IsCalm h h' → CalmOutcome h' o → CalmOutcome h o
CalmOutcome-trans {h} {h'} o u v =
    OutcomeHolds-map (IsCalm h') (IsCalm h) o (λ x w. IsCalm-trans u w) v

pub broadcast-Calm : (cs : List ℕ) (text : String) (h : Hub) → CalmOutcome h (broadcast cs text h)
unfolding broadcast
broadcast-Calm [] text h = IsCalm-refl h
broadcast-Calm (c ∷ cs) text h =
    sent_cases (CalmOutcome h) (IsCalm h) (send_msg c text h) _ _ _ (send_msg-Calm c text h)
      (λ h' u. CalmOutcome-trans (broadcast cs text h') u (broadcast-Calm cs text h'))
      (λ h' u. CalmOutcome-trans (broadcast cs text h') u (broadcast-Calm cs text h')) (λ h' u. u)

module _ (p : Platform) where
  sent_outcome-Calm : (h : Hub) (s : Sent) → CalmSent h s → CalmOutcome h (sent_outcome p s)
  sent_outcome-Calm h (queued h') v = v
  sent_outcome-Calm h (kicked h') v = v
  sent_outcome-Calm h (panicked h') v = v

  forward_up-Calm :
      (c : ℕ) (host : Option ℕ) (raw : String) (h : Hub) → CalmOutcome h (forward_up p c host raw h)
  unfolding forward_up
  forward_up-Calm c none raw h = sent_outcome-Calm h (send_msg c _ h) (send_msg-Calm c _ h)
  forward_up-Calm c (some d) raw h = sent_outcome-Calm h (send_msg d raw h) (send_msg-Calm d raw h)

  pub forward-Calm : (c r : ℕ) (raw : String) (h : Hub) → CalmOutcome h (forward p c r raw h)
  unfolding forward
  forward-Calm c r raw h =
      elim (h.conns c).role
        as (λ role. CalmOutcome h (elim role [
          | as_daemon ↦ broadcast (h.heap r).clients raw h
          | as_client ↦ forward_up p c (h.heap r).host raw h
          | unset ↦ forward_up p c (h.heap r).host raw h
        ])) [
          | as_daemon ↦ broadcast-Calm (h.heap r).clients raw h
          | as_client ↦ forward_up-Calm c (h.heap r).host raw h
          | unset ↦ forward_up-Calm c (h.heap r).host raw h
        ]

-- Whom a text reaches.
abbrev pub Untouched : (x : ℕ) → Hub → Hub → Type 0
Untouched x h h' = h'.conns x ≡ h.conns x

abbrev UntouchedSent : ℕ → Hub → Sent → Type 0
UntouchedSent x h s = SentHolds (Untouched x h) s

abbrev pub UntouchedOutcome : ℕ → Hub → Outcome → Type 0
UntouchedOutcome x h o = OutcomeHolds (Untouched x h) o

pub send_msg-Untouched :
    (x c : ℕ) (text : String) (h : Hub) → (c == x) ≡ false → UntouchedSent x h (send_msg c text h)
unfolding send_msg shutdown
send_msg-Untouched x c text h other =
    let k = h.conns c in
    if_both (UntouchedSent x h) k.shut _ _ refl (
      if_both (UntouchedSent x h) (ltb (length k.queue) send_queue) _ _ (rw other refl)
        (rw other refl))

pub broadcast-Untouched :
    (x : ℕ) (cs : List ℕ) (text : String) (h : Hub)
    → any (λ c. c == x) cs ≡ false
    → UntouchedOutcome x h (broadcast cs text h)
unfolding broadcast
broadcast-Untouched x [] text h e = refl
broadcast-Untouched x (c ∷ cs) text h e =
    let (other, rest) = or_false e in
    let goes : (h' : Hub) → Untouched x h h' → UntouchedOutcome x h (broadcast cs text h') = λ h' u.
      OutcomeHolds-map (Untouched x h') (Untouched x h) (broadcast cs text h') (λ y w. w ∙ u)
        (broadcast-Untouched x cs text h' rest) in
    sent_cases (UntouchedOutcome x h) (Untouched x h) (send_msg c text h) _ _ _
      (send_msg-Untouched x c text h other) goes goes (λ h' u. u)

-- The connections of a room.
abbrev pub is_hosted_by : Option ℕ → ℕ → Bool
is_hosted_by none x = false
is_hosted_by (some d) x = d == x

abbrev pub is_in : ℕ → Room → Bool
is_in x room = is_hosted_by room.host x || any (λ c. c == x) room.clients

module _ (p : Platform) where
  sent_outcome-Untouched :
      (x : ℕ) (h : Hub) (s : Sent) → UntouchedSent x h s → UntouchedOutcome x h (sent_outcome p s)
  sent_outcome-Untouched x h (queued h') v = v
  sent_outcome-Untouched x h (kicked h') v = v
  sent_outcome-Untouched x h (panicked h') v = v

  forward_up-Untouched :
      (x c : ℕ) (host : Option ℕ) (raw : String) (h : Hub)
      → (c == x) ≡ false
      → is_hosted_by host x ≡ false
      → UntouchedOutcome x h (forward_up p c host raw h)
  unfolding forward_up
  forward_up-Untouched x c none raw h e e' =
      sent_outcome-Untouched x h (send_msg c _ h) (send_msg-Untouched x c _ h e)
  forward_up-Untouched x c (some d) raw h e e' =
      sent_outcome-Untouched x h (send_msg d raw h) (send_msg-Untouched x d raw h e')

  -- A text reaches nobody but the room and who sent it.
  pub forward-Untouched :
      (x c r : ℕ) (raw : String) (h : Hub)
      → (c == x) ≡ false
      → is_in x (h.heap r) ≡ false
      → UntouchedOutcome x h (forward p c r raw h)
  unfolding forward
  forward-Untouched x c r raw h e e' =
      let (unhosted, absent) = or_false e' in
      let up = forward_up-Untouched x c (h.heap r).host raw h e unhosted in
      elim (h.conns c).role
        as (λ role. UntouchedOutcome x h (elim role [
          | as_daemon ↦ broadcast (h.heap r).clients raw h
          | as_client ↦ forward_up p c (h.heap r).host raw h
          | unset ↦ forward_up p c (h.heap r).host raw h
        ])) [
          | as_daemon ↦ broadcast-Untouched x (h.heap r).clients raw h absent
          | as_client ↦ up
          | unset ↦ up
        ]
