-- ===== src/Hub/Rooms.antt =====
-- relay/hub.go: who comes into a room and who leaves it, by each locked part.
use remote_agent.Common.{
  ℕ, ◌≡◌, refl, sym, ap, ◌∙◌, ◌⊎◌, inl, inr, String, Bool, true, false, not, ◌&&◌, ◌||◌, none, some,
  List, [], ◌∷◌, length, any, keep, ltb, ◌==◌, nat_eq, string_eq, is_some, if_both, if_cases,
  option_cases, ==_refl, Bool-cases, arith, subst,
}
use remote_agent.Common.Maps.{lookup, remove, lookup-remove}
use remote_agent.Platform.{Platform}
use remote_agent.Protocol.{Frame}
use remote_agent.Hub.{
  Hub, Room, Role, as_daemon, as_client, Outcome, set_conn, set_room, register, join, forward, kick,
  is_host, leave, reclaim, unregister, presence_text,
}
use remote_agent.Hub.Ends.{OutcomeHolds, outcome_cases, OutcomeHolds-map}
use remote_agent.Hub.Calm.{
  IsCalm, CalmOutcome, IsCalm-refl, broadcast-Calm, forward-Calm, is_hosted_by, is_in,
}

-- Nobody comes, and no device is given a room.
pub record IsQuiet (h h' : Hub) : Type 0 where
  pub kept : (id : String) (r : ℕ) → lookup id h'.rooms ≡ some r → lookup id h.rooms ≡ some r
  pub made : h'.made ≡ h.made
  pub stays : (r x : ℕ) → is_in x (h'.heap r) ≡ true → is_in x (h.heap r) ≡ true
  pub device : (c : ℕ) → (h'.conns c).device_id ≡ (h.conns c).device_id

-- The connection `c` comes into the room `r` as one of the device `id`, and nobody else does.
pub record Enters (h h' : Hub) (c : ℕ) (id : String) (r : ℕ) : Type 0 where
  pub kept : (id' : String) (r' : ℕ) → lookup id' h'.rooms ≡ some r' → lookup id' h.rooms ≡ some r'
  pub made : h'.made ≡ h.made
  pub comes :
      (r' x : ℕ) → is_in x (h'.heap r') ≡ true → (is_in x (h.heap r') ≡ true) ⊎ ((x ≡ c) × (r' ≡ r))
  pub device : (x : ℕ) → (c == x) ≡ false → (h'.conns x).device_id ≡ (h.conns x).device_id
  pub named : (h'.conns c).device_id ≡ id

pub IsCalm-IsQuiet : {h h' : Hub} → IsCalm h h' → IsQuiet h h'
IsCalm-IsQuiet v = record {
  kept = λ id r e. ap (lookup id) (sym v.rooms) ∙ e;
  made = v.made;
  stays = λ r x e. ap (λ f. is_in x (f r)) (sym v.heap) ∙ e;
  device = v.device;
}

pub IsQuiet-refl : (h : Hub) → IsQuiet h h
IsQuiet-refl h = IsCalm-IsQuiet (IsCalm-refl h)

pub IsQuiet-trans : {a b c : Hub} → IsQuiet a b → IsQuiet b c → IsQuiet a c
IsQuiet-trans u v = record {
  kept = λ id r e. u.kept id r (v.kept id r e);
  made = v.made ∙ u.made;
  stays = λ r x e. u.stays r x (v.stays r x e);
  device = λ x. v.device x ∙ u.device x;
}

Enters-trans :
    {a b d : Hub} {c : ℕ} {id : String} {r : ℕ}
    → Enters a b c id r
    → IsQuiet b d
    → Enters a d c id r
Enters-trans u v = record {
  kept = λ id r e. u.kept id r (v.kept id r e);
  made = v.made ∙ u.made;
  comes = λ r x e. u.comes r x (v.stays r x e);
  device = λ x e. v.device x ∙ u.device x e;
  named = v.device _ ∙ u.named;
}

-- A room whose people were in it before.
set_room-IsQuiet :
    (r : ℕ) (room : Room) (h : Hub)
    → ((x : ℕ) → is_in x room ≡ true → is_in x (h.heap r) ≡ true)
    → IsQuiet h (set_room r room h)
set_room-IsQuiet r room h fewer = record {
  kept = λ id r e. e;
  made = refl;
  stays = λ r' x.
      if_cases (λ (y : Room). is_in x y ≡ true → is_in x (h.heap r') ≡ true) (r == r') _ _
        (λ here e.
          subst (λ k. is_in x (h.heap k) ≡ true) ((nat_eq.decides r r').0 here) (fewer x e))
        (λ _ e. e);
  device = λ c. refl;
}

remove-IsQuiet : (id : String) (h : Hub) → IsQuiet h (record h { rooms = remove id h.rooms })
remove-IsQuiet id h = record {
  kept = λ id' r e. ground (arith, lookup-remove id id' h.rooms, e);
  made = refl;
  stays = λ r x e. e;
  device = λ c. refl;
}

any-keep :
    (x : ℕ) (test : ℕ → Bool) (cs : List ℕ)
    → any (λ c. c == x) (keep test cs) ≡ true
    → any (λ c. c == x) cs ≡ true
any-keep x test [] = λ e. e
any-keep x test (c ∷ cs) =
    if_cases (λ l. any (λ d. d == x) l ≡ true → (c == x || any (λ d. d == x) cs) ≡ true) (test c) _
      _
      (λ _ e. elim (Bool-cases (c == x)) [
        | inl here ↦ ground (arith, here)
        | inr other ↦ ground (arith, e, other, any-keep x test cs)
      ])
      (λ _ e. ground (arith, any-keep x test cs e))

or_some : (a b b' : Bool) → (b ≡ true → b' ≡ true) → (a || b) ≡ true → (a || b') ≡ true
or_some true b b' f e = refl
or_some false b b' f e = f e

pub or_right : (a b : Bool) → b ≡ true → (a || b) ≡ true
or_right true b e = refl
or_right false b e = e

-- A connection is given to a room, and the room to nobody else.
enter-Enters :
    (c r : ℕ) (id : String) (role : Role) (room : Room) (h : Hub)
    → ((x : ℕ) → is_in x room ≡ true → (c == x) ≡ false → is_in x (h.heap r) ≡ true)
    → Enters h
        (set_conn c (record (h.conns c) { device_id = id; role = role }) (set_room r room h))
        c
        id
        r
enter-Enters c r id role room h fewer = record {
  kept = λ id' r' e. e;
  made = refl;
  comes = λ r' x.
      if_cases
        (λ (y : Room). is_in x y ≡ true → (is_in x (h.heap r') ≡ true) ⊎ ((x ≡ c) × (r' ≡ r)))
        (r == r') _ _
        (λ here e. elim (Bool-cases (c == x)) [
          | inl it ↦ inr (sym ((nat_eq.decides c x).0 it), sym ((nat_eq.decides r r').0 here))
          | inr other ↦ inl (
              subst (λ k. is_in x (h.heap k) ≡ true) ((nat_eq.decides r r').0 here)
                (fewer x e other))
        ])
        (λ _ e. inl e);
  device = λ x other. rw other refl;
  named = rw (==_refl c) refl;
}

abbrev pub Settles : Hub → ℕ → String → ℕ → Hub → Type 0
Settles h c id r h' = IsQuiet h h' ⊎ Enters h h' c id r

IsQuiet-ends :
    (h h1 : Hub) (o : Outcome) → IsQuiet h h1 → CalmOutcome h1 o → OutcomeHolds (IsQuiet h) o
IsQuiet-ends h h1 o u v =
    OutcomeHolds-map (IsCalm h1) (IsQuiet h) o (λ x w. IsQuiet-trans u (IsCalm-IsQuiet w)) v

module _ (p : Platform) where
  pub register-Settles :
      (id token : String) (c r : ℕ) (h : Hub)
      → OutcomeHolds (Settles h c id r) (register p id token c r h).0
  unfolding register
  register-Settles id token c r h =
      let u =
        enter-Enters c r id as_daemon (record (h.heap r) { host = some c; token = token }) h
          (λ x e other. or_right (is_hosted_by (h.heap r).host x) _ (ground (arith, e, other))) in
      option_cases (λ (o : Outcome × Frame). OutcomeHolds (Settles h c id r) o.0) (h.heap r).host _
        _
        (OutcomeHolds-map (IsCalm _) (Settles h c id r) _
          (λ x w. inr (Enters-trans u (IsCalm-IsQuiet w)))
          (broadcast-Calm (h.heap r).clients (presence_text p id true) _))
        (λ other e. inl (IsQuiet-refl h))

  pub join-Settles : (id : String) (c r : ℕ) (h : Hub) → Settles h c id r (join p id c r h).0
  unfolding join
  join-Settles id c r h =
      let Good : Hub × Frame → Type 0 = λ o. Settles h c id r o.0 in
      if_both Good (not (is_some (h.heap r).host)) _ _ (inl (IsQuiet-refl h)) (
        if_both Good (ltb 0 (length (h.heap r).clients)) _ _ (inl (IsQuiet-refl h)) (
          inr (
            enter-Enters c r id as_client (record (h.heap r) { clients = c ∷ (h.heap r).clients }) h
              (λ x e other.
                or_some (is_hosted_by (h.heap r).host x) _ _ (λ e'. ground (arith, e', other)) e))))

  pub forward-Quiet :
      (c r : ℕ) (raw : String) (h : Hub) → OutcomeHolds (IsQuiet h) (forward p c r raw h)
  forward-Quiet c r raw h = IsQuiet-ends h h _ (IsQuiet-refl h) (forward-Calm p c r raw h)

  pub kick-IsQuiet : (r : ℕ) (h : Hub) → IsQuiet h (kick p r h)
  unfolding kick
  kick-IsQuiet r h =
      set_room-IsQuiet r (record (h.heap r) { clients = [] }) h
        (λ x e. or_some (is_hosted_by (h.heap r).host x) false _ (λ e'. ground (arith, e')) e)

  leave-Quiet : (c r : ℕ) (h : Hub) → OutcomeHolds (IsQuiet h) (leave p c r h)
  unfolding leave
  leave-Quiet c r h =
      if_both (OutcomeHolds (IsQuiet h)) (is_host p h c r) _ _
        (IsQuiet-ends h _ _
          (set_room-IsQuiet r (record (h.heap r) { host = none }) h
            (λ x e. or_right (is_hosted_by (h.heap r).host x) _ e))
          (broadcast-Calm (h.heap r).clients _ _))
        (set_room-IsQuiet r _ h
          (λ x e. or_some (is_hosted_by (h.heap r).host x) _ _ (any-keep x _ (h.heap r).clients) e))

  reclaim-IsQuiet : (c r : ℕ) (h : Hub) → IsQuiet h (reclaim p c r h)
  unfolding reclaim
  reclaim-IsQuiet c r h =
      if_both (IsQuiet h) (not (is_some (h.heap r).host) && not (ltb 0 (length (h.heap r).clients)))
        _ _ (remove-IsQuiet (h.conns c).device_id h) (IsQuiet-refl h)

  pub unregister-Quiet : (c r : ℕ) (h : Hub) → OutcomeHolds (IsQuiet h) (unregister p c r h)
  unfolding unregister
  unregister-Quiet c r h =
      outcome_cases (OutcomeHolds (IsQuiet h)) (IsQuiet h) (leave p c r h) _ _ (leave-Quiet c r h)
        (λ h' v. IsQuiet-trans v (reclaim-IsQuiet c r h')) (λ h' v. v)
