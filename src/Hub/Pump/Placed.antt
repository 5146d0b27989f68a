-- ===== src/Hub/Pump/Placed.antt =====
-- relay/hub.go and main.go: every connection is in rooms of its own device only.
use remote_agent.Common.{
  ap, any, ◌||◌, ℕ, ◌<◌, ◌≡◌, sym, ◌∙◌, inl, inr, String, Bool, true, false, Option, none, some,
  ◌==◌, nat_eq, string_eq, if_cases, Bool-cases, arith, subst, ==_refl,
}
use remote_agent.Common.Maps.{lookup}
use remote_agent.Hub.{Hub, put}
use remote_agent.Hub.Calm.{is_in}
use remote_agent.Hub.Rooms.{IsQuiet, Enters}
use remote_agent.Hub.Pump.{
  telling, shutting, System, Phase, registering, joining, forwarding, kicking, leaving_at, greeting,
  at,
}

-- The room that a goroutine has a reference to, and the device that it takes the room for.
abbrev pub held : String → Phase → Option (String × ℕ)
held device (registering id token r) = some (id, r)
held device (joining id r) = some (id, r)
held device (forwarding r raw) = some (device, r)
held device (kicking r) = some (device, r)
held device (leaving_at r) = some (device, r)
held device _ = none

-- The connection has no device yet.
abbrev pub is_early : Phase → Bool
is_early greeting = true
is_early (registering id token r) = true
is_early (joining id r) = true
is_early _ = false

-- Whether the goroutine is about to shut the connection `x`, as a client that it kicks.
abbrev pub is_told : ℕ → Phase → Bool
is_told x (telling xs) = any (λ y. y == x) xs
is_told x (shutting y xs) = y == x || any (λ z. z == x) xs
is_told x _ = false

abbrev pub IsKnown : (ℕ → String) → ℕ → Option (String × ℕ) → Type 0
IsKnown own made none = Unit
IsKnown own made (some (id, r)) = (own r ≡ id) × (r < made)

-- `own r` is the device for which the room `r` was made.
pub record IsPlaced (own : ℕ → String) (h : Hub) (phases : ℕ → Phase) : Type 0 where
  pub bound : (id : String) (r : ℕ) → lookup id h.rooms ≡ some r → (own r ≡ id) × (r < h.made)
  pub inside :
      (r x : ℕ) → is_in x (h.heap r) ≡ true → (own r ≡ (h.conns x).device_id) × (r < h.made)
  pub known : (c : ℕ) → IsKnown own h.made (held (h.conns c).device_id (phases c))
  pub outside : (c r : ℕ) → is_early (phases c) ≡ true → is_in c (h.heap r) ≡ false
  pub told :
      (c x : ℕ)
      → is_told x (phases c) ≡ true
      → ((h.conns x).device_id ≡ (h.conns c).device_id) × (is_early (phases x) ≡ false)

abbrev pub Placed : (ℕ → String) → System → Type 0
Placed own s = IsPlaced own s.hub s.phases

-- A phase that a connection may come into.
pub record MayEnter (own : ℕ → String) (s : System) (c : ℕ) (phase : Phase) : Type 0 where
  pub knows : IsKnown own s.hub.made (held (s.hub.conns c).device_id phase)
  pub late : is_early phase ≡ true → is_early (s.phases c) ≡ true
  pub tells :
      (x : ℕ)
      → is_told x phase ≡ true
      → ((s.hub.conns x).device_id ≡ (s.hub.conns c).device_id) × (is_early (s.phases x) ≡ false)

still_outside :
    {h h' : Hub}
    → IsQuiet h h'
    → (c r : ℕ) → is_in c (h.heap r) ≡ false
    → is_in c (h'.heap r) ≡ false
still_outside {h} {h'} q c r e = elim (Bool-cases (is_in c (h'.heap r))) [
  | inl there ↦ (let was = q.stays r c there in ground (arith, was, e))
  | inr away ↦ away
]

IsKnown-after :
    (own : ℕ → String) {h h' : Hub} (phase : Phase) (c : ℕ)
    → IsQuiet h h'
    → IsKnown own h.made (held (h.conns c).device_id phase)
    → IsKnown own h'.made (held (h'.conns c).device_id phase)
IsKnown-after own phase c q v = rw (q.made, q.device c) v

-- Nobody moves, and the phases are the same.
pub quiet-Placed :
    {own : ℕ → String} {h h' : Hub} {phases : ℕ → Phase}
    → IsQuiet h h'
    → IsPlaced own h phases
    → IsPlaced own h' phases
quiet-Placed {own} {h} {h'} {phases} q v = record {
  bound = λ id r e. rw q.made (v.bound id r (q.kept id r e));
  inside = λ r x e. rw (q.made, q.device x) (v.inside r x (q.stays r x e));
  known = λ c. IsKnown-after own (phases c) c q (v.known c);
  outside = λ c r e. still_outside q c r (v.outside c r e);
  told = λ c x e. rw (q.device x, q.device c) (v.told c x e);
}

-- Who is late stays so, also where it comes into another phase itself.
put_late :
    {own : ℕ → String} (c x : ℕ) (phase : Phase) (s : System)
    → MayEnter own s c phase
    → is_early (s.phases x) ≡ false
    → is_early (put c phase s.phases x) ≡ false
put_late c x phase s may late =
    if_cases (λ (f : Phase). is_early f ≡ false) (c == x) _ _
      (λ here.
        let was : is_early (s.phases c) ≡ false =
          subst (λ y. is_early (s.phases y) ≡ false) (sym ((nat_eq.decides c x).0 here)) late in
        elim (Bool-cases (is_early phase)) [
          | inl early ↦ (let old = may.late early in ground (arith, old, was))
          | inr no_more ↦ no_more
        ])
      (λ _. late)

-- A connection comes into another phase.
pub phase-Placed :
    {own : ℕ → String} (c : ℕ) (phase : Phase) (s : System)
    → MayEnter own s c phase
    → Placed own s
    → IsPlaced own s.hub (put c phase s.phases)
phase-Placed {own} c phase s may v = record {
  bound = v.bound;
  inside = v.inside;
  known = λ x.
      if_cases (λ (f : Phase). IsKnown own s.hub.made (held (s.hub.conns x).device_id f)) (c == x) _
        _
        (λ here.
          subst (λ y. IsKnown own s.hub.made (held (s.hub.conns y).device_id phase))
            ((nat_eq.decides c x).0 here) may.knows)
        (λ _. v.known x);
  outside = λ x r.
      if_cases (λ (f : Phase). is_early f ≡ true → is_in x (s.hub.heap r) ≡ false) (c == x) _ _
        (λ here e.
          subst (λ y. is_in y (s.hub.heap r) ≡ false) ((nat_eq.decides c x).0 here)
            (v.outside c r (may.late e)))
        (λ _. v.outside x r);
  told = λ y x.
      if_cases
        (λ (f : Phase).
          is_told x f ≡ true
          → ((s.hub.conns x).device_id ≡ (s.hub.conns y).device_id)
            × (is_early (put c phase s.phases x) ≡ false))
        (c == y) _ _
        (λ here e.
          let (same, late) = may.tells x e in
          (
            same ∙ ap (λ z. (s.hub.conns z).device_id) ((nat_eq.decides c y).0 here),
            put_late c x phase s may late,
          ))
        (λ _ e. (let (same, late) = v.told y x e in (same, put_late c x phase s may late)));
}

pub at-Placed :
    {own : ℕ → String} (c : ℕ) (phase : Phase) (h : Hub) (s : System)
    → IsQuiet s.hub h
    → MayEnter own s c phase
    → Placed own s
    → Placed own (at c phase h s)
at-Placed c phase h s q may v = quiet-Placed q (phase-Placed c phase s may v)

no_early : (b : Bool) → false ≡ true → b ≡ true
no_early b e = ground (arith, e)

-- A phase in which nothing is held and the device is known.
pub idle-MayEnter :
    (own : ℕ → String) (s : System) (c : ℕ) (phase : Phase)
    → ((d : String) → (held d phase ≡ none) × ((x : ℕ) → is_told x phase ≡ false))
    → is_early phase ≡ false
    → MayEnter own s c phase
idle-MayEnter own s c phase nothing late = record {
  knows = rw (nothing (s.hub.conns c).device_id).0 tt;
  late = λ e. no_early (is_early (s.phases c)) (sym late ∙ e);
  tells =
      λ x e. (let no = (nothing (s.hub.conns c).device_id).1 x in absurd (ground (arith, e, no)));
}

-- Nobody enters who is late.
differs_late :
    (c x : ℕ) (phases : ℕ → Phase)
    → is_early (phases c) ≡ true
    → is_early (phases x) ≡ false
    → (c == x) ≡ false
differs_late c x phases early late = elim (Bool-cases (c == x)) [
  | inr other ↦ other
  | inl here ↦
      (let too : is_early (phases x) ≡ true =
          subst (λ y. is_early (phases y) ≡ true) ((nat_eq.decides c x).0 here) early in
        absurd (ground (arith, too, late)))
]

away_after :
    {h h' : Hub} {c r : ℕ} {id : String}
    → Enters h h' c id r
    → (x r' : ℕ) → (c == x) ≡ false
    → is_in x (h.heap r') ≡ false
    → is_in x (h'.heap r') ≡ false
away_after {h} {h'} {c} u x r' other e = elim (Bool-cases (is_in x (h'.heap r'))) [
  | inr away ↦ away
  | inl came ↦ elim (u.comes r' x came) [
    | inl was ↦ ground (arith, was, e)
    | inr (is_it, _) ↦
        (let self : (c == c) ≡ true = ==_refl c in ground (arith, is_it, other, self))
  ]
]

pub enter-Placed :
    {own : ℕ → String} (c r : ℕ) (id : String) (phase : Phase) (h : Hub) (s : System)
    → Enters s.hub h c id r
    → (own r ≡ id) × (r < s.hub.made)
    → is_early (s.phases c) ≡ true
    → ((d : String) → (held d phase ≡ none) × ((x : ℕ) → is_told x phase ≡ false))
    → is_early phase ≡ false
    → Placed own s
    → Placed own (at c phase h s)
enter-Placed {own} c r id phase h s u (owns, there) early nothing late v = record {
  bound = λ id' r' e. rw u.made (v.bound id' r' (u.kept id' r' e));
  inside = λ r' x e. elim (u.comes r' x e) [
    | inl was ↦ elim (Bool-cases (c == x)) [
      | inl here ↦
          (let none_in = v.outside c r' early in
            let was_in =
              subst (λ y. is_in y (s.hub.heap r') ≡ true) (sym ((nat_eq.decides c x).0 here)) was in
            absurd (ground (arith, none_in, was_in)))
      | inr other ↦ rw (u.made, u.device x other) (v.inside r' x was)
    ]
    | inr (is_it, same) ↦ rw (is_it, same, u.made, u.named) (owns, there)
  ];
  known = λ x.
      if_cases (λ (f : Phase). IsKnown own h.made (held (h.conns x).device_id f)) (c == x) _ _
        (λ _. rw (nothing (h.conns x).device_id).0 tt)
        (λ other. rw (u.made, u.device x other) (v.known x));
  outside = λ x r'.
      if_cases (λ (f : Phase). is_early f ≡ true → is_in x (h.heap r') ≡ false) (c == x) _ _
        (λ _ e. ground (arith, e, late)) (λ other e. away_after u x r' other (v.outside x r' e));
  told = λ y x.
      if_cases
        (λ (f : Phase).
          is_told x f ≡ true
          → ((h.conns x).device_id ≡ (h.conns y).device_id)
            × (is_early (put c phase s.phases x) ≡ false))
        (c == y) _ _ (λ _ e. (let no = (nothing id).1 x in absurd (ground (arith, e, no))))
        (λ other e.
          let (same, late') = v.told y x e in
          let other' = differs_late c x s.phases early late' in
          (u.device x other' ∙ same ∙ sym (u.device y other), rw other' late'));
}
