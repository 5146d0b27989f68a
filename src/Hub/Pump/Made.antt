-- ===== src/Hub/Pump/Made.antt =====
-- relay/hub.go and main.go: a room that is made for a device is a place of that device.
use remote_agent.Common.{
  ℕ, suc, ◌<◌, ◌≡◌, refl, sym, ◌∙◌, String, true, false, Option, none, some, ◌==◌, nat_eq,
  string_eq, if_both, if_cases, option_cases, arith, subst, ==_refl, ==_ne,
}
use remote_agent.Common.Maps.{lookup, insert, lookup-insert}
use remote_agent.Hub.{Hub, Room, put, new_room, find_or_make}
use remote_agent.Hub.Calm.{is_in}
use remote_agent.Hub.Pump.{System, Phase, registering, at}
use remote_agent.Hub.Pump.Placed.{is_early, IsKnown, IsPlaced, Placed, phase-Placed}

-- A room of a device that had none.
old_room :
    (own : ℕ → String) (made r : ℕ) (id d : String)
    → (own r ≡ d) × (r < made)
    → (put made id own r ≡ d) × (r < suc made)
old_room own made r id d (owns, there) =
    (rw (==_ne made r (λ e. omega (arith, e, there))) owns, omega (arith, there))

IsKnown-old :
    (own : ℕ → String) (made : ℕ) (id : String) (o : Option (String × ℕ))
    → IsKnown own made o
    → IsKnown (put made id own) (suc made) o
IsKnown-old own made id none v = tt
IsKnown-old own made id (some (d, r)) v = old_room own made r id d v

made-IsPlaced :
    {own : ℕ → String} (id : String) (h : Hub) (phases : ℕ → Phase)
    → IsPlaced own h phases
    → IsPlaced
        (put h.made id own)
        (record h {
          rooms = insert id h.made h.rooms;
          heap = put h.made new_room h.heap;
          made = suc h.made;
        })
        phases
made-IsPlaced {own} id h phases v = record {
  bound = λ id' r e.
      if_cases (λ (o : Option ℕ). o ≡ some r → (put h.made id own r ≡ id') × (r < suc h.made))
        (id == id') _ _
        (λ here e'.
          let same : h.made ≡ r = ground (arith, e') in
          subst (λ k. (put h.made id own k ≡ id') × (k < suc h.made)) same
            (rw (==_refl h.made) ((string_eq.decides id id').0 here), omega arith))
        (λ _ e'. old_room own h.made r id id' (v.bound id' r e'))
        (sym (lookup-insert id id' h.made h.rooms) ∙ e);
  inside = λ r x.
      if_cases
        (λ (y : Room).
          is_in x y ≡ true → (put h.made id own r ≡ (h.conns x).device_id) × (r < suc h.made))
        (h.made == r) _ _ (λ _ e. absurd (ground (arith, e)))
        (λ _ e. old_room own h.made r id _ (v.inside r x e));
  known = λ c. IsKnown-old own h.made id _ (v.known c);
  outside =
      λ c r e. if_both (λ (y : Room). is_in c y ≡ false) (h.made == r) _ _ refl (v.outside c r e);
  told = v.told;
}

abbrev pub Somewhere : System → Type 0
Somewhere s = (own : ℕ → String) × Placed own s

pub find_or_make-Somewhere :
    (own : ℕ → String) (id token : String) (c : ℕ) (s : System)
    → is_early (s.phases c) ≡ true
    → Placed own s
    → (let (h, r) = find_or_make id s.hub in Somewhere (at c (registering id token r) h s))
unfolding find_or_make
find_or_make-Somewhere own id token c s early v =
    option_cases (λ (o : Hub × ℕ). Somewhere (at c (registering id token o.1) o.0 s))
      (lookup id s.hub.rooms) _ _
      (
        put s.hub.made id own,
        phase-Placed c (registering id token s.hub.made) _
            (record {
              knows = (rw (==_refl s.hub.made) refl, omega arith);
              late = λ _. early;
              tells = λ x e. absurd (ground (arith, e));
            })
            (made-IsPlaced id s.hub s.phases v),
      )
      (λ r found. (
        own,
        phase-Placed c (registering id token r) s
            (record {
              knows = v.bound id r found;
              late = λ _. early;
              tells = λ x e. absurd (ground (arith, e));
            })
            v,
      ))
