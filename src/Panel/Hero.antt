-- ===== src/Panel/Hero.antt =====
-- The session that web/src/pages/Overview.tsx and web/src/pages/Devices.tsx choose.
use remote_agent.Common.{
  ◌≤◌, ◌≡◌, refl, ap, ◌∙◌, subst, true, false, Option, none, or_else, some, List, [], ◌∷◌, keep,
  any, All, arith, ◌↔◌, inl, inr, Bool-cases, if_cases, if◌then◌else◌,
}
use mathlib.Core.List.{Memᴰ}
use mathlib.Core.List.Memᴰ
use mathlib.Core.List.Memᴰ.{head, tail}
use remote_agent.Panel.{SessionRow}
use remote_agent.Panel.Agents.{
  has_agent, rank, comes_before, place, sort, first, pick_hero, current_ai,
}

-- Of a session and the best of those behind it, the one that stays in front.
abbrev better : SessionRow → Option SessionRow → SessionRow
better s none = s
better s (some t) = if comes_before t s then t else s

first-place :
    (s : SessionRow) (ts : List SessionRow) → first (place s ts) ≡ some (better s (first ts))
unfolding place
first-place s [] = refl
first-place s (t ∷ ts) = elim (Bool-cases (comes_before t s)) [
  | inl e ↦ rw (e, place) refl
  | inr e ↦ rw (e, place) refl
]

-- What does not come before something that does not come before a third, does not come before it either.
not_before_trans :
    (u t s : SessionRow)
    → comes_before u t ≡ false
    → comes_before t s ≡ false
    → comes_before u s ≡ false
not_before_trans u t s h k = ground arith

before_not_after : (t s : SessionRow) → comes_before t s ≡ true → comes_before s t ≡ false
before_not_after t s h = ground arith

not_before_self : (s : SessionRow) → comes_before s s ≡ false
not_before_self s = ground arith

abbrev Leads : SessionRow → List SessionRow → Type 0
Leads h ss = All (λ t. comes_before t h ≡ false) ss

Leads-trans :
    (t s : SessionRow) (ss : List SessionRow) → comes_before t s ≡ false → Leads t ss → Leads s ss
Leads-trans t s [] h k = tt
Leads-trans t s (u ∷ ss) h k = (not_before_trans u t s k.0 h, Leads-trans t s ss h k.1)

-- What is first in the sorted list, which is one of it.
abbrev Heads : Option SessionRow → List SessionRow → Type 0
Heads none ss = ss ≡ []
Heads (some h) ss = Leads h ss × Memᴰ h ss

better-Heads :
    (s : SessionRow) (best : Option SessionRow) (ss : List SessionRow)
    → Heads best ss
    → Heads (some (better s best)) (s ∷ ss)
better-Heads s none ss h = rw h ((not_before_self s, tt), head refl)
better-Heads s (some t) ss h =
    if_cases (λ b. Heads (some b) (s ∷ ss)) (comes_before t s) t s
      (λ e. ((before_not_after t s e, h.0), tail h.1))
      (λ e. ((not_before_self s, Leads-trans t s ss e h.0), head refl))

sort-Heads : (ss : List SessionRow) → Heads (first (sort ss)) ss
unfolding sort
sort-Heads [] = refl
sort-Heads (s ∷ ss) =
    rw (first-place s (sort ss)) (better-Heads s (first (sort ss)) ss (sort-Heads ss))

-- The way from a member of the filtered list, one element after another.
kept_cons :
    (h s : SessionRow) (ss : List SessionRow)
    → has_agent s ≡ true
    → (Memᴰ h (keep has_agent ss) → Memᴰ h ss × (has_agent h ≡ true))
    → Memᴰ h (s ∷ keep has_agent ss)
    → Memᴰ h (s ∷ ss) × (has_agent h ≡ true)
kept_cons h s ss e back (head p) = (head p, ap has_agent p ∙ e)
kept_cons h s ss e back (tail r) = let (found, agent) = back r in (tail found, agent)

kept_mem :
    (h : SessionRow) (ss : List SessionRow)
    → Memᴰ h (keep has_agent ss)
    → Memᴰ h ss × (has_agent h ≡ true)
kept_mem h [] m = absurd (Memᴰ.not-nil m)
kept_mem h (s ∷ ss) m = elim (Bool-cases (has_agent s)) [
  | inl e ↦ kept_cons h s ss e (kept_mem h ss) (rw e at m)
  | inr e ↦ let (found, agent) = kept_mem h ss (rw e at m) in (tail found, agent)
]

-- The status of `t` is no better than that of `h`, and with the same one `t` has begun no later.
abbrev pub IsBehind : (t h : SessionRow) → Type 0
IsBehind t h =
    let rt = rank (or_else t.agent_status "") in
    let rh = rank (or_else h.agent_status "") in (rh ≤ rt) × (rt ≡ rh → t.started_at ≤ h.started_at)

not_before-IsBehind : (t h : SessionRow) → comes_before t h ≡ false → IsBehind t h
not_before-IsBehind t h n = (ground arith, λ e. ground arith)

Leads-keep :
    (h : SessionRow) (ss : List SessionRow)
    → Leads h (keep has_agent ss)
    → All (λ t. has_agent t ≡ true → IsBehind t h) ss
Leads-keep h [] l = tt
Leads-keep h (s ∷ ss) l = elim (Bool-cases (has_agent s)) [
  | inl e ↦ let l' = rw e at l in (λ x. not_before-IsBehind s h l'.0, Leads-keep h ss l'.1)
  | inr e ↦ ((λ x. absurd (ground arith)), Leads-keep h ss (rw e at l))
]

keep_none : (ss : List SessionRow) → any has_agent ss ≡ false → keep has_agent ss ≡ []
keep_none [] h = refl
keep_none (s ∷ ss) h = ground (arith, keep_none ss)

none_kept : (ss : List SessionRow) → keep has_agent ss ≡ [] → any has_agent ss ≡ false
none_kept [] h = refl
none_kept (s ∷ ss) h = ground (arith, none_kept ss)

-- Both pages choose the same session.
pub current_ai-pick_hero : (ss : List SessionRow) → current_ai ss ≡ pick_hero ss
unfolding current_ai pick_hero sort
current_ai-pick_hero ss = ground arith

-- The session that is shown is one of the list with an agent, and no other one with an agent comes before
-- it: none has a better status, and none of the same status has begun later. Without an agent in the
-- list nothing is shown, and only then.
pub pick_hero_best :
    (ss : List SessionRow)
    → ((h : SessionRow)
        → pick_hero ss ≡ some h
        → Memᴰ h ss × (has_agent h ≡ true) × All (λ t. has_agent t ≡ true → IsBehind t h) ss)
      × ((pick_hero ss ≡ none) ↔ (any has_agent ss ≡ false))
unfolding pick_hero current_ai sort
pick_hero_best ss =
    let kept = keep has_agent ss in
    let heads = subst (λ best. Heads best kept) (current_ai-pick_hero ss) (sort-Heads kept) in
    (
      λ h e.
          let (leads, found) = subst (λ best. Heads best kept) e heads in
          let (here, agent) = kept_mem h ss found in (here, agent, Leads-keep h ss leads),
      (
        λ e. none_kept ss (subst (λ best. Heads best kept) e heads),
        λ e. rw (keep_none ss e, pick_hero) refl,
      ),
    )
