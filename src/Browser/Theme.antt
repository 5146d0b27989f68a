-- ===== src/Browser/Theme.antt =====
-- web/src/lib/theme.ts: the stored theme and the one that the document shows.
use remote_agent.Common.{
  ◌≡◌, refl, String, Bool, true, false, Option, none, some, List, [], ◌∷◌, ◌==◌, string_eq,
  if◌then◌else◌, arith, Bool-cases, inl, inr,
}

pub data Theme : Type 0 where
  dark light system : Theme

-- `dark` or `light`, as `data-theme` has it.
pub data Shade : Type 0 where
  dark_shade light_shade : Shade

-- localStorage, the system's preference, and `data-theme`.
pub record Look : Type 0 where
  pub stored : Option String
  pub prefers_light : Bool
  pub shade : Option Shade

abbrev pub theme_text : Theme → String
theme_text dark = "dark"
theme_text light = "light"
theme_text system = "system"

unfoldable pub stored_theme : Look → Theme
stored_theme l = elim l.stored [
  | none ↦ dark
  | some v ↦ if v == "light" then light else if v == "system" then system else dark
]

unfoldable pub resolve : Look → Theme → Shade
resolve l dark = dark_shade
resolve l light = light_shade
resolve l system = if l.prefers_light then light_shade else dark_shade

unfoldable pub apply_theme : Theme → Look → Look
apply_theme t l = record l { shade = some (resolve l t) }

unfoldable pub set_theme : Theme → Look → Look
set_theme t l = apply_theme t (record l { stored = some (theme_text t) })

abbrev pub is_system : Theme → Bool
is_system system = true
is_system _ = false

-- The listener that `initTheme` adds, after the preference has changed.
unfoldable pub on_preference : Bool → Look → Look
on_preference prefers_light l =
    let l' = record l { prefers_light = prefers_light } in
    if is_system (stored_theme l') then apply_theme system l' else l'

-- initTheme
unfoldable pub init_theme : Look → Look
init_theme l = apply_theme (stored_theme l) l

pub data Change : Type 0 where
  chooses : Theme → Change
  prefers : Bool → Change

unfoldable pub change : Change → Look → Look
change (chooses t) l = set_theme t l
change (prefers b) l = on_preference b l

unfoldable pub changes : List Change → Look → Look
changes [] l = l
changes (c ∷ cs) l = changes cs (change c l)

abbrev pub InStep : Look → Type 0
InStep l = l.shade ≡ some (resolve l (stored_theme l))

shade_lem : (l : Look) → InStep (record l { shade = some (resolve l (stored_theme l)) })
unfolding stored_theme resolve
shade_lem l = ground arith

set_theme-InStep : (t : Theme) (l : Look) → InStep (set_theme t l)
unfolding set_theme apply_theme stored_theme resolve
set_theme-InStep dark l = refl
set_theme-InStep light l = refl
set_theme-InStep system l = refl

preference_at :
    (o : Option String) (before now : Bool) (shade : Option Shade)
    → InStep (record { stored = o; prefers_light = before; shade = shade })
    → InStep (on_preference now (record { stored = o; prefers_light = before; shade = shade }))
unfolding on_preference apply_theme stored_theme resolve
preference_at none before now shade h = h
preference_at (some v) before now shade h = elim (Bool-cases (v == "light")) [
  | inl lit ↦ let h' = rw lit at h in rw (lit, lit) h'
  | inr unlit ↦ elim (Bool-cases (v == "system")) [
    | inl follows ↦ rw (unlit, follows, unlit, follows) refl
    | inr fixed ↦ let h' = rw (unlit, fixed) at h in rw (unlit, fixed, unlit, fixed) h'
  ]
]

on_preference-InStep : (b : Bool) (l : Look) → InStep l → InStep (on_preference b l)
on_preference-InStep b l h = preference_at l.stored l.prefers_light b l.shade h

changes-InStep : (cs : List Change) (l : Look) → InStep l → InStep (changes cs l)
unfolding changes change
changes-InStep [] l h = h
changes-InStep (chooses t ∷ cs) l h = changes-InStep cs (set_theme t l) (set_theme-InStep t l)
changes-InStep (prefers b ∷ cs) l h =
    changes-InStep cs (on_preference b l) (on_preference-InStep b l h)

-- From the start of the page on, whatever is stored, whatever is chosen, and whatever the system comes to
-- prefer, the document shows what the stored theme means under the system's present preference.
pub changes-init_theme-InStep : (cs : List Change) (l : Look) → InStep (changes cs (init_theme l))
unfolding init_theme apply_theme stored_theme resolve
changes-init_theme-InStep cs l = changes-InStep cs (init_theme l) (shade_lem l)
