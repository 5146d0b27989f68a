-- ===== src/Browser/Landing.antt =====
-- web/src/App.tsx: the probe for a daemon, and what is shown at an address.
use remote_agent.Common.{
  ℕ, zero, suc, ◌+◌, ◌≤◌, ◌≡◌, refl, sym, ap, subst, ◌∙◌, Bool, true, false, not, ◌&&◌, Option,
  none, some, ltb, if◌then◌else◌, arith,
}
use remote_agent.Pairing.Target.{Target}

pub data Mode : Type 0 where
  checking local relay : Mode

pub record Landing : Type 0 where
  pub mode : Mode
  pub entered : Bool
  pub tries : ℕ
  pub stop : Bool

abbrev pub landing : Landing
landing = record { mode = checking; entered = false; tries = 0; stop = false }

-- The probe's answer: its status is fine and its type names JSON.
unfoldable pub on_answer : (ok has_json : Bool) → Landing → Landing
on_answer ok has_json l =
    if not l.stop then record l { mode = if ok && has_json then local else relay } else l

-- The probe fails; with the result, whether it is tried again in half a second.
unfoldable pub on_failure : (in_tauri : Bool) → Landing → Landing × Bool
on_failure in_tauri l =
    let may_retry = not l.stop && in_tauri in
    let l' = if may_retry then record l { tries = l.tries + 1 } else l in
    if may_retry && ltb l.tries 10
    then (l', true)
    else if not l.stop
    then (record l' { mode = relay }, false)
    else (l', false)

-- The effect's end, and the button of the landing page.
abbrev pub on_unmount : Landing → Landing
on_unmount l = record l { stop = true }

abbrev pub on_enter : Landing → Landing
on_enter l = record l { entered = true }

pub data Shown : Type 0 where
  workspace : Target → Shown
  blank panel hero : Shown

-- Landing's view; `hash_connects` is `location.hash.includes('connect')`.
unfoldable pub show_landing : (hash_connects : Bool) → Landing → Shown
show_landing hash_connects l = elim l.mode [
  | checking ↦ blank
  | local ↦ panel
  | relay ↦ if not l.entered && not hash_connects then hero else panel
]

-- App
unfoldable pub show : Option Target → (hash_connects : Bool) → Landing → Shown
show (some t) hash_connects l = workspace t
show none hash_connects l = show_landing hash_connects l

unfoldable pub failures : (in_tauri : Bool) → ℕ → Landing → Landing
failures in_tauri zero l = l
failures in_tauri (suc n) l = failures in_tauri n (on_failure in_tauri l).0

after_failures :
    (n tries : ℕ)
    → n + tries ≤ 10
    → failures true n (record landing { tries = tries }) ≡ record landing { tries = n + tries }
unfolding failures on_failure
after_failures zero tries h = ap (λ (t : ℕ). record landing { tries = t }) (omega arith)
after_failures (suc n) tries h =
    let few : ltb tries 10 ≡ true = ground arith in
    let same : n + (tries + 1) ≡ suc n + tries = omega arith in
    rw few (
      after_failures n (tries + 1) (omega arith)
      ∙ ap (λ (t : ℕ). record landing { tries = t }) same)

-- In the desktop shell the first ten failures are each followed by another try, with nothing decided, and
-- the eleventh decides for the relay; in a browser the first failure does.
pub failures_end :
    ((n : ℕ)
      → n ≤ 10
      → ((failures true n landing).mode ≡ checking)
        × ((on_failure true (failures true n landing)).1 ≡ ltb n 10))
    × ((failures true 11 landing).mode ≡ relay)
    × ((failures false 1 landing).mode ≡ relay)
unfolding failures on_failure
failures_end = (
  λ n h.
      let none_before : n + 0 ≡ n = omega arith in
      let there =
        after_failures n 0 (omega arith)
        ∙ ap (λ (t : ℕ). record landing { tries = t }) none_before in
      subst (λ (l : Landing). (l.mode ≡ checking) × ((on_failure true l).1 ≡ ltb n 10)) (sym there)
        (refl, ground arith),
  refl,
  refl,
)
