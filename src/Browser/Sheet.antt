-- ===== src/Browser/Sheet.antt =====
-- web/src/lib/sheet.ts: a sheet that is dragged down by its handle is closed.
use remote_agent.Common.{
  ℕ, ◌+◌, ◌-◌, ◌≤◌, ◌≡◌, refl, sym, ap, subst, Bool, true, false, not, Option, none, some, List, [],
  ◌∷◌, ltb, if◌then◌else◌, arith,
}

-- Sheets are numbered. The source's `dy` may be negative, and is only compared with 0 and 90 and used
-- where it is above 0: 0 stands for all that is below.
pub record Drag : Type 0 where
  pub sheet : Option ℕ
  pub start_y : ℕ
  pub dy : ℕ
  pub dragging : Bool

pub data Act : Type 0 where
  mark unmark click_overlay straighten : ℕ → Act
  translate : ℕ → ℕ → Act

abbrev pub idle : Drag
idle = record { sheet = none; start_y = 0; dy = 0; dragging = false }

-- `touchstart` at the height `y`; the sheet that is hit and its upper edge.
unfoldable pub touch_start : (hit : Option (ℕ × ℕ)) (y : ℕ) → Drag → Drag × List Act
touch_start none y d = (d, [])
touch_start (some (s, top)) y d =
    if ltb 56 (y - top)
    then (d, [])
    else (record { sheet = some s; start_y = y; dy = 0; dragging = true }, mark s ∷ [])

unfoldable pub touch_move : (y : ℕ) → Drag → Drag × List Act
touch_move y d = if not d.dragging then (d, []) else elim d.sheet [
  | none ↦ (d, [])
  | some s ↦
      let dy = y - d.start_y in (record d { dy = dy }, if ltb 0 dy then translate s dy ∷ [] else [])
]

unfoldable pub touch_end : Drag → Drag × List Act
touch_end d = if not d.dragging then (d, []) else elim d.sheet [
  | none ↦ (d, [])
  | some s ↦ (
    record d { sheet = none; dragging = false; dy = 0 },
    unmark s ∷ (if ltb 90 d.dy then click_overlay s else straighten s) ∷ [],
  )
]

-- A finger that moves through the heights.
unfoldable pub moves : List ℕ → Drag → Drag
moves [] d = d
moves (y ∷ ys) d = moves ys (touch_move y d).0

abbrev pub last_height : ℕ → List ℕ → ℕ
last_height y [] = y
last_height y (z ∷ ys) = last_height z ys

abbrev held : (s start dy : ℕ) → Drag
held s start dy = record { sheet = some s; start_y = start; dy = dy; dragging = true }

moves-held :
    (s start now : ℕ) (ys : List ℕ)
    → moves ys (held s start (now - start)) ≡ held s start (last_height now ys - start)
unfolding moves touch_move
moves-held s start now [] = refl
moves-held s start now (y ∷ ys) = moves-held s start y ys

moves_begun : (s y : ℕ) (ys : List ℕ) → moves ys (held s y 0) ≡ held s y (last_height y ys - y)
moves_begun s y ys =
    let none_yet : y - y ≡ 0 = omega arith in
    subst (λ (d : ℕ). moves ys (held s y d) ≡ held s y (last_height y ys - y)) none_yet
      (moves-held s y y ys)

moves-idle : (ys : List ℕ) → moves ys idle ≡ idle
unfolding moves touch_move
moves-idle [] = refl
moves-idle (y ∷ ys) = moves-idle ys

-- A drag that begins on the upper 56 pixels of a sheet, whatever way it takes, ends with the sheet closed
-- if it ends more than 90 pixels below its beginning, and with the sheet where it was if not; a drag that
-- begins further below leaves all as it was.
pub touch_end-moves-touch_start :
    (s top y : ℕ) (ys : List ℕ)
    → let d = (touch_start (some (s, top)) y idle).0 in
      (y ≤ top + 56
        → ((touch_end (moves ys d)).1
            ≡ unmark s
              ∷ (if ltb 90 (last_height y ys - y) then click_overlay s else straighten s)
              ∷ [])
          × ((touch_end (moves ys d)).0.sheet ≡ none)
          × ((touch_end (moves ys d)).0.dragging ≡ false))
      × (top + 56 + 1 ≤ y → (moves ys d ≡ idle) × ((touch_end (moves ys d)).1 ≡ []))
unfolding touch_start touch_end
touch_end-moves-touch_start s top y ys = (
  λ h.
      let near : ltb 56 (y - top) ≡ false = ground arith in
      let path : moves ys (touch_start (some (s, top)) y idle).0 ≡ held s y (last_height y ys - y) =
        rw near (moves_begun s y ys) in
      subst
        (λ (d : Drag).
          ((touch_end d).1
            ≡ unmark s
              ∷ (if ltb 90 (last_height y ys - y) then click_overlay s else straighten s)
              ∷ [])
          × ((touch_end d).0.sheet ≡ none)
          × ((touch_end d).0.dragging ≡ false))
        (sym path) (refl, refl, refl),
  λ h.
      let far : ltb 56 (y - top) ≡ true = ground arith in
      let path : moves ys (touch_start (some (s, top)) y idle).0 ≡ idle = rw far (moves-idle ys) in
      (path, ap (λ (d : Drag). (touch_end d).1) path),
)
