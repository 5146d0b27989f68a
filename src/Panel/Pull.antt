-- ===== src/Panel/Pull.antt =====
-- The pull that reads the daemon anew: the effect on `refresh` of web/src/pages/Overview.tsx.
use remote_agent.Common.{
  ℕ, ◌-◌, ◌≡◌, refl, ap, ◌∙◌, Bool, true, false, not, ◌&&◌, Option, none, some, List, [], ◌∷◌, ltb,
  if◌then◌else◌, arith,
}

-- The variables of the effect, and the state `pull`, whose -1 is `none`. The source's `dist` may be
-- negative, and is only compared with 0, 70 and 110: 0 stands for all that is below.
pub record Pull : Type 0 where
  pub start_y : ℕ
  pub active : Bool
  pub dist : ℕ
  pub pull : Option ℕ

-- The effect runs, at first and whenever the page is given another `refresh`.
unfoldable pub renew : Pull → Pull
renew p = record p { start_y = 0; active = false; dist = 0 }

abbrev pub still : Pull
still = record { start_y = 0; active = false; dist = 0; pull = some 0 }

-- touchstart at the height `y`; `at_top` says that the page is scrolled to its upper end.
unfoldable pub touch_start : (at_top : Bool) (y : ℕ) → Pull → Pull
touch_start at_top y p = if at_top then record p { start_y = y; active = true } else p

abbrev moved : (y : ℕ) → Pull → Pull
moved y p =
    let dist = y - p.start_y in
    record p { dist = dist; pull = if ltb 0 dist && ltb dist 110 then some dist else p.pull }

-- touchmove
unfoldable pub touch_move : (y : ℕ) → Pull → Pull
touch_move y p = if not p.active then p else moved y p

-- touchend, and whether it refreshes.
unfoldable pub touch_end : Pull → Pull × Bool
touch_end p =
    if not p.active
    then (p, false)
    else if ltb 70 p.dist
    then (record p { active = false; pull = none; dist = 0 }, true)
    else (record p { active = false; pull = some 0; dist = 0 }, false)

-- The timer that touchend sets when it refreshes.
unfoldable pub settle : Pull → Pull
settle p = record p { pull = some 0 }

-- A finger that moves through the heights.
unfoldable pub moves : List ℕ → Pull → Pull
moves [] p = p
moves (y ∷ ys) p = moves ys (touch_move y p)

abbrev pub last_height : ℕ → List ℕ → ℕ
last_height y [] = y
last_height y (z ∷ ys) = last_height z ys

abbrev held : (start dist : ℕ) → (pull : Option ℕ) → Pull
held start dist pull = record { start_y = start; active = true; dist = dist; pull = pull }

moves-held :
    (start now : ℕ) (pull : Option ℕ) (ys : List ℕ)
    → (shown : Option ℕ) × (moves ys (held start (now - start) pull)
        ≡ held start (last_height now ys - start) shown)
unfolding moves touch_move
moves-held start now pull [] = (pull, refl)
moves-held start now pull (y ∷ ys) = moves-held start y _ ys

moves-idle : (ys : List ℕ) (p : Pull) → p.active ≡ false → moves ys p ≡ p
unfolding moves touch_move
moves-idle [] p h = refl
moves-idle (y ∷ ys) p h =
    let same : touch_move y p ≡ p = ap (λ b. if not b then p else moved y p) h in
    ap (moves ys) same ∙ moves-idle ys p h

-- After the finger has gone.
abbrev pub released : (start : ℕ) → (pull : Option ℕ) → Pull
released start pull = record { start_y = start; active = false; dist = 0; pull = pull }

far_or_not :
    (start dist : ℕ) (pull : Option ℕ)
    → touch_end (held start dist pull)
      ≡ (released start (if ltb 70 dist then none else some 0), ltb 70 dist)
unfolding touch_end
far_or_not start dist pull = ground arith

-- A pull that begins at the upper end of the page, whatever way it takes, refreshes if it ends more than 70
-- pixels below its beginning, and shows that until its timer, and does neither if not.
pub touch_end-moves-touch_start :
    (y : ℕ) (ys : List ℕ) (p : Pull)
    → p.dist ≡ 0
    → let far = ltb 70 (last_height y ys - y) in
      touch_end (moves ys (touch_start true y p)) ≡ (released y (if far then none else some 0), far)
unfolding touch_end touch_start
touch_end-moves-touch_start y ys p h =
    let begun : touch_start true y p ≡ held y (y - y) p.pull =
      ap (λ d. held y d p.pull) (h ∙ omega arith) in
    let (shown, ended) = moves-held y y p.pull ys in
    ap (λ q. touch_end (moves ys q)) begun ∙ ap touch_end ended ∙ far_or_not y _ shown

-- Where the panel hands the page another `refresh` in the middle of a pull, the pull is over: nothing is
-- refreshed, however far the finger goes on, and what the indicator showed stays there.
pub touch_end-renew : (ys : List ℕ) (p : Pull) → touch_end (moves ys (renew p)) ≡ (renew p, false)
unfolding touch_end renew
touch_end-renew ys p = ap touch_end (moves-idle ys (renew p) refl)
