-- ===== src/Panel/View.antt =====
-- What a page shows, in the order of its markup: texts and controls. Tags, classes, styles, icons and
-- the fixed explanatory texts of the markup are left out.
use remote_agent.Common.{String, Bool, List, [], ◌∷◌, ◌++◌, if◌then◌else◌}

-- `A` is what a control asks for. A button has its label and whether it is disabled, a tab its label and
-- whether it is the active one; a field has its
-- value and what a new value asks for; a switch has its position.
pub data Node (A : Type 0) : Type 0 where
  label : String → Node A
  button : String → Bool → A → Node A
  field : String → (String → A) → Node A
  tab : String → Bool → A → Node A
  switch : Bool → Bool → A → Node A

-- `cond && <>…</>`
abbrev pub when {ℓ} : {A : Type ℓ} → Bool → List A → List A
when b nodes = if b then nodes else []

module _ {A : Type 0} where
  abbrev pub one_click : Node A → List A
  one_click (button text disabled act) = if disabled then [] else act ∷ []
  one_click (tab text active act) = act ∷ []
  one_click (switch on disabled act) = if disabled then [] else act ∷ []
  one_click _ = []

  -- What a click can ask for.
  abbrev pub clicks : List (Node A) → List A
  clicks [] = []
  clicks (n ∷ ns) = one_click n ++ clicks ns
