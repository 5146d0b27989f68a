-- ===== src/Panel/Poll.antt =====
-- web/src/lib/usePoll.ts. Each run of a poll is a request that is answered some time later, or fails.
pub mod Restarts
mod Examples
use remote_agent.Common.{
  ℕ, suc, Bool, false, Option, none, some, List, [], ◌∷◌, ◌==◌, nat_eq, if◌then◌else◌,
}
use remote_agent.Common.Maps.{lookup, remove}

-- The state of the hook: `effect` numbers the runs of its effect, of which the last is alive; `waiting` has
-- what each unanswered call belongs to, the effect that made it or `refresh`.
pub data Caller : Type 0 where
  by_effect : ℕ → Caller
  by_refresh : Caller

pub record Poll {ℓ} (A : Type ℓ) : Type ℓ where
  pub data_ : A
  pub effect : Option ℕ
  pub effects : ℕ
  pub calls : ℕ
  pub waiting : List (ℕ × Caller)

abbrev pub is_alive : Option ℕ → ℕ → Bool
is_alive none n = false
is_alive (some m) n = m == n

module _ {ℓ} {A : Type ℓ} where
  unfoldable pub initial : A → Poll A
  initial a = record { data_ = a; effect = none; effects = 0; calls = 0; waiting = [] }

  -- `fnRef.current()`, with whom its answer goes to.
  unfoldable pub call : Caller → Poll A → Poll A
  call caller p = record p { calls = suc p.calls; waiting = (p.calls, caller) ∷ p.waiting }

  -- The effect begins with a run.
  unfoldable pub begin : Poll A → Poll A
  begin p =
      call (by_effect p.effects) (record p { effect = some p.effects; effects = suc p.effects })

  -- The effect ends, for good or because `ms` or `restartKey` has changed.
  unfoldable pub end : Poll A → Poll A
  end p = record p { effect = none }

  -- The interval, which an ended effect has cleared.
  unfoldable pub tick : Poll A → Poll A
  tick p = elim p.effect [ none ↦ p | some n ↦ call (by_effect n) p ]

  unfoldable pub refresh : Poll A → Poll A
  refresh p = call by_refresh p

  -- A call is answered: an effect that has ended takes nothing.
  unfoldable pub answer : ℕ → A → Poll A → Poll A
  answer id a p =
      let p' = record p { waiting = remove id p.waiting } in
      elim (lookup id p.waiting) [
        | none ↦ p
        | some caller ↦ elim caller [
          | by_refresh ↦ record p' { data_ = a }
          | by_effect n ↦ if is_alive p.effect n then record p' { data_ = a } else p'
        ]
      ]

  -- A call fails, which nobody is told.
  unfoldable pub fail : ℕ → Poll A → Poll A
  fail id p = record p { waiting = remove id p.waiting }
