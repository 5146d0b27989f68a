-- ===== src/Panel/Poll/Examples.antt =====
-- A poll that begins anew while a call of its first effect is not answered.
use remote_agent.Common.{ℕ, ◌≡◌, refl, some, nat_eq}
use remote_agent.Common.Maps.{lookup, remove}
use remote_agent.Panel.Poll.{Poll, by_effect, initial, call, begin, end, tick, refresh, answer}
use remote_agent.Panel.Poll.Restarts.{
  Life, begins, ends, refreshes, ticks, answers, start, next, move, answer-restarted,
}

abbrev polling : Poll ℕ
polling = move ticks (move begins (initial 0))

polling-Life : Life (initial 0) polling
polling-Life = next ticks (next begins start)

first_waits : lookup 0 polling.waiting ≡ some (by_effect 0)
unfolding move begin call initial tick lookup
first_waits = refl

abbrev restarted : Poll ℕ
restarted = move (answers 2 7) (begin (end polling))

restarted_shows : restarted.data_ ≡ 7
unfolding move begin end call initial tick lookup answer
restarted_shows = refl

-- The late answer 5 does not replace the 7.
answer-restarted_example : (answer 0 5 restarted).data_ ≡ restarted.data_
answer-restarted_example =
    answer-restarted 0 polling-Life 0 0 5 first_waits (next (answers 2 7) start)

-- An answer that comes late replaces a newer one where both are of one effect, or the late one of a
-- `refresh`.
tick_replaces : ◌≡◌ {A = ℕ} (move (answers 0 5) (move (answers 1 7) polling)).data_ 5
unfolding move begin call initial tick lookup answer remove
tick_replaces = refl

abbrev refreshed : Poll ℕ
refreshed = move begins (move ends (move refreshes (move begins (initial 0))))

refresh_replaces : ◌≡◌ {A = ℕ} (move (answers 1 5) (move (answers 2 7) refreshed)).data_ 5
unfolding move begin end call initial refresh lookup answer remove
refresh_replaces = refl
