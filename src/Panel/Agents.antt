-- ===== src/Panel/Agents.antt =====
-- The agents of sessions: agentOf of web/src/pages/Sessions.tsx, and the names and the choice of the
-- session that web/src/pages/Overview.tsx and web/src/pages/Devices.tsx show.
use remote_agent.Common.{
  ℕ, String, Bool, true, not, ◌&&◌, ◌||◌, Option, none, some, or_else, is_some, List, [], ◌∷◌,
  length, keep, ltb, ◌==◌, nat_eq, string_eq, if◌then◌else◌,
}
use remote_agent.Connection.{truthy}
use remote_agent.Panel.{SessionRow, Texts}

-- agentOf: the label and the class of its pill.
unfoldable pub agent_of : Texts → (cmd : String) → String × String
agent_of t cmd =
    let c = t.lower cmd in
    if t.includes c "claude"
    then ("Claude Code", "agent-cc")
    else if t.includes c "aider"
    then ("Aider", "agent-aider")
    else if t.includes c "codex"
    then ("Codex", "agent-codex")
    else ("终端", "agent-term")

-- AGENT_NAME and STATUS_LABEL; a key that neither has is given back as `none`.
unfoldable pub agent_name : String → Option String
agent_name agent =
    if agent == "codex"
    then some "Codex"
    else if agent == "claude"
    then some "Claude Code"
    else none

unfoldable pub status_label : String → Option String
status_label status =
    if status == "starting"
    then some "启动中"
    else if status == "working"
    then some "思考中"
    else if status == "error"
    then some "出错"
    else if status == "finished"
    then some "已完成"
    else none

-- `rank[status] ?? 9`
unfoldable pub rank : String → ℕ
rank status =
    if status == "working"
    then 0
    else if status == "starting"
    then 1
    else if status == "error"
    then 2
    else if status == "finished"
    then 3
    else 9

-- `s.agent` as a condition.
abbrev pub has_agent : SessionRow → Bool
has_agent s = is_some (truthy s.agent)

-- The comparator is negative: a lower rank, or the same one and a later start.
abbrev pub comes_before : SessionRow → SessionRow → Bool
comes_before a b =
    let ra = rank (or_else a.agent_status "") in
    let rb = rank (or_else b.agent_status "") in
    ltb ra rb || ra == rb && ltb b.started_at a.started_at

-- Array.prototype.sort, which is stable: an element goes in front of those that do not come before it.
unfoldable pub place : SessionRow → List SessionRow → List SessionRow
place s [] = s ∷ []
place s (t ∷ ts) = let rest = place s ts in if comes_before t s then t ∷ rest else s ∷ t ∷ ts

unfoldable pub sort : List SessionRow → List SessionRow
sort [] = []
sort (s ∷ ss) = place s (sort ss)

abbrev pub first : List SessionRow → Option SessionRow
first [] = none
first (s ∷ ss) = some s

-- pickHero
unfoldable pub pick_hero : List SessionRow → Option SessionRow
pick_hero ss = elim (keep has_agent ss) [ [] ↦ none | s ∷ rest ↦ first (sort (s ∷ rest)) ]

-- `ai` of the device page.
unfoldable pub current_ai : List SessionRow → Option SessionRow
current_ai ss = first (sort (keep has_agent ss))

-- `s.id !== hero?.id`
abbrev pub is_other : Option SessionRow → SessionRow → Bool
is_other none s = true
is_other (some hero) s = not (s.id == hero.id)

-- moreAi
unfoldable pub more_ai : List SessionRow → ℕ
more_ai ss = length (keep (λ s. has_agent s && is_other (pick_hero ss) s) ss)
