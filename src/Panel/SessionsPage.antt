-- ===== src/Panel/SessionsPage.antt =====
-- web/src/pages/Sessions.tsx and web/src/pages/QuickLaunch.tsx. A button asks for the address that
-- `location.assign` is given.
use Prim.Native.String.{◌++◌ as ◌+++◌}
use remote_agent.Common.{
  ℕ, String, Bool, false, Option, none, some, List, [], ◌∷◌, ◌++◌, length, map, if◌then◌else◌,
}
use remote_agent.Connection.{truthy}
use remote_agent.Panel.{SessionRow, Texts}
use remote_agent.Panel.Agents.{agent_of}
use remote_agent.Panel.Times.{time_ago, clock}
use remote_agent.Panel.View.{Node, label, button}
use remote_agent.Terminal.View.{agent_status_text}

-- CARDS: the command, the name and the description.
abbrev pub cards : List (Option String × String × String)
cards =
    (some "codex", "Codex", "OpenAI 编码代理 · 状态实时识别")
    ∷ (some "claude", "Claude Code", "Anthropic 编码代理")
    ∷ (none, "终端", "PowerShell 普通会话")
    ∷ []

unfoldable pub card_address : Option String → String
card_address cmd = elim (truthy cmd) [ none ↦ "?local=1" | some c ↦ "?local=1" +++ ("&new=" +++ c) ]

-- QuickLaunch; `go` is what a click makes of the address.
unfoldable pub quick_launch :
    {A : Type 0} → (go : String → A) → (hint : Option String) → List (Node A)
quick_launch go hint =
    map (λ c. button (c.1 +++ (" " +++ c.2)) false (go (card_address c.0))) cards
    ++ (elim (truthy hint) [ none ↦ [] | some text ↦ label text ∷ [] ])

-- The pill of a row.
unfoldable pub row_status : SessionRow → String
row_status s = elim (truthy s.agent_status) [
  | none ↦ "运行中"
  | some status ↦ agent_status_text status
]

unfoldable pub row : Texts → (now : ℕ) → SessionRow → List (Node String)
row t now s =
    label ("#" +++ t.slice s.id 2 8)
    ∷ label (agent_of t s.cmd).0
    ∷ label (time_ago t.print now s.started_at)
    ∷ label (clock t.print now s.started_at)
    ∷ label (row_status s)
    ∷ button "打开" false "?local=1"
    ∷ []

abbrev pub rows : Texts → (now : ℕ) → List SessionRow → List (Node String)
rows t now [] = []
rows t now (s ∷ ss) = row t now s ++ rows t now ss

-- What stands in place of the table when no session runs.
unfoldable pub no_sessions : (remote : Bool) → List (Node String)
no_sessions remote =
    if remote
    then label "尚未连接设备" ∷ []
    else label "没有运行中的会话"
      ∷ quick_launch (λ address. address) (some "需要对应 CLI 已安装并登录（codex / claude）")

-- SessionsPage
unfoldable pub sessions_page :
    Texts → (now : ℕ) → (remote : Bool) → List SessionRow → List (Node String)
sessions_page t now remote ss =
    label "Sessions"
      ∷ label ("监控与恢复 · " +++ (t.print (length ss) +++ " 个运行中"))
      ∷ button "新建会话" false "?local=1"
      ∷ []
    ++ (elim ss [ [] ↦ no_sessions remote | s ∷ rest ↦ rows t now (s ∷ rest) ]
        ++ label "会话时间线与回放" ∷ [])
