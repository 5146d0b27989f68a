-- ===== src/Panel/OverviewView.antt =====
-- What web/src/pages/Overview.tsx shows.
use Prim.Native.String.{◌++◌ as ◌+++◌}
use remote_agent.Common.{
  ℕ, max, String, false, not, Option, none, some, or_else, List, [], ◌∷◌, ◌++◌, length, ltb, ◌==◌,
  string_eq, nat_eq, if◌then◌else◌,
}
use remote_agent.Connection.{truthy}
use remote_agent.Pairing.Texts.{strip_prefix, replace_prefix}
use remote_agent.Panel.{LocalInfo, SessionRow, Texts}
use remote_agent.Panel.Agents.{agent_name, status_label, pick_hero, more_ai}
use remote_agent.Panel.Overview.{Overview, is_local, pairing_link}
use remote_agent.Panel.SessionsPage.{quick_launch}
use remote_agent.Panel.Times.{time_ago, duration}
use remote_agent.Panel.View.{Node, label, button, field, when}

-- What the controls of the page ask for.
pub data Click : Type 0 where
  assign hash : String → Click
  copies : (text name : String) → Click
  shows_token edits_token saves_token cancels : Click
  types_token : String → Click

-- The indicator of the pull: -1 is `none`, and 0 shows nothing.
unfoldable pub pull_text : Option ℕ → Option String
pull_text none = some "刷新中…"
pull_text (some pull) =
    if pull == 0 then none else if ltb 70 pull then some "↑ 松手刷新" else some "↓ 下拉刷新"

-- `NAME[key ?? ''] ?? other`
abbrev pub named : (String → Option String) → Option String → String → String
named f key other = or_else (f (or_else key "")) other

-- The card of the session that is shown.
unfoldable pub hero_card : Texts → (now : ℕ) → List SessionRow → SessionRow → List (Node Click)
hero_card t now ss h =
    label (
        named agent_name h.agent (or_else h.agent "")
        +++ (" · " +++ named status_label h.agent_status "运行中"))
      ∷ label ("· " +++ duration t.print now h.started_at)
      ∷ label (
          "#"
          +++ (t.slice h.id 2 8
              +++ (" · "
                  +++ (t.slice h.cmd 0 60 +++ (elim (truthy h.agent_detail) [
                    | none ↦ ""
                    | some detail ↦ " · " +++ t.slice detail 0 60
                  ])))))
      ∷ label (named status_label h.agent_status "AI")
      ∷ button "查看终端" false (assign "?local=1")
      ∷ button "⌨ 接管输入" false (assign "?local=1&takeover=1")
      ∷ []
    ++ when (ltb 0 (more_ai ss)) (label ("另有 " +++ (t.print (more_ai ss) +++ " 个 AI 会话")) ∷ [])

unfoldable pub hero_part : Texts → (now : ℕ) → LocalInfo → List SessionRow → List (Node Click)
hero_part t now local ss = elim (pick_hero ss) [
  | some h ↦ hero_card t now ss h
  | none ↦
      if not (is_local local)
      then label "连接你的电脑" ∷ []
      else label "启动一个 AI 会话" ∷ quick_launch assign none
]

-- `Math.max(...)` of the starts of some sessions.
abbrev pub latest : List SessionRow → ℕ
latest [] = 0
latest (s ∷ ss) = max s.started_at (latest ss)

-- `latest || Date.now()`, which timeAgo takes for seconds.
unfoldable pub sessions_foot : Texts → (now : ℕ) → List SessionRow → String
sessions_foot t now [] = "点上方卡片一键启动"
sessions_foot t now (s ∷ ss) =
    let at = latest (s ∷ ss) in "最近启动 " +++ time_ago t.print now (if at == 0 then now else at)

-- `url.replace(/^wss?:\/\//, '')`
unfoldable pub bare_relay : String → String
bare_relay url = elim (strip_prefix "wss://" url) [
  | some rest ↦ rest
  | none ↦ replace_prefix "ws://" "" url
]

unfoldable pub relay_state : LocalInfo → String
relay_state local =
    if local.relay_online
    then "已连接"
    else elim (truthy local.relay_url) [ some url ↦ "重试中" | none ↦ "未连接" ]

unfoldable pub relay_foot : Texts → LocalInfo → String
relay_foot t local = elim (truthy local.relay_url) [
  | none ↦ "配置中继后手机可远程接入"
  | some url ↦ bare_relay url +++ (" · " +++ (t.print (or_else local.relay_viewers 0) +++ " 查看者"))
]

abbrev pub dots : String
dots = "••••••••••••"

-- The cards with numbers, of a browser that is away from its computer and of the computer itself.
unfoldable pub remote_cards : Texts → Overview → List (Node Click)
remote_cards t v =
    label "已配对设备"
    ∷ label (t.print v.paired_count)
    ∷ label (if ltb 0 v.paired_count then "设备页一键重连" else "到设备页添加")
    ∷ label "我的中继"
    ∷ label (t.print v.relay_count)
    ∷ label (if ltb 0 v.relay_count then "中继页管理" else "到中继页添加")
    ∷ label "连接指引"
    ∷ label "设备号 + 令牌"
    ∷ label "中继已记住，新设备只输这两项"
    ∷ []

unfoldable pub local_cards :
    Texts → (now : ℕ) → LocalInfo → List SessionRow → Overview → List (Node Click)
local_cards t now local ss v =
    label "设备 ID"
    ∷ label (if local.device_id == "" then "—" else local.device_id)
    ∷ button "复制" false (copies local.device_id "设备 ID")
    ∷ label "访问令牌"
    ∷ label (if v.show_token then local.access_token else dots)
    ∷ button (if v.show_token then "隐藏" else "显示") false shows_token
    ∷ button "编辑" false edits_token
    ∷ label "活跃会话"
    ∷ label (t.print (length ss))
    ∷ label (sessions_foot t now ss)
    ∷ label "中继服务"
    ∷ label (relay_state local)
    ∷ label (relay_foot t local)
    ∷ []

unfoldable pub token_editor : Overview → List (Node Click)
token_editor v = when v.editing_token (
    field v.new_token types_token
    ∷ button (if v.token_busy then "保存中…" else "保存") v.token_busy saves_token
    ∷ button "取消" false cancels
    ∷ [])

abbrev pub shown : Option String → List (Node Click)
shown text = elim (truthy text) [ none ↦ [] | some m ↦ label m ∷ [] ]

-- The box with the pairing link, which copies it.
unfoldable pub link_box : Texts → LocalInfo → List (Node Click)
link_box t local = elim (truthy (pairing_link local)) [
  | none ↦ []
  | some link ↦
      button (if ltb 72 (t.size link) then t.slice link 0 72 +++ "…" else link) false
        (copies link "配对链接")
      ∷ label "🔒 全程端到端加密，中继无法读取会话内容"
      ∷ []
]

unfoldable pub guide : Texts → LocalInfo → List (Node Click)
guide t local =
    if not (is_local local)
    then label "如何连接你的电脑" ∷ button "去设备页连接" false (hash "#/devices") ∷ []
    else label "手机如何连进来" ∷ link_box t local
      ++ (label "快捷操作"
          ∷ button "打开本机终端" false (assign "?local=1")
          ∷ button "配置中继" false (hash "#/relay")
          ∷ button "本机配对码（给手机连）" false (hash "#/devices")
          ∷ [])

-- OverviewPage
unfoldable pub overview_page :
    Texts
    → (now : ℕ) → (pull : Option ℕ) → LocalInfo
    → List SessionRow
    → Overview
    → List (Node Click)
overview_page t now pull local ss v =
    shown (pull_text pull)
    ++ (label "概览"
          ∷ (if not (is_local local)
              then button "连接远程设备" false (hash "#/devices")
              else button "打开本机终端" false (assign "?local=1"))
          ∷ hero_part t now local ss
        ++ ((if not (is_local local) then remote_cards t v else local_cards t now local ss v)
            ++ (token_editor v ++ (shown v.token_msg ++ (shown v.copied ++ guide t local)))))
