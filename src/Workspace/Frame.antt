-- ===== src/Workspace/Frame.antt =====
-- What web/src/TerminalApp.tsx shows round the terminals: the side bar, the top bar, the banner, the tabs,
-- the bar of keys and what stands over a terminal.
use Prim.Native.String.{◌++◌ as ◌+++◌}
use remote_agent.Common.{
  ℕ, String, Bool, false, not, Option, none, some, List, [], ◌∷◌, ◌++◌, ltb, ◌==◌, string_eq,
  if◌then◌else◌,
}
use remote_agent.Pairing.Target.{Target}
use remote_agent.Panel.View.{Node, label, button, tab, when}
use remote_agent.Terminal.{App}
use remote_agent.Terminal.View

-- The buttons of the component, and what does not concern its handlers: the way back to the panel, the
-- dialog for another device, and the copy of the pairing link.
pub data Click : Type 0 where
  presses : View.Button → Click
  leaves adds copies : Click

-- `d.deviceId.length > 12 ? d.deviceId.slice(0, 8) : d.deviceId`
abbrev pub short_id : (size : String → ℕ) → (slice : String → ℕ → ℕ → String) → String → String
short_id size slice id = if ltb 12 (size id) then slice id 0 8 else id

module _ (size : String → ℕ) (slice : String → ℕ → ℕ → String) (in_tauri : Bool) (t : Target) where
  abbrev is_relay : Bool
  is_relay = t.mode == "relay"

  unfoldable pub side_bar : App → List (Node Click)
  side_bar a =
      label "RemoteAgent"
        ∷ label "v0.1 · AI 终端遥控"
        ∷ when in_tauri (button "← 返回面板" false leaves ∷ [])
      ++ (label "我的设备"
          ∷ label "本机设备"
          ∷ label "已连接"
          ∷ label (if a.device_online then "在线" else "离线")
          ∷ label (short_id size slice t.hello.device_id)
          ∷ button "添加新设备" false adds
          ∷ label (if is_relay then "中继转发 · 端到端加密" else "本地直连 · 环回地址")
          ∷ [])

  unfoldable pub top_bar : App → List (Node Click)
  top_bar a =
      label "本机设备"
        ∷ label (View.status_badge a).1
        ∷ label (if is_relay then "中继连接 · 端到端加密 · 中继不可读" else "本地直连 · 127.0.0.1")
        ∷ when is_relay (button "复制配对链接" false copies ∷ [])
      ++ button "重新连接" (not (View.is_enabled View.reload a)) (presses View.reload) ∷ []

  unfoldable pub banner_part : (print : ℕ → String) → App → List (Node Click)
  banner_part print a = elim (View.banner a) [
    | none ↦ []
    | some (text, attempt) ↦
        label (elim attempt [ none ↦ text | some n ↦ text +++ ("（第 " +++ (print n +++ " 次尝试）")) ])
        ∷ button "立即重连" false (presses View.retry)
        ∷ []
  ]

  -- A tab, and the button that ends its session.
  abbrev pub tab_nodes : List View.Tab → List (Node Click)
  tab_nodes [] = []
  tab_nodes (s ∷ ss) =
      tab s.label s.is_shown (presses (View.tab_of s.id))
      ∷ button "关闭会话" false (presses (View.tab_close s.id))
      ∷ tab_nodes ss

  unfoldable pub tab_bar : App → List (Node Click)
  tab_bar a =
      tab_nodes (View.tabs slice a)
      ++ (button "新建会话" (not (View.is_enabled View.tab_new a)) (presses View.tab_new)
            ∷ (elim (View.agent_pill a) [ none ↦ [] | some text ↦ label text ∷ [] ])
          ++ (button (if a.takeover then "⌨ 接管中" else "👁 观察中") false (presses View.mode_pill)
              ∷ button "⏸ 暂停" (not (View.is_enabled View.pause a)) (presses View.pause)
              ∷ []))

  unfoldable pub over_terminal : App → List (Node Click)
  over_terminal a =
      when (View.shows_empty a) (
        label "还没有会话"
        ∷ button "新建会话" (not (View.is_enabled View.empty_new a)) (presses View.empty_new)
        ∷ [])
      ++ when (View.shows_ended a)
          (label "会话已结束" ∷ button "新建会话" false (presses View.ended_new) ∷ [])

  -- The bar of a touch screen.
  unfoldable pub mobile_bar : (is_touch : Bool) → App → List (Node Click)
  mobile_bar is_touch a = when is_touch (
      button (if a.takeover then "⌨ 接管" else "👁 观察") false (presses View.bar_mode)
      ∷ button "⏸" false (presses View.bar_pause)
      ∷ button "⎋" false (presses View.bar_escape)
      ∷ button "⇥" false (presses View.bar_tab)
      ∷ button "↑" false (presses View.bar_up)
      ∷ button "↓" false (presses View.bar_down)
      ∷ button "A－" false (presses View.bar_smaller)
      ∷ button "A＋" false (presses View.bar_larger)
      ∷ button (if a.takeover then "输入命令，回车发送" else "点此接管后输入") false (presses View.bar_input)
      ∷ [])

  unfoldable pub workspace_page :
      (print : ℕ → String) → (is_touch : Bool) → App → (toast : Option String) → List (Node Click)
  workspace_page print is_touch a toast =
      side_bar a
      ++ (top_bar a
          ++ (banner_part print a
              ++ (tab_bar a
                  ++ (over_terminal a
                      ++ (mobile_bar is_touch a
                          ++ (elim toast [ none ↦ [] | some text ↦ label text ∷ [] ]))))))
