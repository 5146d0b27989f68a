-- ===== src/Panel/SettingsView.antt =====
-- What web/src/pages/Settings.tsx shows.
use Prim.Native.String.{◌++◌ as ◌+++◌}
use remote_agent.Common.{
  ℕ, String, Bool, true, false, not, ◌&&◌, ◌||◌, Option, some, or_else, List, [], ◌∷◌, ◌++◌, map,
  ◌==◌, string_eq, if◌then◌else◌,
}
use remote_agent.Browser.Notify.{Desk, Permission, denied, is_granted, notify_supported}
use remote_agent.Browser.Theme.{Theme, dark, light, system, theme_text}
use remote_agent.Panel.Settings.{Settings, Disk, Cat, general, appearance, ai, terminal, about}
use remote_agent.Panel.View.{Node, label, button, field, tab, switch, when}

pub data Click : Type 0 where
  picks : Cat → Click
  picks_theme : Theme → Click
  notifies autostarts helps : Click
  sizes scrolls : String → Click

-- CATS
abbrev pub cat_text : Cat → String
cat_text general = "常规"
cat_text appearance = "外观"
cat_text ai = "AI 助手"
cat_text terminal = "终端"
cat_text about = "关于"

abbrev pub cats : List Cat
cats = general ∷ appearance ∷ ai ∷ terminal ∷ about ∷ []

abbrev pub is_denied : Option Permission → Bool
is_denied (some denied) = true
is_denied _ = false

unfoldable pub notify_text : Desk → (perm : Option Permission) → String
notify_text desk perm =
    if notify_supported desk
    then (if is_denied perm
        then "浏览器已拒绝通知权限 —— 在浏览器站点设置里允许后重开开关"
        else "AI 任务完成 / 出错、会话退出时推送（应用在后台时才打扰）")
    else "当前环境不支持系统通知"

-- `has_help` says that the page was given `onHelp`.
unfoldable pub general_part : (has_help : Bool) → Settings × Disk → List (Node Click)
general_part has_help (v, d) =
    label "常规"
    ∷ label "开机自启"
    ∷ switch v.autostart v.autostart_busy autostarts
    ∷ label "桌面通知"
    ∷ label (notify_text d.desk v.notify_perm)
    ∷ switch (v.notify_on && is_granted v.notify_perm)
        (not (notify_supported d.desk) || is_denied v.notify_perm) notifies
    ∷ when has_help (label "帮助与排障" ∷ button "打开" false helps ∷ [])

abbrev pub theme_label : Theme → String
theme_label dark = "深色"
theme_label light = "浅色"
theme_label system = "跟随系统"

unfoldable pub appearance_part : Settings × Disk → List (Node Click)
appearance_part (v, d) =
    label "外观"
    ∷ label "主题"
    ∷ map (λ t. tab (theme_label t) (theme_text v.theme == theme_text t) (picks_theme t))
        (dark ∷ light ∷ system ∷ [])

unfoldable pub ai_part : List (Node Click)
ai_part =
    label "AI 助手"
    ∷ label "会话识别"
    ∷ label "M7 里程碑"
    ∷ label "Claude Code"
    ∷ label "未检测"
    ∷ label "Aider"
    ∷ label "未检测"
    ∷ label "Codex"
    ∷ label "未检测"
    ∷ []

-- The slider from 12 to 18, and the choice of the number of lines.
unfoldable pub terminal_part : (print : ℕ → String) → Settings × Disk → List (Node Click)
terminal_part print (v, d) =
    label "终端"
    ∷ label "字号"
    ∷ label ("当前 " +++ (print v.font_size +++ "px —— 新开的终端标签生效"))
    ∷ field (print v.font_size) sizes
    ∷ label "字体"
    ∷ label "JetBrains Mono / Cascadia Mono / Consolas"
    ∷ label "内置"
    ∷ label "回滚行数"
    ∷ field (or_else d.scrollback "5000") scrolls
    ∷ []

unfoldable pub about_part : List (Node Click)
about_part = label "关于" ∷ label "版本" ∷ label "RemoteAgent v0.1" ∷ []

unfoldable pub part :
    (print : ℕ → String) → (has_help : Bool) → Cat → Settings × Disk → List (Node Click)
part print has_help general s = general_part has_help s
part print has_help appearance s = appearance_part s
part print has_help ai s = ai_part
part print has_help terminal s = terminal_part print s
part print has_help about s = about_part

-- SettingsPage
unfoldable pub settings_page :
    (print : ℕ → String) → (has_help : Bool) → Settings × Disk → List (Node Click)
settings_page print has_help s =
    label "设置"
      ∷ label "本机 daemon 的身份与偏好"
      ∷ map (λ c. tab (cat_text c) (cat_text s.0.cat == cat_text c) (picks c)) cats
    ++ part print has_help s.0.cat s
