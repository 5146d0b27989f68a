-- ===== src/Panel/Wizard.antt =====
-- web/src/pages/AddDeviceWizard.tsx: the ways to pair another device with this computer.
use Prim.Native.String.{◌++◌ as ◌+++◌}
use remote_agent.Common.{
  String, Bool, true, false, not, Option, none, some, or_else, is_some, List, [], ◌∷◌, ◌++◌, map,
  ◌==◌, string_eq, if◌then◌else◌,
}
use remote_agent.Connection.{truthy}
use remote_agent.Panel.{LocalInfo}
use remote_agent.Panel.Overview.{relay_web}
use remote_agent.Panel.OverviewView.{dots}
use remote_agent.Panel.View.{Node, label, button, tab}

pub data TabId : Type 0 where
  qr code ssh : TabId

pub record Wizard : Type 0 where
  pub tab_id : TabId
  pub qr_data : Option String
  pub copied : Option String

abbrev pub opened_wizard : Wizard
opened_wizard = record { tab_id = qr; qr_data = none; copied = none }

abbrev pub tab_text : TabId → String
tab_text qr = "二维码配对"
tab_text code = "粘贴配对码"
tab_text ssh = "SSH 命令"

-- pairUrl
unfoldable pub pair_url : LocalInfo → Option String
pair_url local = elim (relay_web local) [
  | none ↦ none
  | some web ↦
      if local.device_id == ""
      then none
      else some (web +++ ("#device=" +++ (local.device_id +++ ("&token=" +++ local.access_token))))
]

abbrev pub is_qr : TabId → Bool
is_qr qr = true
is_qr _ = false

-- The effect on the tab, the link and the image: the link that is drawn, if one is.
unfoldable pub draws : LocalInfo → Wizard → Option String
draws local w =
    if is_qr w.tab_id
    then (elim (truthy w.qr_data) [ none ↦ truthy (pair_url local) | some image ↦ none ])
    else none

-- The end of a drawing: the image, or none where it fails.
unfoldable pub drawn : (image : Option String) → Wizard → Wizard
drawn image w = record w { qr_data = image }

-- copy, once copyText has an outcome, and the timer behind it.
unfoldable pub copied : (name : String) → (ok : Bool) → Wizard → Wizard
copied name ok w = record w { copied = some (if ok then name +++ "已复制" else name +++ "复制失败") }

unfoldable pub copied_over : Wizard → Wizard
copied_over w = record w { copied = none }

abbrev pub pick_tab : TabId → Wizard → Wizard
pick_tab t w = record w { tab_id = t }

pub data Click : Type 0 where
  leaves goes_to_relay : Click
  picks : TabId → Click
  copies : (text name : String) → Click
  does_nothing : Click

abbrev pub copied_line : Wizard → List (Node Click)
copied_line w = elim (truthy w.copied) [ none ↦ [] | some text ↦ label text ∷ [] ]

-- The image is shown by its data address.
unfoldable pub qr_part : LocalInfo → Wizard → List (Node Click)
qr_part local w =
    label (or_else (truthy w.qr_data) "生成中…")
    ∷ label "扫码添加这台电脑"
    ∷ label ("手机浏览器打开「" +++ (or_else (relay_web local) "" +++ "」，或直接扫描左边的二维码，"))
    ∷ label "设备号"
    ∷ label local.device_id
    ∷ button "复制" false (copies local.device_id "设备号")
    ∷ label "访问令牌"
    ∷ label dots
    ∷ button "复制" false (copies local.access_token "访问令牌")
    ∷ label "短配对码"
    ∷ label "RA-····-····"
    ∷ label "即将支持"
    ∷ copied_line w

unfoldable pub code_part : LocalInfo → Wizard → List (Node Click)
code_part local w =
    label "把配对信息发给手机"
    ∷ label (or_else (pair_url local) "")
    ∷ button "复制配对链接" false
        (elim (truthy (pair_url local)) [ none ↦ does_nothing | some link ↦ copies link "配对链接" ])
    ∷ button "只复制令牌" false (copies local.access_token "访问令牌")
    ∷ copied_line w

unfoldable pub ssh_part : LocalInfo → List (Node Click)
ssh_part local =
    label "在被控电脑上安装 daemon"
    ∷ label ("remoteagent-daemon --relay " +++ or_else local.relay_url "null")
    ∷ []

unfoldable pub body : LocalInfo → Wizard → List (Node Click)
body local w =
    if not (is_some (truthy local.relay_url))
    then label "需要先连接中继服务才能生成配对信息。" ∷ button "中继服务" false goes_to_relay ∷ []
    else elim w.tab_id [ qr ↦ qr_part local w | code ↦ code_part local w | ssh ↦ ssh_part local ]

-- AddDeviceWizard
unfoldable pub wizard : LocalInfo → Wizard → List (Node Click)
wizard local w =
    button "取消" false leaves
      ∷ label "1 选择类型"
      ∷ label "2 设备配对"
      ∷ label "3 完成"
      ∷ map (λ t. tab (tab_text t) (tab_text w.tab_id == tab_text t) (picks t))
          (qr ∷ code ∷ ssh ∷ [])
    ++ (body local w
        ++ (label "其他添加方式"
            ∷ button "SSH 命令行" false (picks ssh)
            ∷ button "粘贴配对码" false (picks code)
            ∷ button "二维码" false (picks qr)
            ∷ []))
