-- ===== src/Panel/Devices.antt =====
-- web/src/pages/Devices.tsx.
use Prim.Native.String.{◌++◌ as ◌+++◌}
use remote_agent.Common.{
  String, Bool, true, false, not, Option, none, some, or_else, List, [], ◌∷◌, ◌++◌, length, ltb,
  ◌==◌, string_eq, if◌then◌else◌,
}
use remote_agent.Panel.{LocalInfo, SessionRow, Texts, RelayConfig}
use remote_agent.Panel.Agents.{agent_name, status_label, current_ai}
use remote_agent.Panel.Overview.{is_local}
use remote_agent.Panel.OverviewView.{named}
use remote_agent.Panel.View.{Node, label, button}

pub record Devices : Type 0 where
  pub wizard_open : Bool
  pub connect_open : Bool

abbrev pub opened_devices : Devices
opened_devices = record { wizard_open = false; connect_open = false }

pub data Click : Type 0 where
  connects pairs : Click
  assigns : String → Click

unfoldable pub click : Click → Devices → Devices
click connects v = record v { connect_open = true }
click pairs v = record v { wizard_open = true }
click (assigns address) v = v

-- `onClose` of the wizard and of the connection dialog.
abbrev pub close_wizard : Devices → Devices
close_wizard v = record v { wizard_open = false }

abbrev pub close_connect : Devices → Devices
close_connect v = record v { connect_open = false }

unfoldable pub ai_cell : Texts → List SessionRow → List (Node Click)
ai_cell t ss = elim (current_ai ss) [
  | some ai ↦
      label (named status_label ai.agent_status "AI")
      ∷ label (
          named agent_name ai.agent (or_else ai.agent "")
          +++ (" · " +++ (t.print (length ss) +++ " 会话")))
      ∷ []
  | none ↦ label (if ltb 0 (length ss) then t.print (length ss) +++ " 个终端会话" else "—") ∷ []
]

unfoldable pub device_table : Texts → LocalInfo → List SessionRow → List (Node Click)
device_table t local ss =
    label "本机设备" ∷ label (if local.device_id == "" then "—" else local.device_id) ∷ ai_cell t ss
    ++ (label (
          if local.relay_online
          then (elim local.relay_viewers [ none ↦ "…" | some n ↦ t.print n ])
          else "—")
        ∷ label "运行中"
        ∷ button "打开终端" false (assigns "?local=1")
        ∷ [])

-- DevicesPage, below its two dialogs.
unfoldable pub devices_page : Texts → LocalInfo → List SessionRow → List (Node Click)
devices_page t local ss =
    if not (is_local local)
    then label "设备"
      ∷ label "连接你的电脑，查看并接管它的终端会话"
      ∷ label "连接设备"
      ∷ button "连接远程设备" false connects
      ∷ []
    else label "设备"
      ∷ label "本机设备状态；连接其他设备请使用对方发来的配对链接"
      ∷ button "连接远程设备" false connects
      ∷ button "本机配对码" false pairs
      ∷ device_table t local ss

-- The relays and the active one that the connection dialog is given.
unfoldable pub seeds : LocalInfo → Option (List RelayConfig) × Option String
seeds local = (if is_local local then some local.relays else none, local.active_relay)
