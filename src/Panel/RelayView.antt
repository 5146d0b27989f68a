-- ===== src/Panel/RelayView.antt =====
-- What RelayPage of web/src/pages/Relay.tsx shows.
use Prim.Native.String.{◌++◌ as ◌+++◌}
use remote_agent.Common.{
  ℕ, String, Bool, true, false, not, ◌&&◌, Option, none, some, or_else, is_some, List, [], ◌∷◌,
  ◌++◌, ltb, ◌==◌, string_eq, if◌then◌else◌,
}
use remote_agent.Connection.{truthy}
use remote_agent.Panel.{LocalInfo, RelayConfig, Texts}
use remote_agent.Panel.OverviewView.{relay_state}
use remote_agent.Panel.RelayPage.{
  RelayPage, Job, tests_latency, connects, removes, disconnects, adds, run, quick_connect,
  on_add_open, on_add_name, on_add_url,
}
use remote_agent.Panel.Times.{uptime}
use remote_agent.Panel.View.{Node, label, button, field, when}

-- What the controls ask for. `enters` is the Enter key in the field of QuickConnect, `goes` its button.
pub data Click : Type 0 where
  opens closes : Click
  runs : Job → Click
  types_name types_url types_quick : String → Click
  enters goes : Click

abbrev pub connected : LocalInfo → Bool
connected local = is_some (truthy local.relay_url)

-- Gauge: the colour, the number and the unit.
unfoldable pub gauge_color : (online : Bool) → (latency : Option ℕ) → String
gauge_color online latency = if not online then "var(--text-3)" else elim latency [
  | none ↦ "var(--accent)"
  | some ms ↦
      if ltb ms 100 then "var(--green)" else if ltb ms 250 then "var(--amber)" else "var(--red)"
]

unfoldable pub gauge : Texts → (online : Bool) → (latency : Option ℕ) → String × String
gauge t online latency =
    if online then (elim latency [ none ↦ "—" | some ms ↦ t.print ms ], "ms") else ("off", "")

unfoldable pub hero : Texts → (now : ℕ) → LocalInfo → RelayPage → List (Node Click)
hero t now local v =
    label (relay_state local)
      ∷ label (
          if connected local
          then (if local.relay_name == "" then "未命名中继" else local.relay_name)
          else "")
      ∷ label (or_else local.relay_url "连接下方列表中的中继，或添加一个新的")
      ∷ []
    ++ (when (connected local && (not (local.relay_note == "") && not local.relay_online))
          (label local.relay_note ∷ [])
        ++ (label "运行时间"
            ∷ label
                (if local.relay_online then uptime t.print now local.relay_connected_at else "—")
            ∷ label "活跃连接"
            ∷ label (
                if local.relay_online
                then (elim local.relay_viewers [ none ↦ "…" | some n ↦ t.print n ])
                else "—")
            ∷ label "延迟"
            ∷ label (elim v.latency [ none ↦ "—" | some ms ↦ t.print ms +++ " ms" ])
            ∷ label (if is_some v.latency then "到中继往返" else "点右侧测试")
            ∷ label (gauge t local.relay_online v.latency).0
            ∷ label (gauge t local.relay_online v.latency).1
            ∷ when (connected local) (
                button "测试延迟" v.busy (runs tests_latency)
                ∷ button "断开" v.busy (runs disconnects)
                ∷ [])))

-- QuickConnect: the field, whose Enter key is not disabled, and the button.
unfoldable pub quick_row : (url : String) → (busy : Bool) → List (Node Click)
quick_row url busy =
    field url types_quick ∷ button "Enter" false enters ∷ button "连接" busy goes ∷ []

abbrev pub is_active : LocalInfo → RelayConfig → Bool
is_active local r = elim local.active_relay [ none ↦ false | some url ↦ url == r.url ]

-- A row of the table.
unfoldable pub relay_row : LocalInfo → RelayPage → RelayConfig → List (Node Click)
relay_row local v r =
    label r.name
    ∷ label r.url
    ∷ label (if is_active local r then (if local.relay_online then "已连接" else "连接中") else "未连接")
    ∷ (if is_active local r
        then button "断开" v.busy (runs disconnects)
        else button "连接" v.busy (runs (connects r.url)))
    ∷ button "删除" v.busy (runs (removes r.url))
    ∷ []

abbrev pub relay_rows : LocalInfo → RelayPage → List RelayConfig → List (Node Click)
relay_rows local v [] = []
relay_rows local v (r ∷ rs) = relay_row local v r ++ relay_rows local v rs

-- The table of the relays that are saved.
unfoldable pub saved_relays : LocalInfo → RelayPage → List RelayConfig → List (Node Click)
saved_relays local v [] = label "还没有保存的中继 —— 点右上「+ 添加中继」" ∷ []
saved_relays local v (r ∷ rs) = relay_rows local v (r ∷ rs)

abbrev pub error_line : RelayPage → List (Node Click)
error_line v = elim (truthy v.error) [ none ↦ [] | some text ↦ label text ∷ [] ]

-- The dialog that adds a relay to the list.
unfoldable pub add_dialog : RelayPage → List (Node Click)
add_dialog v = when v.add_open (
    label "添加中继"
      ∷ button "" false closes
      ∷ field v.add_name types_name
      ∷ field v.add_url types_url
      ∷ error_line v
    ++ button "保存" v.busy (runs (adds v.add_name v.add_url)) ∷ [])

-- RelayPage; `quick` is what stands in the field of QuickConnect.
unfoldable pub relay_page :
    Texts → (now : ℕ) → LocalInfo → (quick : String) → RelayPage → List (Node Click)
relay_page t now local quick v =
    label "中继服务" ∷ button "+ 添加中继" false opens ∷ hero t now local v
    ++ (error_line v
        ++ (when (not (connected local)) (label "快速连接" ∷ quick_row quick v.busy)
            ++ (saved_relays local v local.relays ++ add_dialog v)))

-- What a click does to the page; `quick` is what stands in the field of QuickConnect.
unfoldable pub click : Texts → (quick : String) → Click → RelayPage → RelayPage
click t quick opens v = on_add_open true v
click t quick closes v = on_add_open false v
click t quick (runs job) v = run job v
click t quick (types_name name) v = on_add_name name v
click t quick (types_url url) v = on_add_url url v
click t quick (types_quick url) v = v
click t quick enters v = elim (quick_connect t quick) [ none ↦ v | some url ↦ run (connects url) v ]
click t quick goes v = elim (quick_connect t quick) [ none ↦ v | some url ↦ run (connects url) v ]
