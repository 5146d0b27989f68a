-- ===== src/Panel/ConnectView.antt =====
-- What web/src/Connect.tsx shows of its state, which `Pairing.Page` models.
use Prim.Native.String.{◌++◌ as ◌+++◌}
use remote_agent.Common.{
  ℕ, String, false, not, ◌&&◌, Option, none, some, or_else, is_some, List, [], ◌∷◌, ◌++◌, length,
  ltb, ◌==◌, string_eq, if◌then◌else◌,
}
use remote_agent.Connection.{truthy}
use remote_agent.Pairing.{Address, ClientRelay, SavedConn, Site}
use remote_agent.Pairing.Links.{time_ago, parse_pair_text}
use remote_agent.Pairing.Page.{Page, is_empty}
use remote_agent.Panel.{Texts}
use remote_agent.Panel.OverviewView.{bare_relay}
use remote_agent.Panel.View.{Node, label, button, field, when}

pub data Click : Type 0 where
  assigns removes_conn selects : String → Click
  switches unswitches news cancels removes_relay connects leaves : Click
  types_relay types_device types_token pastes : String → Click

unfoldable pub recent : Texts → (now : ℕ) → SavedConn → List (Node Click)
recent t now c =
    button (if ltb 12 (t.size c.device_id) then t.slice c.device_id 0 8 else c.device_id) false
      (assigns c.url)
    ∷ label c.relay_host
    ∷ label (time_ago t.print now c.saved_at)
    ∷ button "连接" false (assigns c.url)
    ∷ button "×" false (removes_conn c.url)
    ∷ []

abbrev pub recents : Texts → (now : ℕ) → List SavedConn → List (Node Click)
recents t now [] = []
recents t now (c ∷ cs) = recent t now c ++ recents t now cs

-- `relays.find((r) => r.url === selectedRelay)?.name`
abbrev pub name_of : String → List ClientRelay → Option String
name_of url [] = none
name_of url (r ∷ rs) = let rest = name_of url rs in if r.url == url then r.name else rest

-- The relay that is used, in a line.
unfoldable pub relay_summary : Page → List (Node Click)
relay_summary page =
    label (
      "经「"
      +++ (or_else (truthy (name_of page.selected_relay page.relays))
            (bare_relay page.selected_relay)
          +++ "」连接"))
    ∷ button (if ltb 1 (length page.relays) then "切换" else "更换") false switches
    ∷ []

-- An option of the choice among the relays.
unfoldable pub relay_option : ClientRelay → String
relay_option r = elim (truthy r.name) [
  | none ↦ bare_relay r.url
  | some name ↦ name +++ (" · " +++ bare_relay r.url)
]

abbrev pub relay_options : List ClientRelay → List (Node Click)
relay_options [] = []
relay_options (r ∷ rs) = label (relay_option r) ∷ relay_options rs

unfoldable pub relay_pick : Page → List (Node Click)
relay_pick page =
    field page.selected_relay selects ∷ relay_options page.relays
    ++ (button "＋" false news
          ∷ when (ltb 1 (length page.relays)) (button "×" false removes_relay ∷ [])
        ++ button "✓" false unswitches ∷ [])

unfoldable pub relay_field : Page → List (Node Click)
relay_field page =
    field page.relay types_relay
    ∷ when (not (is_empty page.relays)) (button "取消" false cancels ∷ [])

-- The line, the choice or the field.
unfoldable pub relay_part : Page → List (Node Click)
relay_part page =
    if not (is_empty page.relays) && (not page.adding_relay && not page.switching_relay)
    then relay_summary page
    else if not (is_empty page.relays) && not page.adding_relay
    then relay_pick page
    else relay_field page

module _ (site : Site) where
  -- Whether a pasted link is understood.
  unfoldable pub parse_hint : Address → Page → List (Node Click)
  parse_hint location page = when (not (site.trim page.paste == "")) (
      label (
        if is_some (parse_pair_text site location page.paste)
        then "✓ 已识别，中继/设备/令牌已自动填入"
        else "未识别出 device/token，请检查链接")
      ∷ [])

  -- Connect
  unfoldable pub connect_page : Texts → (now : ℕ) → Address → Page → List (Node Click)
  connect_page t now location page =
      label "连接远程设备"
        ∷ when (not (is_empty page.recents)) (label "已配对设备" ∷ recents t now page.recents)
      ++ (label "添加新设备" ∷ relay_part page
          ++ (field (or_else page.device "") types_device
                ∷ field page.token types_token
                ∷ field page.paste pastes
                ∷ parse_hint location page
              ++ ((elim (truthy page.error) [ none ↦ [] | some text ↦ label text ∷ [] ])
                  ++ (button "连接" false connects ∷ []))))
