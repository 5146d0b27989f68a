-- ===== src/Panel/ClientRelays.antt =====
-- ClientRelayManager of web/src/pages/Relay.tsx: the relays that a browser away from its computer remembers.
use Prim.Native.String.{◌++◌ as ◌+++◌}
use remote_agent.Common.{
  ℕ, String, false, Option, none, some, or_else, List, [], ◌∷◌, ◌++◌, string_eq,
}
use remote_agent.Common.Maps.{lookup, insert}
use remote_agent.Connection.{truthy}
use remote_agent.Pairing.{ClientRelay, Site, Store}
use remote_agent.Pairing.Relays.{
  load_client_relays, add_client_relay, remove_client_relay, normalize_client_relay,
}
use remote_agent.Pairing.Texts.{replace_prefix, drop_suffix}
use remote_agent.Panel.{Texts}
use remote_agent.Panel.OverviewView.{bare_relay}
use remote_agent.Panel.View.{Node, label, button, field}

-- A relay's latency: being tested, in milliseconds, or not reached.
pub data Latency : Type 0 where
  testing unreached : Latency
  reached : ℕ → Latency

pub record Manager : Type 0 where
  pub relays : List ClientRelay
  pub url : String
  pub name : String
  pub latencies : List (String × Latency)

module _ (site : Site) where
  unfoldable pub open_manager : Store → Manager
  open_manager store = record {
    relays = load_client_relays site store;
    url = "";
    name = "";
    latencies = [];
  }

  -- add
  unfoldable pub add : Manager × Store → Manager × Store
  add (m, store) = elim (normalize_client_relay site m.url) [
    | none ↦ (m, store)
    | some u ↦
        let (store', list) = add_client_relay site u (some m.name) store in
        (record m { relays = list; url = ""; name = "" }, store')
  ]

  -- The button that removes a relay.
  unfoldable pub remove : (url : String) → Manager × Store → Manager × Store
  remove url (m, store) =
      let (store', list) = remove_client_relay site url store in
      (record m { relays = list }, store')

abbrev pub set_latency : String → Latency → Manager → Manager
set_latency url l m = record m { latencies = insert url l m.latencies }

-- test, up to its request: the address that is asked for.
unfoldable pub test : (url : String) → Manager → Manager × String
test url m = (
  set_latency url testing m,
  drop_suffix "/ws" (replace_prefix "ws://" "http://" (replace_prefix "wss://" "https://" url))
      +++ "/health",
)

-- Its end: `none` is an exception or a response that is not ok.
unfoldable pub tested : (url : String) → (took : Option ℕ) → Manager → Manager
tested url took m = set_latency url (elim took [ none ↦ unreached | some ms ↦ reached ms ]) m

pub data Click : Type 0 where
  types_url types_name : String → Click
  adds : Click
  tests removes : (url : String) → Click

unfoldable pub latency_node : Texts → Manager → String → Node Click
latency_node t m url = elim (lookup url m.latencies) [
  | none ↦ button "测试" false (tests url)
  | some l ↦ elim l [
    | testing ↦ label "…"
    | unreached ↦ label "不通"
    | reached ms ↦ label (t.print ms +++ " ms")
  ]
]

unfoldable pub manager_row : Texts → Manager → ClientRelay → List (Node Click)
manager_row t m r =
    label (or_else (truthy r.name) "未命名")
    ∷ label (bare_relay r.url)
    ∷ latency_node t m r.url
    ∷ button "删除" false (removes r.url)
    ∷ []

abbrev pub manager_rows : Texts → Manager → List ClientRelay → List (Node Click)
manager_rows t m [] = []
manager_rows t m (r ∷ rs) = manager_row t m r ++ manager_rows t m rs

-- What it shows.
unfoldable pub manager_page : Texts → Manager → List (Node Click)
manager_page t m =
    label "中继服务"
    ∷ label "添加中继"
    ∷ field m.url types_url
    ∷ field m.name types_name
    ∷ button "添加" false adds
    ∷ manager_rows t m m.relays
