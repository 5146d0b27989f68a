-- ===== src/Pairing/Page.antt =====
-- The component of web/src/Connect.tsx: its state and its handlers over the browser's storage.
use remote_agent.Common.{
  String, Bool, true, false, not, ◌&&◌, Option, none, some, or_else, List, [], ◌∷◌, any, ◌==◌,
  string_eq, if◌then◌else◌,
}
use remote_agent.Connection.{truthy}
use remote_agent.Pairing.{Address, ClientRelay, SavedConn, Site, Store}
use remote_agent.Pairing.Relays.{
  load_client_relays, add_client_relay, remove_client_relay, get_last_relay, set_last_relay,
  normalize_client_relay,
}
use remote_agent.Pairing.Links.{load_conns, remove_conn, parse_pair_text, build_href}

pub record Page : Type 0 where
  pub paste : String
  pub relay : String
  pub token : String
  pub device : Option String
  pub error : Option String
  pub recents : List SavedConn
  pub relays : List ClientRelay
  pub selected_relay : String
  pub adding_relay : Bool
  pub switching_relay : Bool

abbrev pub is_empty {ℓ} : {A : Type ℓ} → List A → Bool
is_empty [] = true
is_empty (_ ∷ _) = false

abbrev pub has_url : Option String → List ClientRelay → Bool
has_url none list = false
has_url (some url) list = any (λ (r : ClientRelay). r.url == url) list

-- The relay that is selected first: the last one used, else the daemon's, else the first, else the
-- one that was selected.
unfoldable pub first_choice :
    (last seed : Option String) → List ClientRelay → (before : String) → String
first_choice last seed list before =
    let first : String = elim list [ [] ↦ before | r ∷ rest ↦ r.url ] in
    let seeded = if has_url (truthy seed) list then or_else seed "" else first in
    if has_url (truthy last) list then or_else last "" else seeded

module _ (site : Site) where
  -- The first render.
  unfoldable pub open_page : Store → Page
  open_page store = record {
    paste = "";
    relay = "";
    token = "";
    device = none;
    error = none;
    recents = [];
    relays = load_client_relays site store;
    selected_relay = or_else (get_last_relay site store) "";
    adding_relay = is_empty (load_client_relays site store);
    switching_relay = false;
  }

  -- The loop over the relays of the daemon.
  unfoldable pub import_relays : List ClientRelay → Store → Store
  import_relays [] store = store
  import_relays (r ∷ rs) store =
      let is_new =
        not (r.url == "") && not (has_url (some r.url) (load_client_relays site store)) in
      import_relays rs (if is_new then (add_client_relay site r.url r.name store).0 else store)

  -- The effect of the first render; `seed_relays` and `seed_active` come from the daemon.
  unfoldable pub on_first_render :
      (seed_relays : Option (List ClientRelay)) (seed_active : Option String)
      → Page × Store
      → Page × Store
  on_first_render seed_relays seed_active (page, store) =
      let store' = import_relays (or_else seed_relays []) store in
      let list = load_client_relays site store' in
      (
        record page {
          recents = load_conns site store;
          relays = list;
          selected_relay =
              first_choice (get_last_relay site store') seed_active list page.selected_relay;
          adding_relay = is_empty list;
        },
        store',
      )

  unfoldable pub on_paste : (location : Address) (text : String) → Page × Store → Page × Store
  on_paste location text (page, store) =
      let page' = record page { paste = text } in
      elim (parse_pair_text site location text) [
        | none ↦ (page', store)
        | some f ↦
            let page'' = record page' { device = some f.device; token = f.token; error = none } in
            elim (truthy f.relay) [
              | none ↦ (page'', store)
              | some r ↦
                  let store' = (add_client_relay site r none store).0 in
                  (
                    record page'' {
                      relays = load_client_relays site store';
                      relay = r;
                      adding_relay = false;
                    },
                    store',
                  )
            ]
      ]

  -- `relay.trim() ? normalizeClientRelay(relay) : null`
  unfoldable pub typed_relay : Page → Option String
  typed_relay page =
      if site.trim page.relay == "" then none else normalize_client_relay site page.relay

  -- The end of `connect`, with the relay chosen: the address that the page goes to.
  unfoldable pub go :
      Address → (device token relay : String) → Page × Store → Page × Store × Option String
  go location device token relay (page, store) =
      if relay == "" then (record page { error = some "请选择或输入中继地址" }, store, none) else (
        page,
        set_last_relay site relay store,
        some (
            build_href site location
              (record { relay = some relay; device = device; token = site.trim token })),
      )

  -- `connect`: the relay that is typed in, normalised and remembered, or the selected one.
  unfoldable pub connect : (location : Address) → Page × Store → Page × Store × Option String
  connect location (page, store) =
      let refused = record page { error = some "请先粘贴配对链接，或选择中继并输入设备号与访问令牌" } in
      elim (truthy page.device) [
        | none ↦ (refused, store, none)
        | some device ↦
            if site.trim page.token == "" then (refused, store, none) else elim (typed_relay page) [
              | none ↦ go location device page.token page.selected_relay (page, store)
              | some r ↦
                  let store' = (add_client_relay site r none store).0 in
                  go location device page.token r (
                    record page { relays = load_client_relays site store'; adding_relay = false },
                    store',
                  )
            ]
      ]

  -- The button that removes the selected relay.
  unfoldable pub on_remove_relay : Page × Store → Page × Store
  on_remove_relay (page, store) =
      let (store', rest) = remove_client_relay site page.selected_relay store in
      elim rest [
        | [] ↦ (record page { relays = []; adding_relay = true; selected_relay = "" }, store')
        | r ∷ rs ↦ (record page { relays = r ∷ rs; selected_relay = r.url }, store')
      ]

  -- The button that removes a saved connection.
  unfoldable pub on_remove_conn : (url : String) → Page × Store → Page × Store
  on_remove_conn url (page, store) =
      let store' = remove_conn site url store in
      (record page { recents = load_conns site store' }, store')

  -- The fields for the device and for the relay, and the choice among the relays.
  abbrev pub on_device : (text : String) → Page → Page
  on_device text page = record page { device = truthy (some (site.trim text)); error = none }

abbrev pub on_relay : (text : String) → Page → Page
on_relay text page = record page { relay = text; error = none }

abbrev pub on_token : (text : String) → Page → Page
on_token text page = record page { token = text }

abbrev pub on_select : (url : String) → Page → Page
on_select url page = record page { selected_relay = url; relay = ""; error = none }

abbrev pub on_new_relay : Page → Page
on_new_relay page = record page { adding_relay = true; relay = "" }

abbrev pub on_cancel : Page → Page
on_cancel page = record page { adding_relay = false; relay = "" }

abbrev pub set_switching : Bool → Page → Page
set_switching v page = record page { switching_relay = v }
