-- ===== src/Pairing/Links.antt =====
-- web/src/Connect.tsx, above its component: saved connections and pairing links.
use Prim.Native.String.{◌++◌ as ◌+++◌}
use remote_agent.Common.{
  ℕ, ◌-◌, ◌/◌, String, not, Option, none, some, or_else, List, [], ◌∷◌, ◌++◌, take, keep, ltb, ◌==◌,
  string_eq, if◌then◌else◌,
}
use remote_agent.Common.Maps.{lookup}
use remote_agent.Connection.{truthy}
use remote_agent.Pairing.{Address, SavedConn, Site, Store}
use remote_agent.Pairing.Relays.{normalize_client_relay}
use remote_agent.Pairing.Target.{params_of, own_ws}

pub record PairFields : Type 0 where
  pub relay : Option String
  pub device : String
  pub token : String

abbrev pub max_saved : ℕ
max_saved = 8

abbrev pub other_conns : String → List SavedConn → List SavedConn
other_conns url list = keep (λ (c : SavedConn). not (c.url == url)) list

-- timeAgo, with the digits that the browser prints; `now` is Date.now().
unfoldable pub time_ago : (print : ℕ → String) (now ts : ℕ) → String
time_ago print now ts =
    let s = (now - ts) / 1000 in
    if ltb s 60
    then "刚刚"
    else if ltb s 3600
    then print (s / 60) +++ " 分钟前"
    else if ltb s 86400
    then print (s / 3600) +++ " 小时前"
    else print (s / 86400) +++ " 天前"

-- The parameters that `buildHref` sets.
unfoldable pub pair_params : PairFields → List (String × String)
pair_params f =
    (elim (truthy f.relay) [ none ↦ [] | some r ↦ ("relay", r) ∷ [] ])
    ++ ("device", f.device) ∷ ("token", f.token) ∷ []

module _ (site : Site) where
  unfoldable pub load_conns : Store → List SavedConn
  load_conns store = or_else (site.read_conns (or_else store.conns "[]")) []

  unfoldable pub save_conn : SavedConn → Store → Store
  save_conn c store =
      let list = c ∷ other_conns c.url (load_conns store) in
      record store { conns = some (site.write_conns (take max_saved list)) }

  unfoldable pub remove_conn : (url : String) → Store → Store
  remove_conn url store = record store {
    conns = some (site.write_conns (other_conns url (load_conns store)));
  }

  -- parsePairText; `location` is the page's address.
  unfoldable pub parse_pair_text : (location : Address) (text : String) → Option PairFields
  parse_pair_text location text = elim (site.parse_url (site.trim text)) [
    | none ↦ none
    | some u ↦
        let q = params_of site u in
        elim (truthy (lookup "device" q)) [
          | none ↦ none
          | some device ↦ elim (truthy (lookup "token" q)) [
            | none ↦ none
            | some token ↦ some (record {
              relay = if u.origin == location.origin then none else some (own_ws u);
              device = device;
              token = token;
            })
          ]
        ]
  ]

  -- normalizeRelay, a second copy of normalizeClientRelay.
  abbrev pub normalize_relay : (input : String) → Option String
  normalize_relay input = normalize_client_relay site input

  unfoldable pub build_href : (location : Address) → PairFields → String
  build_href location f =
      location.origin +++ (location.pathname +++ ("#" +++ site.write_params (pair_params f)))
