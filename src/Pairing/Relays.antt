-- ===== src/Pairing/Relays.antt =====
-- web/src/lib/relays.ts: the relays that the client remembers.
use Prim.Native.String.{◌++◌ as ◌+++◌}
use remote_agent.Common.{
  String, not, ◌||◌, Option, none, some, or_else, List, [], ◌∷◌, take, keep, ◌==◌, string_eq,
  if◌then◌else◌,
}
use remote_agent.Connection.{truthy}
use remote_agent.Pairing.{ClientRelay, Entry, relay, junk, Site, Store}
use remote_agent.Pairing.Texts.{starts, ends}

-- The filter of `loadClientRelays`.
unfoldable pub proper : List Entry → List ClientRelay
proper [] = []
proper (relay r ∷ entries) = r ∷ proper entries
proper (junk ∷ entries) = proper entries

abbrev pub without : String → List ClientRelay → List ClientRelay
without url list = keep (λ (r : ClientRelay). not (r.url == url)) list

module _ (site : Site) where
  unfoldable pub load_client_relays : Store → List ClientRelay
  load_client_relays store = elim (site.read_relays (or_else store.relays "[]")) [
    | none ↦ []
    | some entries ↦ proper entries
  ]

  unfoldable pub persist : List ClientRelay → Store → Store
  persist list store = record store { relays = some (site.write_relays (take 8 list)) }

  abbrev pub set_last_relay : String → Store → Store
  set_last_relay url store = record store { last_relay = some url }

  abbrev pub get_last_relay : Store → Option String
  get_last_relay store = store.last_relay

  -- `name?.trim() || undefined`
  unfoldable pub tidy_name : Option String → Option String
  tidy_name none = none
  tidy_name (some name) = truthy (some (site.trim name))

  unfoldable pub add_client_relay :
      (url : String) (name : Option String) → Store → Store × List ClientRelay
  add_client_relay url name store =
      let u = site.trim url in
      if u == ""
      then (store, load_client_relays store)
      else (let list =
            record { url = u; name = tidy_name name } ∷ without u (load_client_relays store) in
          (set_last_relay u (persist list store), list))

  unfoldable pub remove_client_relay : (url : String) → Store → Store × List ClientRelay
  remove_client_relay url store =
      let list = without url (load_client_relays store) in (persist list store, list)

  unfoldable pub normalize_client_relay : (input : String) → Option String
  normalize_client_relay input =
      let t = site.trim input in
      if t == ""
      then none
      else if starts "ws://" t || starts "wss://" t
      then some (if ends "/ws" t then t else t +++ "/ws")
      else some (("wss://" +++ t) +++ "/ws")
