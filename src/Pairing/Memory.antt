-- ===== src/Pairing/Memory.antt =====
-- The list of relays over a history of additions and removals.
use Prim.Native.String.{◌++◌ as ◌+++◌}
use remote_agent.Common.{
  ℕ, zero, suc, ◌≤◌, ◌≡◌, ◌≢◌, refl, ap, String, Bool, true, false, ◌||◌, Option, some, is_some,
  inl, inr, List, [], ◌∷◌, map, take, keep, any, length, length-take, ◌==◌, ==_ne, string_eq,
  if_both, Bool-cases, arith,
}
use remote_agent.Pairing.{ClientRelay, relay, Site, Store}
use remote_agent.Pairing.Relays.{
  proper, without, load_client_relays, persist, add_client_relay, remove_client_relay,
  normalize_client_relay, tidy_name,
}
use remote_agent.Pairing.Texts.{starts, ends, strip_prefix-append, starts-append, ends-append}

abbrev pub has : String → List ClientRelay → Bool
has url list = any (λ (r : ClientRelay). r.url == url) list

-- No url stands twice, and there are at most eight relays.
abbrev pub Distinct : List ClientRelay → Type 0
Distinct [] = Unit
Distinct (r ∷ rs) = (has r.url rs ≡ false) × Distinct rs

abbrev pub IsTidy : List ClientRelay → Type 0
IsTidy list = Distinct list × (length list ≤ 8)

-- A stored list is read as it was written.
abbrev pub IsFaithful : Site → Type 0
IsFaithful site =
    (list : List ClientRelay) → site.read_relays (site.write_relays list) ≡ some (map relay list)

proper-map : (list : List ClientRelay) → proper (map relay list) ≡ list
unfolding proper
proper-map [] = refl
proper-map (r ∷ rs) = ap (λ (l : List ClientRelay). r ∷ l) (proper-map rs)

has-keep :
    (test : ClientRelay → Bool) (url : String) (list : List ClientRelay)
    → has url list ≡ false
    → has url (keep test list) ≡ false
has-keep test url [] h = refl
has-keep test url (r ∷ rs) h = ground (arith, has-keep test url rs)

has-without : (url : String) (list : List ClientRelay) → has url (without url list) ≡ false
has-without url [] = refl
has-without url (r ∷ rs) = ground (arith, has-without url rs)

Distinct-keep :
    (test : ClientRelay → Bool) (list : List ClientRelay)
    → Distinct list
    → Distinct (keep test list)
Distinct-keep test [] d = tt
Distinct-keep test (r ∷ rs) d =
    if_both Distinct (test r) _ _ (has-keep test r.url rs d.0, Distinct-keep test rs d.1)
      (Distinct-keep test rs d.1)

has-take :
    (n : ℕ) (url : String) (list : List ClientRelay)
    → has url list ≡ false
    → has url (take n list) ≡ false
has-take zero url list h = refl
has-take (suc n) url [] h = refl
has-take (suc n) url (r ∷ rs) h = ground (arith, has-take n url rs)

Distinct-take : (n : ℕ) (list : List ClientRelay) → Distinct list → Distinct (take n list)
Distinct-take zero list d = tt
Distinct-take (suc n) [] d = tt
Distinct-take (suc n) (r ∷ rs) d = (has-take n r.url rs d.0, Distinct-take n rs d.1)

pub data Edit : Type 0 where
  adds : String → Option String → Edit
  removes : String → Edit

module _ (site : Site) where
  unfoldable pub edit : Edit → Store → Store
  edit (adds url name) store = (add_client_relay site url name store).0
  edit (removes url) store = (remove_client_relay site url store).0

  unfoldable pub edits : List Edit → Store → Store
  edits [] store = store
  edits (e ∷ es) store = edits es (edit e store)

module _ (site : Site) (faithful : IsFaithful site) where
  load-persist :
      (list : List ClientRelay) (store : Store)
      → load_client_relays site (persist site list store) ≡ take 8 list
  unfolding load_client_relays persist
  load-persist list store =
      rw (load_client_relays, faithful (take 8 list)) (proper-map (take 8 list))

  persist-IsTidy :
      (list : List ClientRelay) (store : Store)
      → Distinct list
      → IsTidy (load_client_relays site (persist site list store))
  persist-IsTidy list store d =
      rw (load-persist list store) (Distinct-take 8 list d, omega (arith, length-take 8 list))

  edit-IsTidy :
      (e : Edit) (store : Store)
      → IsTidy (load_client_relays site store)
      → IsTidy (load_client_relays site (edit site e store))
  unfolding edit add_client_relay remove_client_relay load_client_relays
  edit-IsTidy (adds url name) store t =
      let u = site.trim url in
      if_both (λ (r : Store × List ClientRelay). IsTidy (load_client_relays site r.0)) (u == "") _ _
        t
        (persist-IsTidy _ store (
          has-without u (load_client_relays site store),
          Distinct-keep _ (load_client_relays site store) t.0,
        ))
  edit-IsTidy (removes url) store t =
      persist-IsTidy _ store (Distinct-keep _ (load_client_relays site store) t.0)

  -- From a tidy list on, whatever is added and removed, no url is remembered twice and at most eight
  -- relays are.
  pub edits-IsTidy :
      (es : List Edit) (store : Store)
      → IsTidy (load_client_relays site store)
      → IsTidy (load_client_relays site (edits site es store))
  unfolding edits
  edits-IsTidy [] store t = t
  edits-IsTidy (e ∷ es) store t = edits-IsTidy es (edit site e store) (edit-IsTidy e store t)

  -- An addition puts the relay first and makes it the last one used, and of the others it drops none but
  -- one with the same url and the ninth.
  pub load-add_client_relay :
      (url : String) (name : Option String) (store : Store)
      → site.trim url ≢ ""
      → let store' = (add_client_relay site url name store).0 in
        (r : ClientRelay) × (r.url ≡ site.trim url)
        × (load_client_relays site store'
            ≡ r ∷ take 7 (without (site.trim url) (load_client_relays site store)))
        × (store'.last_relay ≡ some (site.trim url))
  unfolding add_client_relay load_client_relays
  load-add_client_relay url name store nonempty =
      rw (==_ne (site.trim url) "" nonempty) (
        record { url = site.trim url; name = tidy_name site name },
        refl,
        load-persist _ store,
        refl,
      )

secure :
    (t : String)
    → (starts "ws://" (("wss://" +++ t) +++ "/ws") || starts "wss://" (("wss://" +++ t) +++ "/ws"))
      ≡ true
secure t = ground (
  arith,
  starts-append "wss://" ("wss://" +++ t) "/ws" (ap is_some (strip_prefix-append "wss://" t)),
)

kept :
    (t : String)
    → (starts "ws://" t || starts "wss://" t) ≡ true
    → (starts "ws://" (t +++ "/ws") || starts "wss://" (t +++ "/ws")) ≡ true
kept t h = ground (arith, starts-append "ws://" t "/ws", starts-append "wss://" t "/ws")

-- Whatever is typed in, unless it is blank, becomes an address that begins with ws:// or wss:// and
-- ends in /ws.
pub normalize_client_relay_shape :
    (site : Site) (input : String)
    → site.trim input ≢ ""
    → (url : String) × (normalize_client_relay site input ≡ some url)
      × ((starts "ws://" url || starts "wss://" url) ≡ true)
      × (ends "/ws" url ≡ true)
unfolding normalize_client_relay
normalize_client_relay_shape site input nonempty =
    let t = site.trim input in
    elim (Bool-cases (starts "ws://" t || starts "wss://" t)) [
      | inr bare ↦
          rw (==_ne t "" nonempty, bare) (_, refl, secure t, ends-append "/ws" ("wss://" +++ t))
      | inl given ↦ elim (Bool-cases (ends "/ws" t)) [
        | inl done ↦ rw (==_ne t "" nonempty, given, done) (t, refl, given, done)
        | inr bare ↦
            rw (==_ne t "" nonempty, given, bare)
              (t +++ "/ws", refl, kept t given, ends-append "/ws" t)
      ]
    ]
