-- ===== src/Panel/Route.antt =====
-- web/src/Shell.tsx: the page that the address names, the navigation, and what stands round the pages.
use Prim.Native.Char.{code, char}
use Prim.Native.String.{◌++◌ as ◌+++◌}
use text.Mathlib.TextLemmas.{nil-append, cons-append}
use remote_agent.Common.{
  ◌≡◌, refl, ap, ◌∙◌, String, Bool, true, false, none, some, List, [], ◌∷◌, ◌++◌, map, ◌==◌, nat_eq,
  string_eq, Bool-cases, inl, inr, if◌then◌else◌, arith,
}
use remote_agent.Connection.{truthy}
use remote_agent.Pairing.Texts.{strip_prefix, strip_prefix-append}
use remote_agent.Panel.{LocalInfo}
use remote_agent.Panel.View.{Node, label, tab}

pub data PageId : Type 0 where
  overview devices sessions relay settings help : PageId

abbrev pub page_text : PageId → String
page_text overview = "overview"
page_text devices = "devices"
page_text sessions = "sessions"
page_text relay = "relay"
page_text settings = "settings"
page_text help = "help"

-- `h.replace(/^#\/?/, '')`
unfoldable pub strip_hash : String → String
strip_hash h = elim (strip_prefix "#/" h) [
  | some rest ↦ rest
  | none ↦ elim (strip_prefix "#" h) [ some rest ↦ rest | none ↦ h ]
]

-- `h.split('?')[0]`; 63 is the question mark.
unfoldable pub before_mark : String → String
before_mark String.[] = ""
before_mark (String.◌∷◌ c s) =
    let rest = String.◌∷◌ c (before_mark s) in if code c == 63 then "" else rest

-- The page of a name, and the overview for any other name.
unfoldable pub page_of : String → PageId
page_of h =
    if h == "devices"
    then devices
    else if h == "sessions"
    then sessions
    else if h == "relay"
    then relay
    else if h == "settings"
    then settings
    else if h == "help"
    then help
    else overview

-- `parse` of useHashRoute, and the hash that its `navigate` sets.
unfoldable pub parse : (hash : String) → PageId
parse hash = page_of (before_mark (strip_hash hash))

unfoldable pub navigate : PageId → String
navigate p = "#/" +++ page_text p

-- The LocalInfo before the daemon has answered.
abbrev pub unread : LocalInfo
unread = record {
  device_id = "";
  access_token = "";
  relay_url = none;
  relay_name = "";
  relay_online = false;
  relay_note = "读取中…";
  relay_connected_at = 0;
  relay_viewers = none;
  relays = [];
  active_relay = none;
  autostart = none;
}

abbrev pub same_page : PageId → PageId → Bool
same_page p q = page_text p == page_text q

abbrev pub main_nav : List (PageId × String)
main_nav = (overview, "概览") ∷ (devices, "设备") ∷ (sessions, "Sessions") ∷ (relay, "中继服务") ∷ []

abbrev pub sub_nav : List (PageId × String)
sub_nav = (settings, "设置") ∷ (help, "帮助") ∷ []

abbrev pub bottom_tabs : List (PageId × String)
bottom_tabs =
    (overview, "概览") ∷ (devices, "设备") ∷ (sessions, "会话") ∷ (relay, "中继") ∷ (settings, "设置") ∷ []

-- The buttons of a group: each asks for its hash.
unfoldable pub nav_items : (page : PageId) → List (PageId × String) → List (Node String)
nav_items page items = map (λ i. tab i.1 (same_page page i.0) (navigate i.0)) items

-- NavGroup
unfoldable pub nav_group :
    (title : String) (page : PageId) → List (PageId × String) → List (Node String)
nav_group title page items = label title ∷ nav_items page items

abbrev is_local : LocalInfo → Bool
is_local local = if local.device_id == "" then false else true

-- What stands round the page: title bar, side bar with its foot, and the bar at the bottom. The class of
-- the dot is its colour.
unfoldable pub frame : (local : LocalInfo) (page : PageId) → List (Node String)
frame local page =
    label "RemoteAgent"
      ∷ label (if is_local local then "本机" else "远程")
      ∷ label "RemoteAgent"
      ∷ label (if is_local local then "v0.1 · 本机" else "v0.1 · 远程")
      ∷ []
    ++ (nav_group "主导航" page main_nav
        ++ (nav_group "次要导航" page sub_nav
            ++ (label (
                    if local.relay_online
                    then "ok"
                    else elim (truthy local.relay_url) [ some url ↦ "wait" | none ↦ "bad" ])
                  ∷ label (if local.relay_online then "当前主机在线" else "中继未连接")
                  ∷ []
                ++ nav_items page bottom_tabs)))

-- No question mark.
has_mark : String → Bool
has_mark String.[] = false
has_mark (String.◌∷◌ c s) = let rest = has_mark s in if code c == 63 then true else rest

before_mark-append :
    (s q : String) → has_mark s ≡ false → before_mark (s +++ String.◌∷◌ (char 63 tt) q) ≡ s
unfolding before_mark has_mark
before_mark-append String.[] q h = rw (nil-append (String.◌∷◌ (char 63 tt) q), before_mark) refl
before_mark-append (String.◌∷◌ c s) q h = elim (Bool-cases (code c == 63)) [
  | inl e ↦ absurd (ground (arith, e))
  | inr e ↦
      rw (cons-append c s (String.◌∷◌ (char 63 tt) q), before_mark, e)
        (ap (String.◌∷◌ c) (before_mark-append s q (rw e at h)))
]

text_plain : (p : PageId) → has_mark (page_text p) ≡ false
unfolding has_mark
text_plain overview = refl
text_plain devices = refl
text_plain sessions = refl
text_plain relay = refl
text_plain settings = refl
text_plain help = refl

page_of-page_text : (p : PageId) → page_of (page_text p) ≡ p
unfolding page_of
page_of-page_text overview = refl
page_of-page_text devices = refl
page_of-page_text sessions = refl
page_of-page_text relay = refl
page_of-page_text settings = refl
page_of-page_text help = refl

strip_hash-append : (s : String) → strip_hash ("#/" +++ s) ≡ s
unfolding strip_hash
strip_hash-append s = rw (strip_prefix-append "#/" s, strip_hash) refl

parse_navigate : (p : PageId) → parse (navigate p) ≡ p
unfolding parse navigate strip_hash strip_prefix before_mark page_of
parse_navigate overview = refl
parse_navigate devices = refl
parse_navigate sessions = refl
parse_navigate relay = refl
parse_navigate settings = refl
parse_navigate help = refl

-- The address that leads to a page is read as that page, with a query behind it and without.
pub parse-navigate :
    (p : PageId) (query : String)
    → (parse (navigate p) ≡ p)
      × (parse ("#/" +++ (page_text p +++ String.◌∷◌ (char 63 tt) query)) ≡ p)
unfolding parse
parse-navigate p query = (
  parse_navigate p,
  ap (λ h. page_of (before_mark h)) (strip_hash-append _)
      ∙ ap page_of (before_mark-append (page_text p) query (text_plain p))
      ∙ page_of-page_text p,
)
