-- ===== src/Pairing/Target.antt =====
-- web/src/lib/target.ts and the addresses of web/src/lib/local.ts: what an address asks to connect to.
use Prim.Native.String.{◌++◌ as ◌+++◌}
use remote_agent.Common.{
  String, Bool, Option, none, some, is_some, List, [], ◌∷◌, ◌++◌, ◌==◌, string_eq, if◌then◌else◌,
}
use remote_agent.Common.Maps.{lookup}
use remote_agent.Connection.{HelloFields, truthy}
use remote_agent.Pairing.{Address, Site}
use remote_agent.Pairing.Texts.{replace_prefix, drop_suffix}

pub record Target : Type 0 where
  pub url : String
  pub hello : HelloFields
  pub mode : String

-- LOCAL_BASE and LOCAL_WS, by whether the page runs in the desktop shell.
abbrev pub local_base : Bool → String
local_base in_tauri = if in_tauri then "http://127.0.0.1:9800" else ""

abbrev pub local_ws : Bool → String
local_ws in_tauri = if in_tauri then "ws://127.0.0.1:9800/ws" else ""

unfoldable pub local_api : Bool → (path : String) → String
local_api in_tauri path = local_base in_tauri +++ path

-- The loop over the fragment's parameters: what the query has is kept.
unfoldable pub merge : (query fragment : List (String × String)) → List (String × String)
merge q [] = q
merge q ((k, v) ∷ h) = merge (if is_some (lookup k q) then q else q ++ (k, v) ∷ []) h

-- The address of the page's own host, over TLS where the page is.
unfoldable pub own_ws : Address → String
own_ws a = (if a.is_https then "wss" else "ws") +++ ("://" +++ (a.host +++ "/ws"))

module _ (site : Site) where
  -- paramsOf, and mergedParams of the page's location.
  unfoldable pub params_of : Address → List (String × String)
  params_of a = merge (site.read_params a.search) (site.read_params (replace_prefix "#" "" a.hash))

  unfoldable pub target : (in_tauri : Bool) → (location : Address) → Option Target
  target in_tauri location =
      let q = params_of location in
      elim (truthy (lookup "device" q)) [
        | some device ↦ some (record {
          url = elim (truthy (lookup "relay" q)) [ some r ↦ r | none ↦ own_ws location ];
          hello = record { device_id = device; token = lookup "token" q };
          mode = "relay";
        })
        | none ↦ elim (lookup "local" q) [
          | none ↦ none
          | some local ↦
              if local == "1"
              then some (record {
                url = elim (truthy (some (local_ws in_tauri))) [
                  | some ws ↦ ws
                  | none ↦ own_ws location
                ];
                hello = record { device_id = "local-browser"; token = none };
                mode = "local";
              })
              else none
        ]
      ]

unfoldable pub relay_http_base : Option String → String
relay_http_base url = elim (truthy url) [
  | none ↦ ""
  | some u ↦
      drop_suffix "/ws" (replace_prefix "ws://" "http://" (replace_prefix "wss://" "https://" u))
]
