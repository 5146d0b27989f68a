-- ===== src/Panel/Overview.antt =====
-- The state and the handlers of web/src/pages/Overview.tsx.
use Prim.Native.String.{◌++◌ as ◌+++◌}
use remote_agent.Common.{
  ℕ, String, Bool, true, false, not, ◌||◌, Option, none, some, length, ltb, ◌==◌, string_eq,
  if◌then◌else◌,
}
use remote_agent.Connection.{truthy}
use remote_agent.Pairing.{Site, Store}
use remote_agent.Pairing.Links.{load_conns}
use remote_agent.Pairing.Relays.{load_client_relays}
use remote_agent.Pairing.Target.{relay_http_base}
use remote_agent.Panel.{LocalInfo, Texts}

pub record Overview : Type 0 where
  pub paired_count : ℕ
  pub relay_count : ℕ
  pub copied : Option String
  pub editing_token : Bool
  pub new_token : String
  pub token_busy : Bool
  pub token_msg : Option String
  pub show_token : Bool

abbrev pub opened_overview : Overview
opened_overview = record {
  paired_count = 0;
  relay_count = 0;
  copied = none;
  editing_token = false;
  new_token = "";
  token_busy = false;
  token_msg = none;
  show_token = false;
}

-- `!!local.deviceId`
abbrev pub is_local : LocalInfo → Bool
is_local local = not (local.device_id == "")

-- The effect on the device: away from it, what this browser remembers is counted.
unfoldable pub count_memory : Site → Store → LocalInfo → Overview → Overview
count_memory site store local v = if is_local local then v else record v {
  paired_count = length (load_conns site store);
  relay_count = length (load_client_relays site store);
}

-- relayWeb, the address at which the relay serves the client.
unfoldable pub relay_web : LocalInfo → Option String
relay_web local = elim (truthy local.relay_url) [
  | none ↦ none
  | some url ↦ some (relay_http_base (some url) +++ "/")
]

-- pairingLink
unfoldable pub pairing_link : LocalInfo → Option String
pairing_link local = elim (relay_web local) [
  | none ↦ none
  | some web ↦
      some (web +++ ("#device=" +++ (local.device_id +++ ("&token=" +++ local.access_token))))
]

-- copy, once copyText has an outcome, and the timer behind it.
unfoldable pub copied : (name : String) (ok : Bool) → Overview → Overview
copied name ok v = record v { copied = some (if ok then name +++ "已复制" else name +++ "复制失败") }

unfoldable pub copied_over : Overview → Overview
copied_over v = record v { copied = none }

-- saveToken up to its request: the token that is posted, if one is.
unfoldable pub save_token : Texts → Overview → Overview × Option String
save_token t v =
    let token = t.trim v.new_token in
    if ltb (t.size token) 8 || t.has_space token
    then (record v { token_msg = some "令牌需至少 8 位且不含空格" }, none)
    else (record v { token_busy = true; token_msg = none }, some token)

-- How a request ends: `refused` has the text of a response that is not ok, `failed` the text String(e) of
-- the exception.
pub data Answer : Type 0 where
  accepted : Answer
  refused failed : String → Answer

-- The text of `catch`.
unfoldable pub save_failed : Texts → String → Overview → Overview
save_failed t e v = record v { token_msg = some ("保存失败：" +++ t.slice e 0 80); token_busy = false }

-- The end of saveToken, and whether the panel reads the daemon anew.
unfoldable pub token_saved : Texts → Answer → Overview → Overview × Bool
token_saved t accepted v = (
  record v {
    editing_token = false;
    new_token = "";
    token_msg = some "✓ 已生效 —— 旧配对链接立即失效，请用新令牌重新配对";
    token_busy = false;
  },
  true,
)
token_saved t (refused body) v =
    (save_failed t ("Error: " +++ (if body == "" then "保存失败" else body)) v, false)
token_saved t (failed e) v = (save_failed t e v, false)

-- The field of the new token, and the button that gives up.
unfoldable pub on_token : String → Overview → Overview
on_token text v = record v { new_token = text; token_msg = none }

unfoldable pub on_cancel : Overview → Overview
on_cancel v = record v { editing_token = false; new_token = ""; token_msg = none }

abbrev pub toggle_show : Overview → Overview
toggle_show v = record v { show_token = not v.show_token }

abbrev pub toggle_edit : Overview → Overview
toggle_edit v = record v { editing_token = not v.editing_token }
