-- ===== src/Panel/RelayPage.antt =====
-- The state and the handlers of RelayPage of web/src/pages/Relay.tsx, on the computer itself.
use Prim.Native.String.{◌++◌ as ◌+++◌}
use remote_agent.Common.{
  ℕ, String, Bool, true, false, ◌||◌, Option, none, some, List, [], ◌∷◌, ◌++◌, ◌==◌, string_eq,
  if◌then◌else◌,
}
use remote_agent.Connection.{truthy}
use remote_agent.Pairing.Target.{relay_http_base}
use remote_agent.Pairing.Texts.{starts}
use remote_agent.Panel.{LocalInfo, Texts}

-- What is asked of the daemon, or of the relay's /health.
pub data Job : Type 0 where
  tests_latency : Job
  connects removes : (url : String) → Job
  disconnects : Job
  adds : (name url : String) → Job

-- The state of the page; `running` has the runs that have not ended, in the order of their beginning.
pub record RelayPage : Type 0 where
  pub busy : Bool
  pub error : Option String
  pub latency : Option ℕ
  pub add_open : Bool
  pub add_name : String
  pub add_url : String
  pub running : List Job

abbrev pub opened_page : RelayPage
opened_page = record {
  busy = false;
  error = none;
  latency = none;
  add_open = false;
  add_name = "";
  add_url = "";
  running = [];
}

-- What goes out: a POST with its path and what its body says, or a GET.
pub data Request : Type 0 where
  post : (path : String) → Job → Request
  get : (address : String) → Request

-- The request of a job; without a relay there is no latency to be tested.
unfoldable pub request_of : LocalInfo → Job → Option Request
request_of local tests_latency = elim (truthy local.relay_url) [
  | none ↦ none
  | some url ↦ some (get (relay_http_base (some url) +++ "/health"))
]
request_of local (connects url) = some (post "/api/local/relay" (connects url))
request_of local disconnects = some (post "/api/local/relay" disconnects)
request_of local (adds name url) = some (post "/api/local/relays" (adds name url))
request_of local (removes url) = some (post "/api/local/relays" (removes url))

-- `run`, up to the call of its function.
unfoldable pub run : Job → RelayPage → RelayPage
run job v = record v { busy = true; error = none; running = v.running ++ job ∷ [] }

-- How the function of a run ends: `refused` has the text of a response that is not ok, `failed` the
-- message of the exception; `took` is the time of the response in milliseconds.
pub data Ending : Type 0 where
  accepted : (took : ℕ) → Ending
  refused failed : String → Ending

abbrev pub refusal : Job → String → String
refusal tests_latency body = "中继无响应"
refusal job body = if body == "" then "请求失败" else body

-- What an accepted job does to the page.
unfoldable pub achieved : Job → (took : ℕ) → RelayPage → RelayPage
achieved tests_latency took v = record v { latency = some took }
achieved (adds name url) took v = record v { add_open = false; add_name = ""; add_url = "" }
achieved job took v = v

-- Whether it reads the daemon anew.
abbrev pub refreshes : Job → Bool
refreshes tests_latency = false
refreshes job = true

-- The end of one of the runs: `catch` and `finally`, and whether the daemon is read anew. `others` are the
-- runs that go on.
unfoldable pub finish : Job → (others : List Job) → Ending → RelayPage → RelayPage × Bool
finish job others (accepted took) v =
    (record (achieved job took v) { busy = false; running = others }, refreshes job)
finish job others (refused body) v =
    (record v { error = some (refusal job body); busy = false; running = others }, false)
finish job others (failed message) v =
    (record v { error = some message; busy = false; running = others }, false)

-- `go` of QuickConnect: the address that is connected to, if there is one.
unfoldable pub quick_connect : Texts → (url : String) → Option String
quick_connect t url =
    let text = t.trim url in
    if text == ""
    then none
    else some (
        if starts "wss://" text || starts "ws://" text then text else "wss://" +++ (text +++ "/ws"))

abbrev pub on_add_open : Bool → RelayPage → RelayPage
on_add_open shows v = record v { add_open = shows }

abbrev pub on_add_name : String → RelayPage → RelayPage
on_add_name name v = record v { add_name = name }

abbrev pub on_add_url : String → RelayPage → RelayPage
on_add_url url v = record v { add_url = url }
