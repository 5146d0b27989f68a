-- ===== src/Browser/Clipboard.antt =====
-- web/src/lib/clipboard.ts, and copyPairLink of web/src/TerminalApp.tsx.
use remote_agent.Common.{String, Bool, true, false, Option, none, some, if◌then◌else◌}

-- `document.execCommand('copy')`, where an exception is `none`.
abbrev pub legacy : (command : Option Bool) → Bool
legacy none = false
legacy (some ok) = ok

-- copyText: `api` is the outcome of `navigator.clipboard.writeText`, if there is one.
unfoldable pub copy_text : (api command : Option Bool) → Bool
copy_text none command = legacy command
copy_text (some true) command = true
copy_text (some false) command = legacy command

-- copyPairLink: the toast, if any. `share` is the outcome of `navigator.share`, if there is one.
unfoldable pub copy_pair_link : (written : Bool) (command share : Option Bool) → Option String
copy_pair_link true command share = some "配对链接已复制，发给新设备即可接入"
copy_pair_link false command share =
    if legacy command then some "配对链接已复制，发给新设备即可接入" else elim share [
      | some true ↦ none
      | some false ↦ some "复制失败，请手动复制地址栏链接"
      | none ↦ some "复制失败，请手动复制地址栏链接"
    ]
