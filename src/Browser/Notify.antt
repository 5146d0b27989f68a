-- ===== src/Browser/Notify.antt =====
-- web/src/lib/notify.ts: when a notification is shown.
use remote_agent.Common.{
  String, Bool, true, false, not, ◌||◌, Option, none, some, ◌==◌, string_eq, if◌then◌else◌,
}

pub data Permission : Type 0 where
  granted denied default_permission : Permission

-- `api` is `Notification.permission` where there are notifications.
pub record Desk : Type 0 where
  pub setting : Option String
  pub api : Option Permission
  pub visible : Bool

abbrev pub is_granted : Option Permission → Bool
is_granted (some granted) = true
is_granted _ = false

unfoldable pub notify_supported : Desk → Bool
notify_supported d = elim d.api [ none ↦ false | some p ↦ true ]

unfoldable pub notify_enabled : Desk → Bool
notify_enabled d = elim d.setting [ none ↦ false | some v ↦ v == "1" ]

unfoldable pub set_notify_enabled : Bool → Desk → Desk
set_notify_enabled v d = record d { setting = some (if v then "1" else "0") }

-- requestNotifyPermission; `asked` is what the user answers.
unfoldable pub request_notify_permission : (asked : Permission) → Desk → Desk × Bool
request_notify_permission asked d = elim d.api [
  | none ↦ (d, false)
  | some granted ↦ (d, true)
  | some denied ↦ (d, false)
  | some default_permission ↦ (record d { api = some asked }, is_granted (some asked))
]

-- notify, up to the constructor of the notification: its title, text and tag.
unfoldable pub notify : (title body tag : String) → Desk → Option (String × String × String)
notify title body tag d =
    if not (notify_enabled d) || not (notify_supported d)
    then none
    else if not (is_granted d.api)
    then none
    else if d.visible
    then none
    else some (title, body, tag)
