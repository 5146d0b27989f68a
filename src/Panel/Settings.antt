-- ===== src/Panel/Settings.antt =====
-- web/src/pages/Settings.tsx: its state and its handlers, over what localStorage, the document and the
-- browser's notifications keep.
use remote_agent.Common.{
  ℕ, ◌≡◌, String, Bool, true, false, not, Option, some, or_else, List, [], ◌∷◌, nat_eq,
  if◌then◌else◌,
}
use remote_agent.Browser.Notify.{
  Desk, Permission, notify_enabled, set_notify_enabled, request_notify_permission,
}
use remote_agent.Browser.Theme.{Theme, Look, stored_theme, set_theme}
use remote_agent.Panel.{LocalInfo}
use remote_agent.Terminal.Input.{or_fallback}

pub data Cat : Type 0 where
  general appearance ai terminal about : Cat

pub record Settings : Type 0 where
  pub cat : Cat
  pub font_size : ℕ
  pub autostart : Bool
  pub autostart_busy : Bool
  pub theme : Theme
  pub notify_on : Bool
  pub notify_perm : Option Permission

-- What the page reads and writes: the stored font size, where a text that is no number counts as 0, the
-- stored number of lines, the theme and the notifications.
pub record Disk : Type 0 where
  pub font : ℕ
  pub scrollback : Option String
  pub look : Look
  pub desk : Desk

-- The first render.
unfoldable pub open_settings : LocalInfo → Disk → Settings
open_settings local d = record {
  cat = general;
  font_size = or_fallback d.font 14;
  autostart = or_else local.autostart false;
  autostart_busy = false;
  theme = stored_theme d.look;
  notify_on = notify_enabled d.desk;
  notify_perm = d.desk.api;
}

-- pickTheme
unfoldable pub pick_theme : Theme → Settings × Disk → Settings × Disk
pick_theme t (v, d) = (record v { theme = t }, record d { look = set_theme t d.look })

-- toggleNotify; `asked` is what the user answers to the browser.
unfoldable pub toggle_notify : (asked : Permission) → Settings × Disk → Settings × Disk
toggle_notify asked (v, d) =
    if not v.notify_on
    then (let (desk, ok) = request_notify_permission asked d.desk in
        let v' = record v { notify_perm = desk.api } in
        if not ok
        then (v', record d { desk = desk })
        else (record v' { notify_on = true }, record d { desk = set_notify_enabled true desk }))
    else (record v { notify_on = false }, record d { desk = set_notify_enabled false d.desk })

-- toggleAutostart up to its request, which asks for the other position.
unfoldable pub toggle_autostart : Settings → Settings × Bool
toggle_autostart v = (record v { autostart_busy = true }, not v.autostart)

-- Its end: the position that the daemon answers with, if there is one.
unfoldable pub autostart_answered : Option Bool → Settings → Settings
autostart_answered answer v = record v {
  autostart_busy = false;
  autostart = or_else answer v.autostart;
}

-- applyFontSize
unfoldable pub apply_font_size : ℕ → Settings × Disk → Settings × Disk
apply_font_size n (v, d) = (record v { font_size = n }, record d { font = n })

unfoldable pub apply_scrollback : String → Settings × Disk → Settings × Disk
apply_scrollback lines (v, d) = (v, record d { scrollback = some lines })

abbrev pub pick_cat : Cat → Settings × Disk → Settings × Disk
pick_cat c (v, d) = (record v { cat = c }, d)

-- All that the page does at once.
pub data Move : Type 0 where
  picks : Cat → Move
  picks_theme : Theme → Move
  toggles_notify : Permission → Move
  asks_autostart : Move
  hears_autostart : Option Bool → Move
  sets_font : ℕ → Move
  sets_scrollback : String → Move

unfoldable pub move : Move → Settings × Disk → Settings × Disk
move (picks c) s = pick_cat c s
move (picks_theme t) s = pick_theme t s
move (toggles_notify asked) s = toggle_notify asked s
move asks_autostart (v, d) = ((toggle_autostart v).0, d)
move (hears_autostart answer) (v, d) = (autostart_answered answer v, d)
move (sets_font n) s = apply_font_size n s
move (sets_scrollback lines) s = apply_scrollback lines s

unfoldable pub moves : List Move → Settings × Disk → Settings × Disk
moves [] s = s
moves (m ∷ ms) s = moves ms (move m s)

-- The switch, the theme and the font size that the page shows are the stored ones.
pub record IsTrue (s : Settings × Disk) : Type 0 where
  pub notified : s.0.notify_on ≡ notify_enabled s.1.desk
  pub permitted : s.0.notify_perm ≡ s.1.desk.api
  pub themed : s.0.theme ≡ stored_theme s.1.look
  pub sized : s.0.font_size ≡ or_fallback s.1.font 14
