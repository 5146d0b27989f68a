-- ===== src/Panel/Switches.antt =====
-- What the settings page (web/src/pages/Settings.tsx) shows, and what is stored.
use remote_agent.Common.{
  ◌≤◌, ◌≡◌, refl, ap, ◌∙◌, sym, String, Bool, true, false, not, ◌&&◌, is_some, List, [], ◌∷◌, All,
  nat_eq, string_eq, if_both, if_cases, arith,
}
use remote_agent.Browser.Notify.{
  Desk, Permission, notify_enabled, notify_supported, set_notify_enabled, request_notify_permission,
  is_granted, notify,
}
use remote_agent.Browser.Theme.{
  Theme, Look, stored_theme, set_theme, apply_theme, dark, light, system,
}
use remote_agent.Panel.{LocalInfo}
use remote_agent.Panel.Settings.{
  Settings, Disk, IsTrue, open_settings, toggle_notify, toggle_autostart, autostart_answered,
  apply_font_size, apply_scrollback, pick_theme, Move, picks, picks_theme, toggles_notify,
  asks_autostart, hears_autostart, sets_font, sets_scrollback, move, moves,
}
use remote_agent.Terminal.Input.{or_fallback}

-- The slider goes from 12 to 18.
abbrev pub IsOffered : Move → Type 0
IsOffered (sets_font n) = (12 ≤ n) × (n ≤ 18)
IsOffered _ = Unit

open-IsTrue : (local : LocalInfo) (d : Disk) → IsTrue (open_settings local d, d)
unfolding open_settings
open-IsTrue local d = record { notified = refl; permitted = refl; themed = refl; sized = refl }

stored_theme-set_theme : (t : Theme) (l : Look) → stored_theme (set_theme t l) ≡ t
unfolding stored_theme set_theme apply_theme
stored_theme-set_theme dark l = refl
stored_theme-set_theme light l = refl
stored_theme-set_theme system l = refl

enabled-set : (v : Bool) (desk : Desk) → notify_enabled (set_notify_enabled v desk) ≡ v
unfolding notify_enabled set_notify_enabled
enabled-set true desk = refl
enabled-set false desk = refl

request_keeps_setting :
    (asked : Permission) (desk : Desk)
    → notify_enabled (request_notify_permission asked desk).0 ≡ notify_enabled desk
unfolding notify_enabled request_notify_permission
request_keeps_setting asked desk = ground arith

toggle-IsTrue :
    (asked : Permission) (s : Settings × Disk) → IsTrue s → IsTrue (toggle_notify asked s)
unfolding toggle_notify set_notify_enabled
toggle-IsTrue asked (v, d) h =
    let (desk, ok) = request_notify_permission asked d.desk in
    if_both IsTrue (not v.notify_on) _ _
      (if_cases IsTrue (not ok) _ _
        (λ refused. record {
          notified = h.notified ∙ sym (request_keeps_setting asked d.desk);
          permitted = refl;
          themed = h.themed;
          sized = h.sized;
        })
        (λ allowed. record {
          notified = sym (enabled-set true desk);
          permitted = refl;
          themed = h.themed;
          sized = h.sized;
        }))
      (record {
        notified = sym (enabled-set false d.desk);
        permitted = h.permitted;
        themed = h.themed;
        sized = h.sized;
      })

move-IsTrue : (m : Move) (s : Settings × Disk) → IsOffered m → IsTrue s → IsTrue (move m s)
unfolding move pick_theme toggle_autostart autostart_answered apply_font_size apply_scrollback
move-IsTrue (picks c) s o h = record {
  notified = h.notified;
  permitted = h.permitted;
  themed = h.themed;
  sized = h.sized;
}
move-IsTrue (picks_theme t) (v, d) o h = record {
  notified = h.notified;
  permitted = h.permitted;
  themed = sym (stored_theme-set_theme t d.look);
  sized = h.sized;
}
move-IsTrue (toggles_notify asked) s o h = toggle-IsTrue asked s h
move-IsTrue asks_autostart s o h = record {
  notified = h.notified;
  permitted = h.permitted;
  themed = h.themed;
  sized = h.sized;
}
move-IsTrue (hears_autostart answer) s o h = record {
  notified = h.notified;
  permitted = h.permitted;
  themed = h.themed;
  sized = h.sized;
}
move-IsTrue (sets_font n) s o h = record {
  notified = h.notified;
  permitted = h.permitted;
  themed = h.themed;
  sized = ground arith;
}
move-IsTrue (sets_scrollback lines) s o h = record {
  notified = h.notified;
  permitted = h.permitted;
  themed = h.themed;
  sized = h.sized;
}

moves-IsTrue :
    (ms : List Move) (s : Settings × Disk) → All IsOffered ms → IsTrue s → IsTrue (moves ms s)
unfolding moves
moves-IsTrue [] s o h = h
moves-IsTrue (m ∷ ms) s o h = moves-IsTrue ms (move m s) o.1 (move-IsTrue m s o.0 h)

-- `aria-checked` of the switch.
abbrev pub is_on : Settings → Bool
is_on v = v.notify_on && is_granted v.notify_perm

notify_shown :
    (title body tag : String) (d : Desk)
    → d.visible ≡ false
    → is_some (notify title body tag d) ≡ (notify_enabled d && is_granted d.api)
unfolding notify notify_supported
notify_shown title body tag d h = ground arith

pub is_on-moves :
    (local : LocalInfo) (d : Disk) (ms : List Move)
    → All IsOffered ms
    → let (v, d') = moves ms (open_settings local d, d) in
      ((title body tag : String)
        → is_on v ≡ is_some (notify title body tag (record d'.desk { visible = false })))
      × (v.theme ≡ stored_theme d'.look)
      × (v.font_size ≡ or_fallback d'.font 14)
unfolding moves notify_enabled
is_on-moves local d ms o =
    let s = moves ms (open_settings local d, d) in
    let h = moves-IsTrue ms (open_settings local d, d) o (open-IsTrue local d) in
    (
      λ title body tag.
          ap (λ on. on && is_granted s.0.notify_perm) h.notified
          ∙ ap (λ perm. notify_enabled s.1.desk && is_granted perm) h.permitted
          ∙ sym (notify_shown title body tag (record s.1.desk { visible = false }) refl),
      h.themed,
      h.sized,
    )
