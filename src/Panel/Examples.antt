-- ===== src/Panel/Examples.antt =====
-- Visits to the panel, and the theorems at them.
use Prim.Native.String.{◌++◌ as ◌+++◌}
use mathlib.Core.List.{Memᴰ}
use remote_agent.Common.{
  ℕ, ◌≡◌, ◌↔◌, String, true, false, none, some, is_some, List, [], ◌∷◌, any, All, ◌==◌, nat_eq,
  string_eq, if◌then◌else◌, arith,
}
use remote_agent.Browser.Notify.{granted, default_permission, notify}
use remote_agent.Browser.Theme.{light, stored_theme}
use remote_agent.Panel.{LocalInfo, SessionRow, Texts}
use remote_agent.Panel.Agents.{has_agent, pick_hero}
use remote_agent.Panel.Hero.{pick_hero_best, IsBehind}
use remote_agent.Panel.Route.{unread}
use remote_agent.Panel.Settings
use remote_agent.Panel.Settings.{Disk, Move, picks_theme, toggles_notify, sets_font, open_settings}
use remote_agent.Panel.Switches.{is_on, is_on-moves}
use remote_agent.Terminal.Input.{or_fallback}

abbrev texts : Texts
texts = record {
  print = λ n. if n == 0 then "0" else "1";
  slice = λ s from to. s;
  lower = λ s. s;
  includes = λ s part. s == part;
  trim = λ s. s;
  has_space = λ s. false;
  size = λ s. 9;
}

abbrev row : (id status : String) → (started : ℕ) → SessionRow
row id status started = record {
  id = id;
  cmd = "codex";
  started_at = started;
  agent = some "codex";
  agent_status = some status;
  agent_detail = none;
}

-- One that has ended, two that work, and one without an agent.
abbrev rows : List SessionRow
rows =
    row "a" "finished" 9
    ∷ row "b" "working" 3
    ∷ row "c" "working" 5
    ∷ record (row "d" "working" 7) { agent = none }
    ∷ []

pick_hero_best_example :
    ((h : SessionRow)
      → pick_hero rows ≡ some h
      → Memᴰ h rows × (has_agent h ≡ true) × All (λ t. has_agent t ≡ true → IsBehind t h) rows)
    × ((pick_hero rows ≡ none) ↔ (any has_agent rows ≡ false))
pick_hero_best_example = pick_hero_best rows

abbrev home : LocalInfo
home = record unread {
  device_id = "123";
  access_token = "secret12";
  relay_url = some ("wss://" +++ ("r.example" +++ "/ws"));
}

abbrev disk : Disk
disk = record {
  font = 0;
  scrollback = none;
  look = record { stored = none; prefers_light = false; shade = none };
  desk = record { setting = none; api = some default_permission; visible = true };
}

abbrev uses : List Move
uses = toggles_notify granted ∷ picks_theme light ∷ sets_font 16 ∷ []

is_on-moves_example :
    let (v, d) = Settings.moves uses (open_settings home disk, disk) in
    ((title body tag : String)
      → is_on v ≡ is_some (notify title body tag (record d.desk { visible = false })))
    × (v.theme ≡ stored_theme d.look)
    × (v.font_size ≡ or_fallback d.font 14)
is_on-moves_example = is_on-moves home disk uses (tt, (tt, ((omega arith, omega arith), tt)))
