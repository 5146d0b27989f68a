-- ===== src/Panel.antt =====
-- The panel of the desktop program: web/src/Shell.tsx and web/src/pages. What the daemon reports is as
-- in web/src/pages/types.ts; a page is a state with handlers, and a list of what it shows.
pub mod View
pub mod Times
pub mod Agents
pub mod Hero
pub mod Poll
pub mod Route
pub mod SessionsPage
pub mod Overview
pub mod OverviewView
pub mod Pull
pub mod RelayPage
pub mod RelayView
pub mod ClientRelays
pub mod Settings
pub mod Switches
pub mod SettingsView
pub mod Wizard
pub mod PairLink
pub mod Overlap
pub mod Devices
pub mod ConnectView
mod Examples
use remote_agent.Common.{ℕ, String, Bool, Option, List}

pub record RelayConfig : Type 0 where
  pub name : String
  pub url : String

pub record LocalInfo : Type 0 where
  pub device_id : String
  pub access_token : String
  pub relay_url : Option String
  pub relay_name : String
  pub relay_online : Bool
  pub relay_note : String
  pub relay_connected_at : ℕ
  pub relay_viewers : Option ℕ
  pub relays : List RelayConfig
  pub active_relay : Option String
  pub autostart : Option Bool

pub record DeviceEntry : Type 0 where
  pub device_id : String
  pub online : Bool
  pub viewers : Option ℕ

pub record SessionRow : Type 0 where
  pub id : String
  pub cmd : String
  pub started_at : ℕ
  pub agent : Option String
  pub agent_status : Option String
  pub agent_detail : Option String

-- What the pages use of JavaScript: String(n) of a number, `slice`, `toLowerCase`, `includes`, `trim`,
-- the test /\s/, and the number of UTF-16 units of a text.
pub record Texts : Type 0 where
  pub print : ℕ → String
  pub slice : String → ℕ → ℕ → String
  pub lower : String → String
  pub includes : (text part : String) → Bool
  pub trim : String → String
  pub has_space : String → Bool
  pub size : String → ℕ
