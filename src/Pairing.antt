-- ===== src/Pairing.antt =====
-- How a user comes to a connection: web/src/lib/relays.ts, web/src/lib/target.ts and the handlers of
-- web/src/Connect.tsx. The browser's address, its storage and the parsers of texts are parameters.
pub mod Texts
pub mod Relays
pub mod Target
pub mod Links
pub mod Page
pub mod Memory
pub mod Arrival
pub mod Sample
mod Examples
use remote_agent.Common.{ℕ, String, Bool, Option, List}

-- An address as URL and `location` give it: `search` and `hash` with their first character.
pub record Address : Type 0 where
  pub is_https : Bool
  pub host : String
  pub origin : String
  pub pathname : String
  pub search : String
  pub hash : String

pub record ClientRelay : Type 0 where
  pub url : String
  pub name : Option String

-- An element of a stored array: one with a `url` that is a string, or anything else.
pub data Entry : Type 0 where
  relay : ClientRelay → Entry
  junk : Entry

pub record SavedConn : Type 0 where
  pub url : String
  pub relay_host : String
  pub device_id : String
  pub saved_at : ℕ

-- What the client uses of the browser. `read_` is JSON.parse with a test for an array, `write_` is
-- JSON.stringify; URLSearchParams is a list of pairs.
pub record Site : Type 0 where
  pub trim : String → String
  pub parse_url : String → Option Address
  pub read_params : String → List (String × String)
  pub write_params : List (String × String) → String
  pub read_relays : String → Option (List Entry)
  pub write_relays : List ClientRelay → String
  pub read_conns : String → Option (List SavedConn)
  pub write_conns : List SavedConn → String

-- localStorage, by the keys that these files use.
pub record Store : Type 0 where
  pub relays : Option String
  pub last_relay : Option String
  pub conns : Option String
