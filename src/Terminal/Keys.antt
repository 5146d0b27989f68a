-- ===== src/Terminal/Keys.antt =====
-- Keys in observing and in takeover mode.
use remote_agent.Common.{
  ℕ, ◌≡◌, String, Bool, true, false, not, ◌&&◌, Option, none, some, [], ◌∷◌, any, string_eq, arith,
}
use remote_agent.Common.Maps.{lookup}
use remote_agent.Platform.{Platform}
use remote_agent.Protocol.{input}
use remote_agent.Protocol.Codec.{b64encode}
use remote_agent.Terminal.{App, TermEntry, Act, send}
use remote_agent.Terminal.Input.{is_active, on_data}

abbrev pub is_send : Act → Bool
is_send (send m) = true
is_send _ = false

-- The session's terminal is there and its process still runs.
abbrev pub is_running : Option TermEntry → Bool
is_running none = false
is_running (some e) = not e.ended

module _ (p : Platform) where
  -- A key goes out, unchanged and to its own session, exactly when the component has taken over and
  -- the session is the active one, with its terminal there and its process running; and no key ever
  -- changes anything of the state but the time of the last hint.
  pub on_data_sends :
      (sid keys : String) (now : ℕ) (a : App)
      → let acts = (on_data p sid keys now a).1 in
        (any is_send acts
          ≡ (a.takeover && (is_running (lookup sid a.terms) && is_active a.active sid)))
        × (any is_send acts ≡ true → acts ≡ send (input sid (b64encode p keys)) ∷ [])
        × ((on_data p sid keys now a).0
            ≡ record a { last_hint = (on_data p sid keys now a).0.last_hint })
  unfolding on_data
  on_data_sends sid keys now a = (ground arith, λ h. ground arith, ground arith)
