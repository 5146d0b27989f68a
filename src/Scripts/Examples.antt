-- ===== src/Scripts/Examples.antt =====
-- Runs of the smoke tests, and the theorems about them at concrete inputs.
use remote_agent.Common.{
  ℕ, ◌≡◌, refl, String, true, false, none, some, List, [], ◌∷◌, is_some, ap, subst, ◌==◌, string_eq,
  arith, if◌then◌else◌,
}
use remote_agent.Platform.{Platform}
use remote_agent.Platform.Sample.{sample_runs}
use remote_agent.Protocol.{
  daemon, hello_ack, session_list_result, session_created, session_attached, output, session_exited,
  enc,
}
use remote_agent.E2e.{E2eClient, finish, open_envelope}
use remote_agent.Scripts.Sample.{browser, node, browser-IsStandard, browser-node-IsSame}
use remote_agent.Common.{replicate}
use remote_agent.Common.Maps.{lookup, insert, remove}
use remote_agent.Scripts.{has_mark}
use remote_agent.Scripts.Cipher.{finish_handshake, unseal, unseal_frame, seal}
use remote_agent.Scripts.Agreement.{told, read_as, finish-finish_handshake, open_envelope-unseal}
use remote_agent.Scripts.Parts.{passed, includes, begins_with, has_prompt}
use remote_agent.Scripts.SmokeWs
use remote_agent.Scripts.SmokeWs.{World, mark, step, Runs, start, next, opens, message}
use remote_agent.Scripts.SmokeWs.Verdict.{Runs-passed}

abbrev private_key : List ℕ
private_key = 5 ∷ replicate 31 1

abbrev proved : E2eClient
proved = record { key = none; priv = some private_key }

abbrev key_text : String
key_text = node.to_base64 (1 ∷ 2 ∷ [])

key_read : browser.atob key_text ≡ some (1 ∷ 2 ∷ [])
unfolding sample_runs
key_read = refl

-- An answer with a wrong MAC.
finish-finish_handshake_example :
    finish browser proved "xy" key_text key_text
    ≡ told (finish_handshake browser node "xy" (some private_key) key_text key_text)
finish-finish_handshake_example =
    finish-finish_handshake browser node browser-IsStandard browser-node-IsSame proved "xy"
      private_key key_text key_text (1 ∷ 2 ∷ []) (1 ∷ 2 ∷ []) refl key_read key_read refl
      (omega arith)

-- A daemon that echoes.
abbrev frames : Platform
frames = record browser {
  parse = λ t.
      if t == "h"
      then some (daemon (hello_ack "y"))
      else if t == "l"
      then some (daemon (session_list_result 1 []))
      else if t == "c"
      then some (daemon (session_created 2 "s"))
      else if t == "a"
      then some (daemon (session_attached 3 "s"))
      else if t == "o"
      then some (daemon (output "s" 1 (node.to_base64 (node.from_text "$ echo ra_smoke_ok_9417"))))
      else if t == "e"
      then some (daemon (session_exited "s" none))
      else none;
}

abbrev world : World
world = record {
  platform = frames;
  node = node;
  device = "y";
  token = "";
  nonce = λ n. n ∷ [];
  draw = 5 ∷ [];
}

abbrev smoke : SmokeWs.SmokeWs
smoke =
    (step world (message "e")
      (step world (message "o")
        (step world (message "a")
          (step world (message "c")
            (step world (message "l") (step world (message "h") SmokeWs.started).0).0).0).0).0).0

smoke-Runs : Runs world smoke
smoke-Runs = next (message "e") (
    next (message "o")
      (next (message "a") (next (message "c") (next (message "l") (next (message "h") start)))))

runs : Unit {0}
unfolding step SmokeWs.act SmokeWs.on_message SmokeWs.read SmokeWs.on_frame SmokeWs.answer
    SmokeWs.resume SmokeWs.request SmokeWs.main SmokeWs.on_hello_ack SmokeWs.on_data
    SmokeWs.accumulate SmokeWs.finish SmokeWs.look SmokeWs.type_line unseal unseal_frame seal lookup
    insert remove includes begins_with has_prompt sample_runs
runs = tt

smoke_ending : smoke.ending ≡ passed
unfolding runs
smoke_ending = refl

Runs-passed_example :
    ((sid : String) × (smoke.session_id ≡ some sid))
    × (includes smoke.out_buf (node.from_text mark) ≡ true)
    × ((world.token == "") ≡ false → is_some smoke.key ≡ true)
Runs-passed_example = Runs-passed world smoke-Runs smoke_ending

-- An envelope of twelve and of seventeen bytes.
abbrev nonce : List ℕ
nonce = replicate 12 1

abbrev sealed : List ℕ
sealed = 120 ∷ replicate 16 0

abbrev envelope : String
envelope = browser.stringify (enc (node.to_base64 nonce) (node.to_base64 sealed))

nonce_read : browser.atob (node.to_base64 nonce) ≡ some nonce
unfolding sample_runs
nonce_read = refl

sealed_read : browser.atob (node.to_base64 sealed) ≡ some sealed
unfolding sample_runs
sealed_read = refl

unmarked : (pt : List ℕ) → browser.decrypt (1 ∷ []) nonce sealed ≡ some pt → has_mark pt ≡ false
unmarked pt e =
    let one : 120 ∷ [] ≡ pt = ap (λ o. elim o [ none ↦ [] | some bs ↦ bs ]) e in
    subst (λ bs. has_mark bs ≡ false) one refl

open_envelope-unseal_example :
    open_envelope browser (record { key = some (1 ∷ []); priv = none }) envelope
    ≡ read_as (unseal browser node (some (1 ∷ [])) envelope)
open_envelope-unseal_example =
    open_envelope-unseal browser node browser-IsStandard browser-node-IsSame
      (record { key = some (1 ∷ []); priv = none }) (1 ∷ []) envelope (node.to_base64 nonce)
      (node.to_base64 sealed) nonce sealed refl
      (browser-IsStandard.parse-stringify (enc (node.to_base64 nonce) (node.to_base64 sealed)) refl)
      nonce_read sealed_read (omega arith) (omega arith) (λ pt e. unmarked pt e)
