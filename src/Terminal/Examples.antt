-- ===== src/Terminal/Examples.antt =====
-- Histories of the component, and the theorems at them.
use remote_agent.Common.{◌≡◌, ◌≢◌, refl, String, true, false, none, some, [], ◌∷◌, string_eq, ◌==◌}
use remote_agent.Common.Maps.{lookup}
use remote_agent.Protocol.{SessionInfo, daemon, session_list_result}
use remote_agent.Connection.{
  Connection, Event, new_connection, connecting, ready, disconnected, attach, connect,
}
use remote_agent.Connection
use remote_agent.Connection.Steps.{step}
use remote_agent.Terminal.{App, TermEntry, start, request, booting, restoring}
use remote_agent.Terminal.Restore.{restore_activates_last, reattach}
use remote_agent.Terminal.Screen.{view, snapshot, output, mount, frame, receive_all, follow_all}
use remote_agent.Terminal.Sessions.{resume}
use remote_agent.Terminal.Stream.{view-receive_all}

abbrev begin : App
begin = start none true

runs : Unit {0}
unfolding start Connection.close connect new_connection step
runs = tt

texts_differ : (s t : String) → (s == t) ≡ false → s ≢ t
texts_differ s t differ e = let same : (s == t) ≡ true = (string_eq.decides s t).1 e in cc

begin_tidy :
    (sid : String) (e : TermEntry)
    → lookup sid begin.terms ≡ some e
    → lookup sid begin.pending ≡ none
unfolding runs lookup
begin_tidy sid e h = refl

-- A replayed output, one that is new, the terminal, and one more.
view-receive_all_example :
    let is =
      output "a" (1 ∷ []) 1
      ∷ snapshot "a" (2 ∷ []) 4
      ∷ output "a" (3 ∷ []) 4
      ∷ output "a" (5 ∷ []) 5
      ∷ mount "a"
      ∷ output "b" (6 ∷ []) 1
      ∷ frame "a"
      ∷ output "a" (7 ∷ []) 6
      ∷ [] in
    view "a" (receive_all (80, 24) (λ s. (80, 24)) is begin) ≡ follow_all "a" is (view "a" begin)
view-receive_all_example = view-receive_all (80, 24) (λ s. (80, 24)) "a" _ begin begin_tidy

abbrev session : String → SessionInfo
session id = record {
  id = id;
  cmd = "sh";
  started_at = 0;
  agent = none;
  agent_status = none;
  agent_detail = none;
}

-- The connection was lost while the first of two sessions was active.
abbrev lost : App
lost = record begin {
  bootstrapped = true;
  active = some "a";
  sessions = session "a" ∷ session "b" ∷ [];
}

restore_activates_last_example :
    let answer = daemon (session_list_result 7 (session "a" ∷ session "b" ∷ [])) in
    let listed = (resume booting answer lost).0 in
    ((resume booting answer lost).1
      ≡ request (attach "a") (restoring "a" ("b" ∷ []) (session "a" ∷ session "b" ∷ [])) ∷ [])
    × ((reattach "a" ("b" ∷ []) (session "a" ∷ session "b" ∷ []) listed).active ≡ some "b")
restore_activates_last_example =
    restore_activates_last (session "a") (session "b" ∷ []) 7 lost refl (texts_differ "b" "" refl)

abbrev showing : App
showing = record lost {
  terms = ("a", record { calls = []; cols = 80; rows = 24; ended = false }) ∷ [];
}
