-- ===== src/Terminal/Restore.antt =====
-- What becomes of the sessions when a connection comes back.
use remote_agent.Common.{
  ℕ, ◌≡◌, ◌≢◌, refl, String, true, some, List, [], ◌∷◌, ==_refl, ==_ne, string_eq, arith,
}
use remote_agent.Protocol.{SessionInfo, Frame, daemon, session_list_result, session_attached}
use remote_agent.Connection.{attach}
use remote_agent.Terminal.{App, request, booting, restoring}
use remote_agent.Terminal.Sessions.{
  attached, is_listed, choose_active, restore, ids, booted, resume, on_listed,
}

-- The daemon's consent to an attachment.
abbrev pub consent : Frame
consent = daemon (session_attached 0 "")

-- The loop of `bootstrap` where every attachment is answered by a consent.
unfoldable pub reattach : String → List String → List SessionInfo → App → App
reattach sid [] sessions a = (resume (restoring sid [] sessions) consent a).0
reattach sid (next ∷ rest) sessions a =
    reattach next rest sessions (resume (restoring sid (next ∷ rest) sessions) consent a).0

abbrev pub last_of : String → List String → String
last_of sid [] = sid
last_of sid (next ∷ rest) = last_of next rest

-- Each answer of the loop asks for the next attachment.
resume_restoring :
    (sid next : String) (rest : List String) (sessions : List SessionInfo) (f : Frame) (a : App)
    → (resume (restoring sid (next ∷ rest) sessions) f a).1
      ≡ request (attach next) (restoring next rest sessions) ∷ []
unfolding resume restore
resume_restoring sid next rest sessions f a = refl

attached_active : (sid : String) (a : App) → (attached sid consent a).active ≡ some sid
unfolding attached
attached_active sid a = refl

choose_listed :
    (sessions : List SessionInfo) (a : App) (sid : String)
    → a.active ≡ some sid
    → is_listed (some sid) sessions ≡ true
    → sid ≢ ""
    → (choose_active sessions a).active ≡ some sid
unfolding choose_active
choose_listed sessions a sid e listed nonempty = ground (arith, ==_ne sid "" nonempty)

reattach_last :
    (sid : String) (rest : List String) (sessions : List SessionInfo) (a : App)
    → is_listed (some (last_of sid rest)) sessions ≡ true
    → last_of sid rest ≢ ""
    → (reattach sid rest sessions a).active ≡ some (last_of sid rest)
unfolding reattach resume restore
reattach_last sid [] sessions a listed nonempty =
    choose_listed sessions (attached sid consent a) sid (attached_active sid a) listed nonempty
reattach_last sid (next ∷ rest) sessions a listed nonempty =
    reattach_last next rest sessions (attached sid consent a) listed nonempty

last_listed :
    (s : SessionInfo) (ss : List SessionInfo)
    → is_listed (some (last_of s.id (ids ss))) (s ∷ ss) ≡ true
last_listed s [] = rw (==_refl s.id)
last_listed s (t ∷ ss) = ground (arith, last_listed t ss)

-- A connection that comes back, with every attachment granted, ends on the last session of the list,
-- whichever session was active before: each attachment of the loop makes its session the active one
-- before the remembered one is looked up.
pub restore_activates_last :
    (s : SessionInfo) (ss : List SessionInfo) (r : ℕ) (a : App)
    → a.bootstrapped ≡ true
    → last_of s.id (ids ss) ≢ ""
    → let answer = daemon (session_list_result r (s ∷ ss)) in
      let listed = (resume booting answer a).0 in
      ((resume booting answer a).1 ≡ request (attach s.id) (restoring s.id (ids ss) (s ∷ ss)) ∷ [])
      × ((reattach s.id (ids ss) (s ∷ ss) listed).active ≡ some (last_of s.id (ids ss)))
unfolding resume booted restore
restore_activates_last s ss r a booted_before nonempty =
    (ground arith, reattach_last s.id (ids ss) (s ∷ ss) _ (last_listed s ss) nonempty)

-- After the effect on a changed list, an active session is one of the list, unless the list is empty.
pub on_listed_listed :
    (a : App) (s : SessionInfo) (ss : List SessionInfo) (sid : String)
    → a.sessions ≡ s ∷ ss
    → a.active ≡ some sid
    → sid ≢ ""
    → is_listed (on_listed a).active a.sessions ≡ true
unfolding on_listed
on_listed_listed a s ss sid e e' nonempty = ground (arith, ==_ne sid "" nonempty, ==_refl s.id)
