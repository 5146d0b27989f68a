-- ===== src/Terminal/Screen.antt =====
-- The output that a session shows: what was written to its terminal since the last reset, or what is
-- buffered until the terminal is there; and the stream of a session, which knows nothing of terminals.
use remote_agent.Common.{
  ℕ, String, Option, none, some, or_else, List, [], ◌∷◌, ◌++◌, ◌==◌, string_eq, if◌then◌else◌,
}
use remote_agent.Common.Maps.{lookup}
use remote_agent.Terminal.{App, TermEntry, TermCall, reset, write}
use remote_agent.Terminal.Handlers.{on_snapshot, on_output, is_stale}
use remote_agent.Terminal.Input.{on_mount, on_fit_frame}

-- The chunks of session output on the screen after the calls.
unfoldable pub painted_from : List (List ℕ) → List TermCall → List (List ℕ)
painted_from chunks [] = chunks
painted_from chunks (reset ∷ calls) = painted_from [] calls
painted_from chunks (write bytes ∷ calls) = painted_from (chunks ++ bytes ∷ []) calls
painted_from chunks (_ ∷ calls) = painted_from chunks calls

-- A session's stream: the number of the last chunk taken, and the chunks since the last snapshot.
pub record Stream : Type 0 where
  pub base : Option ℕ
  pub chunks : List (List ℕ)

abbrev pub shown : Option TermEntry → Option (List (List ℕ)) → List (List ℕ)
shown (some e) buffered = painted_from [] e.calls
shown none buffered = or_else buffered []

-- The stream of `sid` that the component stands for.
abbrev pub view : String → App → Stream
view sid a = record {
  base = lookup sid a.last_seq;
  chunks = shown (lookup sid a.terms) (lookup sid a.pending);
}

-- What reaches the stream of a session.
pub data Input : Type 0 where
  snapshot output : String → List ℕ → ℕ → Input
  mount frame : String → Input

-- The rules of a stream: a snapshot replaces it, an output that is newer extends it, and the terminal
-- that shows it makes no difference.
unfoldable pub follow : String → Input → Stream → Stream
follow sid (snapshot s bytes seq) v =
    if s == sid then record { base = some seq; chunks = bytes ∷ [] } else v
follow sid (output s bytes seq) v =
    if s == sid
    then (if is_stale v.base seq
        then v
        else record { base = some seq; chunks = v.chunks ++ bytes ∷ [] })
    else v
follow sid _ v = v

-- What the component does; `size` and `measure` are what xterm and the page answer.
module _ (size : ℕ × ℕ) (measure : String → ℕ × ℕ) where
  unfoldable pub receive : Input → App → App
  receive (snapshot s bytes seq) a = (on_snapshot s bytes seq a).0
  receive (output s bytes seq) a = (on_output s bytes seq a).0
  receive (mount s) a = (on_mount size s a).0
  receive (frame s) a = on_fit_frame measure s a

  unfoldable pub receive_all : List Input → App → App
  receive_all [] a = a
  receive_all (i ∷ is) a = receive_all is (receive i a)

unfoldable pub follow_all : String → List Input → Stream → Stream
follow_all sid [] v = v
follow_all sid (i ∷ is) v = follow_all sid is (follow sid i v)
