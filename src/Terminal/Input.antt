-- ===== src/Terminal/Input.antt =====
-- Keys, the mode switch, the font size, the size of the window, and the mount of a terminal.
use Prim.Native.Char.{code}
use Prim.Native.String.{◌++◌ as ◌+++◌}
use remote_agent.Common.{
  ℕ, ◌+◌, ◌-◌, min, max, String, Bool, false, not, ◌&&◌, ◌||◌, Option, none, some, List, [], ◌∷◌,
  map, leb, ltb, ◌==◌, nat_eq, string_eq, if◌then◌else◌,
}
use remote_agent.Common.Maps.{lookup, remove}
use remote_agent.Platform.{Platform}
use remote_agent.Protocol.{input, resize}
use remote_agent.Protocol.Codec.{b64encode}
use remote_agent.Terminal.{
  App, TermEntry, write, font_size, fit, focus, called, Act, send, toast, set_item, fit_frame,
  font_size,
}
use remote_agent.Connection.{truthy}
use remote_agent.Terminal.Handlers.{set_entry, line_end}

-- `Number(localStorage.getItem(…)) || fallback`, where a text that is no number counts as 0.
abbrev pub or_fallback : ℕ → ℕ → ℕ
or_fallback n fallback = if n == 0 then fallback else n

-- setMode
unfoldable pub set_mode : Bool → App → App × List Act
set_mode v a = (record a { takeover = v }, [])

-- `activeRef.current === sid`
abbrev pub is_active : Option String → String → Bool
is_active none sid = false
is_active (some s) sid = s == sid

-- /^[\x20-\x7e\u4e00-\u9fa5]$/: one character, printable ASCII or a common ideograph.
unfoldable pub is_printable : String → Bool
is_printable (String.◌∷◌ c String.[]) =
    leb 0x20 (code c) && leb (code c) 0x7e || leb 0x4e00 (code c) && leb (code c) 0x9fa5
is_printable _ = false

module _ (p : Platform) where
  -- sendRaw
  unfoldable pub send_raw : String → App → List Act
  send_raw bytes a = elim (truthy a.active) [
    | none ↦ []
    | some sid ↦ send (input sid (b64encode p bytes)) ∷ []
  ]

  -- The `onData` callback of the terminal of `sid`: a key in observing mode is swallowed, with a
  -- hint at most every four seconds for a printable one. `now` is Date.now().
  unfoldable pub on_data : (sid keys : String) (now : ℕ) → App → App × List Act
  on_data sid keys now a =
      if not a.takeover
      then (if is_printable keys && ltb 4000 (now - a.last_hint)
          then (record a { last_hint = now }, toast "👁 观察模式：输入已拦截，点「⌨ 接管」后可输入" ∷ [])
          else (a, []))
      else (
        a,
        elim (lookup sid a.terms) [
          | none ↦ []
          | some e ↦
              if is_active a.active sid && not e.ended
              then send (input sid (b64encode p keys)) ∷ []
              else []
        ],
      )

  -- sendMobileLine: the line of the input bar with a carriage return, and the bar is emptied.
  unfoldable pub send_mobile_line : (line : String) → App → String × List Act
  send_mobile_line line a = if line == "" then (line, []) else ("", send_raw (line +++ line_end) a)

-- A terminal's new size after `fit.fit()`; xterm and its addon measure it.
abbrev pub resized : TermEntry → ℕ × ℕ → TermEntry
resized e size = record (called e fit) { cols = size.0; rows = size.1 }

-- The font size of the next step, between 10 and 22; `up` and `down` are the two buttons' deltas.
unfoldable pub next_font : (stored up down : ℕ) → ℕ
next_font stored up down = min 22 (max 10 (or_fallback stored 14 + up - down))

-- The effect of `adjustFont` on each entry, in the loop over the terminals.
pub refit_all :
    (measure : String → ℕ × ℕ) → ℕ → List (String × TermEntry) → List (String × TermEntry)
refit_all measure font [] = []
refit_all measure font ((sid, e) ∷ m) =
    (sid, resized (called e (font_size font)) (measure sid)) ∷ refit_all measure font m

-- `conn.send({ t: 'resize', … })` for an entry's size.
abbrev pub send_size : String → TermEntry → List Act
send_size sid e = send (resize sid e.cols e.rows) ∷ []

-- adjustFont
unfoldable pub adjust_font :
    (measure : String → ℕ × ℕ) → (stored up down : ℕ) → App → App × List Act
adjust_font measure stored up down a =
    let font = next_font stored up down in
    let a' = record a { terms = refit_all measure font a.terms } in
    (
      a',
      set_item "ra.termFontSize" font ∷ (elim (truthy a'.active) [
        | none ↦ []
        | some sid ↦ elim (lookup sid a'.terms) [ none ↦ [] | some e ↦ send_size sid e ]
      ]),
    )

-- The ResizeObserver: the active terminal is fitted, and a changed size is sent.
unfoldable pub on_resize : (measure : String → ℕ × ℕ) → App → App × List Act
on_resize measure a = elim (truthy a.active) [
  | none ↦ (a, [])
  | some sid ↦ elim (lookup sid a.terms) [
    | none ↦ (a, [])
    | some e ↦
        let e' = resized e (measure sid) in
        (
          set_entry sid e' a,
          if e'.cols == e.cols && e'.rows == e.rows then [] else send_size sid e',
        )
  ]
]

-- The effect of a switch to the session `sid`, in its animation frame.
unfoldable pub on_switch : (measure : String → ℕ × ℕ) → String → App → App × List Act
on_switch measure sid a = elim (if sid == "" then none else lookup sid a.terms) [
  | none ↦ (a, [])
  | some e ↦
      let e' = called (resized e (measure sid)) focus in
      (set_entry sid e' a, if e'.ended then [] else send_size sid e')
]

-- The animation frame that a mount asks for: the terminal is fitted and focused.
unfoldable pub on_fit_frame : (measure : String → ℕ × ℕ) → String → App → App
on_fit_frame measure sid a = elim (lookup sid a.terms) [
  | none ↦ a
  | some e ↦ set_entry sid (called (resized e (measure sid)) focus) a
]

-- hostCallback with an element: a new terminal, of the size that xterm gives it, is opened for `sid`,
-- and what was buffered is written to it in order. With the terminal there already nothing happens.
unfoldable pub on_mount : (size : ℕ × ℕ) → String → App → App × List Act
on_mount size sid a = elim (lookup sid a.terms) [
  | some e ↦ (a, [])
  | none ↦
      let e : TermEntry = record { calls = []; cols = size.0; rows = size.1; ended = false } in
      let acts = if is_active a.active sid then fit_frame sid ∷ [] else [] in
      elim (lookup sid a.pending) [
        | none ↦ (set_entry sid e a, acts)
        | some chunks ↦ (
          set_entry sid (record e { calls = map write chunks })
              (record a { pending = remove sid a.pending }),
          acts,
        )
      ]
]
