-- ===== src/Scripts/SmokeM5.antt =====
-- web/scripts/smoke-m5.mjs: input, the interruption of a command and the order of the outputs, over a direct
-- connection. What goes into the texts of the console is left out.
pub mod Endless
use remote_agent.Common.{
  ℕ, zero, suc, ◌+◌, String, Bool, true, false, not, ◌&&◌, Option, none, some, List, [], ◌∷◌, ◌++◌,
  ltb, leb, nat_eq, if◌then◌else◌,
}
use remote_agent.Common.Maps.{lookup, insert, remove}
use remote_agent.Platform.{Platform}
use remote_agent.Protocol.{
  ClientMsg, Frame, client, daemon, hello, session_create, session_attach, session_kill, input,
  session_created, session_attached, snapshot, output, frame_req_id,
}
use remote_agent.Scripts.{Node}
use remote_agent.Scripts.Parts.{Ending, running, passed, failed, includes}
use Prim.Native.Char.{code}
use Prim.Native.String.{◌++◌ as join_text}

-- Where the handler of `open` goes on when a request is answered.
pub data Await : Type 0 where
  created : Await
  attached : Await
  killed : Await

-- Where it goes on when `waitOutput` ends.
pub data Wait : Type 0 where
  warmed : Wait
  prompted : Wait
  echoed : Wait
  pinged : Wait

-- The variables of the script, the call of `waitOutput` that sleeps, and `stable` and `lastLen` of the
-- interval.
pub record SmokeM5 : Type 0 where
  pub req_id : ℕ
  pub pending : List (ℕ × Await)
  pub sid : Option String
  pub output : String
  pub last_seq : ℕ
  pub seq_ok : Bool
  pub waiting : Option Wait
  pub interval : Option (ℕ × ℕ)
  pub ending : Ending

abbrev pub started : SmokeM5
started = record {
  req_id = 0;
  pending = [];
  sid = none;
  output = "";
  last_seq = 0;
  seq_ok = true;
  waiting = none;
  interval = none;
  ending = running;
}

-- `output.length`, in units of UTF-16.
unfoldable pub units : String → ℕ
units String.[] = 0
units (String.◌∷◌ c s) = (if ltb (code c) 0x10000 then 1 else 2) + units s

unfoldable pub codes : String → List ℕ
codes String.[] = []
codes (String.◌∷◌ c s) = code c ∷ codes s

abbrev pub needle : Wait → String
needle warmed = "PS"
needle prompted = "PS"
needle echoed = "RA_M5_OK_7788"
needle pinged = "TTL="

-- `output.includes(needle)`
unfoldable pub is_found : Wait → SmokeM5 → Bool
is_found w s = includes (codes s.output) (codes (needle w))

module _ (p : Platform) (n : Node) where
  abbrev pub exits : Ending → SmokeM5 → SmokeM5 × List String
  exits e s = (record s { ending = e }, [])

  unfoldable pub request : Await → (ℕ → ClientMsg) → SmokeM5 → SmokeM5 × List String
  request k msg s =
      let id = suc s.req_id in
      (
        record s { req_id = id; pending = insert id k s.pending },
        p.stringify (client (msg id)) ∷ [],
      )

  -- `ws.send` of bytes for the session, which is there by then.
  unfoldable pub types : List ℕ → SmokeM5 → List String
  types bytes s = elim s.sid [
    | none ↦ []
    | some sid ↦ p.stringify (client (input sid (n.to_base64 bytes))) ∷ []
  ]

  abbrev pub behind : List String → SmokeM5 × List String → SmokeM5 × List String
  behind texts (s, rest) = (s, texts ++ rest)

  abbrev pub sleeps : Wait → SmokeM5 → SmokeM5 × List String
  sleeps w s = (record s { waiting = some w }, [])

  -- 2) Control-C, and the interval.
  unfoldable pub interrupt : SmokeM5 → SmokeM5 × List String
  interrupt s = (record s { interval = some (0, units s.output) }, types (3 ∷ []) s)

  -- What follows each call of `waitOutput`, with the look that it begins with.
  unfoldable pub ping : SmokeM5 → SmokeM5 × List String
  ping s =
      behind (types (n.from_text "ping -t 127.0.0.1\r") s)
        (if is_found pinged s then interrupt s else sleeps pinged s)

  unfoldable pub echo : SmokeM5 → SmokeM5 × List String
  echo s =
      behind (types (n.from_text "echo RA_M5_OK_7788\r") s)
        (if is_found echoed s then ping s else sleeps echoed s)

  unfoldable pub await_prompt : SmokeM5 → SmokeM5 × List String
  await_prompt s = if is_found prompted s then echo s else sleeps prompted s

  unfoldable pub create : SmokeM5 → SmokeM5 × List String
  create s = request created (λ id. session_create id 90 28 none none) s

  -- 3) and the end.
  unfoldable pub finish : SmokeM5 → SmokeM5 × List String
  finish s =
      if not s.seq_ok
      then exits failed s
      else (elim s.sid [ none ↦ (s, []) | some sid ↦ request killed (λ id. session_kill id sid) s ])

  unfoldable pub found : Wait → SmokeM5 → SmokeM5 × List String
  found warmed s = create s
  found prompted s = echo s
  found echoed s = ping s
  found pinged s = interrupt s

  -- The error of the first wait is caught.
  unfoldable pub lost : Wait → SmokeM5 → SmokeM5 × List String
  lost warmed s = create s
  lost _ s = exits failed s

  -- `check`, when its timer fires; `late` is whether its time is over.
  unfoldable pub check : Option Wait → (late : Bool) → SmokeM5 → SmokeM5 × List String
  check none late s = (s, [])
  check (some w) late s =
      let s' = record s { waiting = none } in
      if is_found w s then found w s' else if late then lost w s' else (s, [])

  -- The callback of the interval; the times are whether two and ten seconds are over.
  unfoldable pub tick :
      Option (ℕ × ℕ) → (past_two past_ten : Bool) → SmokeM5 → SmokeM5 × List String
  tick none past_two past_ten s = (s, [])
  tick (some (stable, last_len)) past_two past_ten s =
      if ltb last_len (units s.output)
      then (record s { interval = some (0, units s.output) }, [])
      else if leb 15 (suc stable) && past_two
      then finish (record s { interval = none })
      else if past_ten
      then exits failed (record s { interval = none })
      else (record s { interval = some (suc stable, last_len) }, [])

  unfoldable pub resume : Await → Frame → SmokeM5 → SmokeM5 × List String
  resume created (daemon (session_created r sid)) s =
      request attached (λ id. session_attach id sid) (record s { sid = some sid })
  resume attached (daemon (session_attached r sid)) s = await_prompt s
  resume killed m s = exits passed s
  resume _ m s = exits failed s

  unfoldable pub on_data : Frame → SmokeM5 → SmokeM5
  on_data (daemon (output sid seq data64)) s = record s {
    seq_ok = if leb seq s.last_seq then false else s.seq_ok;
    last_seq = seq;
    output = join_text s.output (n.to_text (n.from_base64 data64));
  }
  on_data (daemon (snapshot sid seq data64)) s = record s {
    last_seq = seq;
    output = n.to_text (n.from_base64 data64);
  }
  on_data m s = s

  unfoldable pub on_frame : Frame → SmokeM5 → SmokeM5 × List String
  on_frame m s = elim (frame_req_id m) [
    | none ↦ (on_data m s, [])
    | some id ↦ elim (lookup id s.pending) [
      | none ↦ (on_data m s, [])
      | some k ↦ resume k m (record s { pending = remove id s.pending })
    ]
  ]

  unfoldable pub on_message : String → SmokeM5 → SmokeM5 × List String
  on_message raw s = elim (p.parse raw) [ none ↦ exits failed s | some m ↦ on_frame m s ]

  -- `waitOutput('PS', 5000)` begins with a look.
  unfoldable pub on_open : SmokeM5 → SmokeM5 × List String
  on_open s =
      behind (p.stringify (client (hello "smoke-m5" none)) ∷ [])
        (if is_found warmed s then create s else sleeps warmed s)

pub data Input : Type 0 where
  opens : Input
  message : String → Input
  wakes : (late : Bool) → Input
  ticks : (past_two past_ten : Bool) → Input
  errs : Input

module _ (p : Platform) (n : Node) where
  unfoldable pub act : Input → SmokeM5 → SmokeM5 × List String
  act opens s = on_open p n s
  act (message raw) s = on_message p n raw s
  act (wakes late) s = check p n s.waiting late s
  act (ticks past_two past_ten) s = tick p n s.interval past_two past_ten s
  act errs s = exits p n failed s

  unfoldable pub step : Input → SmokeM5 → SmokeM5 × List String
  step i s = elim s.ending [ running ↦ act i s | passed ↦ (s, []) | failed ↦ (s, []) ]
