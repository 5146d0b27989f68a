-- ===== src/Scripts/SmokeMulti.antt =====
-- web/scripts/smoke-multi.mjs: two sessions side by side. What only goes into the texts of the console, such
-- as `phase`, is left out.
use remote_agent.Common.{
  ℕ, zero, suc, String, Bool, ◌&&◌, Option, none, some, List, [], ◌∷◌, ◌++◌, ◌==◌, ltb, nat_eq,
  string_eq, or_else, if◌then◌else◌,
}
use remote_agent.Common.Maps.{lookup, insert, remove}
use remote_agent.Protocol.{
  SessionInfo, ClientMsg, Frame, client, daemon, hello, session_list, session_create,
  session_attach, session_kill, input, hello_ack, auth_ok, session_list_result, session_created,
  session_attached, snapshot, output, error, frame_req_id,
}
use remote_agent.Connection.{truthy}
use remote_agent.Scripts.Cipher.{
  keyed, mismatch, crashed, null, opened, broken, start_handshake, finish_handshake, seal, unseal,
}
use remote_agent.Scripts.Parts.{Ending, running, passed, failed, includes, has_prompt}
use remote_agent.Scripts.SmokeWs.{World}

-- Where `main` goes on when a request is answered.
pub data Await : Type 0 where
  listed : Await
  cleared : List SessionInfo → Await
  created : ℕ → Await
  attached : ℕ → Await
  killed : Await

-- Where `main` goes on when a `setTimeout` is over; the number is the round of its loop.
pub data Timer : Type 0 where
  prompt : (which : ℕ) (round : ℕ) → Timer
  echo : (round : ℕ) → Timer
  pause : Timer
  alive : (round : ℕ) → Timer

pub record SmokeMulti : Type 0 where
  pub req_id : ℕ
  pub pending : List (ℕ × Await)
  pub out : List (String × List ℕ)
  pub key : Option (List ℕ)
  pub kp : Option (List ℕ)
  pub sids : List String
  pub timers : List (ℕ × Timer)
  pub next_timer : ℕ
  pub drawn : ℕ
  pub ending : Ending

abbrev pub started : SmokeMulti
started = record {
  req_id = 0;
  pending = [];
  out = [];
  key = none;
  kp = none;
  sids = [];
  timers = [];
  next_timer = 0;
  drawn = 0;
  ending = running;
}

-- marks
abbrev pub mark_a : String
mark_a = "ra_multi_A"

abbrev pub mark_b : String
mark_b = "ra_multi_B"

-- `sids[i]`
abbrev pub sid_at : List String → ℕ → Option String
sid_at [] i = none
sid_at (sid ∷ sids) zero = some sid
sid_at (sid ∷ sids) (suc i) = sid_at sids i

-- `out.get(sid) ?? Buffer.alloc(0)`
unfoldable pub heard : List (String × List ℕ) → Option String → List ℕ
heard out none = []
heard out (some sid) = or_else (lookup sid out) []

module _ (o : World) where
  abbrev pub exits : Ending → SmokeMulti → SmokeMulti × List String
  exits e s = (record s { ending = e }, [])

  unfoldable pub sends : ClientMsg → SmokeMulti → SmokeMulti × List String
  sends msg s = (
    record s { drawn = suc s.drawn },
    seal o.platform o.node s.key (o.nonce s.drawn) (client msg) ∷ [],
  )

  unfoldable pub request : Await → (ℕ → ClientMsg) → SmokeMulti → SmokeMulti × List String
  request k msg s =
      let id = suc s.req_id in
      sends (msg id) (record s { req_id = id; pending = insert id k s.pending })

  unfoldable pub sleep : Timer → SmokeMulti → SmokeMulti × List String
  sleep t s =
      (record s { timers = (s.next_timer, t) ∷ s.timers; next_timer = suc s.next_timer }, [])

  -- `ws.send` of a line for one of the sessions, which both are there by then.
  unfoldable pub types : ℕ → String → SmokeMulti → SmokeMulti × List String
  types i text s = elim (sid_at s.sids i) [
    | none ↦ (s, [])
    | some sid ↦ sends (input sid (o.node.to_base64 (o.node.from_text text))) s
  ]

  -- 3) behind `kill`.
  unfoldable pub check_alive : ℕ → SmokeMulti → SmokeMulti × List String
  check_alive round s =
      if ltb round 40
      then (if includes (heard s.out (sid_at s.sids 1)) (o.node.from_text "still_alive")
          then exits passed s
          else sleep (alive round) s)
      else exits failed s

  unfoldable pub after_pause : SmokeMulti → SmokeMulti × List String
  after_pause s =
      let (s', texts) = types 1 "echo still_alive\r" s in
      let (s'', rest) = check_alive 0 s' in (s'', texts ++ rest)

  unfoldable pub kill_first : SmokeMulti → SmokeMulti × List String
  kill_first s = elim (sid_at s.sids 0) [
    | none ↦ (s, [])
    | some sid ↦ request killed (λ id. session_kill id sid) s
  ]

  -- 2) The test of the two echoes.
  unfoldable pub both_echoed : SmokeMulti → Bool
  both_echoed s =
      includes (heard s.out (sid_at s.sids 0)) (o.node.from_text mark_a)
      && includes (heard s.out (sid_at s.sids 1)) (o.node.from_text mark_b)

  unfoldable pub check_echo : ℕ → SmokeMulti → SmokeMulti × List String
  check_echo round s = if both_echoed s then kill_first s else sleep (echo round) s

  unfoldable pub type_both : SmokeMulti → SmokeMulti × List String
  type_both s =
      let (s', texts) = types 0 "echo ra_multi_A\r" s in
      let (s'', texts') = types 1 "echo ra_multi_B\r" s' in
      let (s''', rest) = check_echo 0 s'' in (s''', texts ++ texts' ++ rest)

  -- `waitPrompt(sids[which])`, and what follows it.
  unfoldable pub has_prompt_at : ℕ → SmokeMulti → Bool
  has_prompt_at which s = has_prompt (o.node.to_text (heard s.out (sid_at s.sids which)))

  unfoldable pub wait_second : ℕ → SmokeMulti → SmokeMulti × List String
  wait_second round s =
      if ltb round 50
      then (if has_prompt_at 1 s then type_both s else sleep (prompt 1 round) s)
      else exits failed s

  unfoldable pub wait_first : ℕ → SmokeMulti → SmokeMulti × List String
  wait_first round s =
      if ltb round 50
      then (if has_prompt_at 0 s then wait_second 0 s else sleep (prompt 0 round) s)
      else exits failed s

  -- 1) The loop that creates two sessions.
  unfoldable pub create : ℕ → SmokeMulti → SmokeMulti × List String
  create i s =
      if ltb i 2
      then request (created i) (λ id. session_create id 100 30 none none) s
      else wait_first 0 s

  -- The loop over the sessions that are there.
  unfoldable pub clear : List SessionInfo → SmokeMulti → SmokeMulti × List String
  clear [] s = create 0 s
  clear (old ∷ rest) s = request (cleared rest) (λ id. session_kill id old.id) s

  unfoldable pub main : SmokeMulti → SmokeMulti × List String
  main s = request listed session_list s

  unfoldable pub resume : Await → Frame → SmokeMulti → SmokeMulti × List String
  resume listed (daemon (session_list_result r sessions)) s = clear sessions s
  resume (cleared rest) m s = clear rest s
  resume (created i) (daemon (session_created r sid)) s =
      request (attached i) (λ id. session_attach id sid) (record s { sids = s.sids ++ sid ∷ [] })
  resume (attached i) (daemon (session_attached r sid)) s = create (suc i) s
  resume killed m s = sleep pause s
  resume _ m s = exits failed s

  unfoldable pub fired : Timer → SmokeMulti → SmokeMulti × List String
  fired (prompt zero round) s = wait_first (suc round) s
  fired (prompt (suc which) round) s = wait_second (suc round) s
  fired (echo round) s = if round == 49 then exits failed s else check_echo (suc round) s
  fired pause s = after_pause s
  fired (alive round) s = check_alive (suc round) s

  unfoldable pub answer : Option ℕ → Frame → SmokeMulti → SmokeMulti × List String
  answer none m s = (s, [])
  answer (some id) m s = elim (lookup id s.pending) [
    | none ↦ (s, [])
    | some k ↦ resume k m (record s { pending = remove id s.pending })
  ]

  unfoldable pub on_hello_ack : SmokeMulti → SmokeMulti × List String
  on_hello_ack s =
      if o.token == ""
      then main s
      else (record s { kp = some o.draw }, start_handshake o.platform o.node o.token o.draw ∷ [])

  unfoldable pub on_auth_ok : (pub_key mac : Option String) → SmokeMulti → SmokeMulti × List String
  on_auth_ok (some pub_key) (some mac) s =
      elim (finish_handshake o.platform o.node o.token s.kp pub_key mac) [
        | keyed key ↦ main (record s { key = some key })
        | mismatch ↦ exits failed s
        | crashed ↦ exits failed s
      ]
  on_auth_ok _ _ s = exits failed s

  unfoldable pub on_data : (sid data64 : String) → SmokeMulti → SmokeMulti
  on_data sid data64 s = record s {
    out = insert sid (heard s.out (some sid) ++ o.node.from_base64 data64) s.out;
  }

  unfoldable pub on_frame : Frame → SmokeMulti → SmokeMulti × List String
  on_frame (daemon (hello_ack id)) s = on_hello_ack s
  on_frame (daemon (auth_ok pub_key mac)) s = on_auth_ok pub_key mac s
  on_frame (daemon (output sid seq data64)) s = (on_data sid data64 s, [])
  on_frame (daemon (snapshot sid seq data64)) s = (on_data sid data64 s, [])
  on_frame (daemon (error r code msg)) s = exits failed s
  on_frame m s = answer (frame_req_id m) m s

  unfoldable pub read : String → SmokeMulti → SmokeMulti × List String
  read text s = elim (o.platform.parse text) [ none ↦ exits failed s | some m ↦ on_frame m s ]

  unfoldable pub on_message : String → SmokeMulti → SmokeMulti × List String
  on_message raw s = elim (unseal o.platform o.node s.key raw) [
    | null ↦ read raw s
    | opened text ↦ read text s
    | broken ↦ exits failed s
  ]

pub data Input : Type 0 where
  opens : Input
  message : String → Input
  fires : ℕ → Input
  times_out : Input

module _ (o : World) where
  unfoldable pub act : Input → SmokeMulti → SmokeMulti × List String
  act opens s = (s, o.platform.stringify (client (hello o.device (truthy (some o.token)))) ∷ [])
  act (message raw) s = on_message o raw s
  act (fires id) s = elim (lookup id s.timers) [
    | none ↦ (s, [])
    | some t ↦ fired o t (record s { timers = remove id s.timers })
  ]
  act times_out s = exits o failed s

  unfoldable pub step : Input → SmokeMulti → SmokeMulti × List String
  step i s = elim s.ending [ running ↦ act i s | passed ↦ (s, []) | failed ↦ (s, []) ]
