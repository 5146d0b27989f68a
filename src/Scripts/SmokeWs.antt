-- ===== src/Scripts/SmokeWs.antt =====
-- web/scripts/smoke-ws.mjs: one session from `hello` to `session.exited`.
pub mod Verdict
use remote_agent.Common.{
  ℕ, zero, suc, ◌≡◌, String, Bool, true, false, not, ◌&&◌, Option, none, some, List, [], ◌∷◌, ◌++◌,
  ◌==◌, nat_eq, string_eq, if◌then◌else◌,
}
use remote_agent.Common.Maps.{lookup, insert, remove}
use remote_agent.Platform.{Platform}
use remote_agent.Protocol.{
  ClientMsg, DaemonMsg, Frame, client, daemon, hello, session_list, session_create, session_attach,
  session_kill, input, hello_ack, auth_ok, session_list_result, session_created, session_attached,
  snapshot, output, session_exited, error, frame_req_id,
}
use remote_agent.Connection.{truthy}
use remote_agent.Scripts.{Node}
use remote_agent.Scripts.Cipher.{
  keyed, mismatch, crashed, null, opened, broken, start_handshake, finish_handshake, seal, unseal,
}
use remote_agent.Scripts.Parts.{Ending, running, passed, failed, includes, has_prompt}

-- The script's arguments, what it calls, and what the calls of `randomBytes` and `generateKeyPairSync` draw.
pub record World : Type 0 where
  pub platform : Platform
  pub node : Node
  pub device : String
  pub token : String
  pub nonce : ℕ → List ℕ
  pub draw : List ℕ

-- Where `main` or `finish` goes on when a request is answered.
pub data Await : Type 0 where
  listed : Await
  created : Await
  attached : Await
  killed : Await

-- The variables of the script. `loops` counts the runs of `main` that sleep in the loop for the prompt.
pub record SmokeWs : Type 0 where
  pub req_id : ℕ
  pub pending : List (ℕ × Await)
  pub session_id : Option String
  pub out_buf : List ℕ
  pub done : Bool
  pub key : Option (List ℕ)
  pub x25519_keys : Option (List ℕ)
  pub loops : ℕ
  pub drawn : ℕ
  pub ending : Ending

abbrev pub started : SmokeWs
started = record {
  req_id = 0;
  pending = [];
  session_id = none;
  out_buf = [];
  done = false;
  key = none;
  x25519_keys = none;
  loops = 0;
  drawn = 0;
  ending = running;
}

-- MARK
abbrev pub mark : String
mark = "ra_smoke_ok_9417"

abbrev pub typed : String
typed = "echo ra_smoke_ok_9417\r"

abbrev pub is_same : Option String → String → Bool
is_same none sid = false
is_same (some own) sid = sid == own

-- A handler gives the next state and the texts that it sends.
module _ (o : World) where
  abbrev pub exits : Ending → SmokeWs → SmokeWs × List String
  exits e s = (record s { ending = e }, [])

  unfoldable pub request : Await → (ℕ → ClientMsg) → SmokeWs → SmokeWs × List String
  request k msg s =
      let id = suc s.req_id in
      (
        record s { req_id = id; pending = insert id k s.pending; drawn = suc s.drawn },
        seal o.platform o.node s.key (o.nonce s.drawn) (client (msg id)) ∷ [],
      )

  unfoldable pub finish : String → SmokeWs → SmokeWs × List String
  finish sid s = request killed (λ id. session_kill id sid) s

  unfoldable pub accumulate : String → List ℕ → SmokeWs → SmokeWs × List String
  accumulate sid bytes s =
      let s' = record s { out_buf = s.out_buf ++ bytes } in
      if includes s'.out_buf (o.node.from_text mark) && not s.done
      then finish sid (record s' { done = true })
      else (s', [])

  unfoldable pub main : SmokeWs → SmokeWs × List String
  main s = request listed session_list s

  -- Behind the loop. `session_id` is set when `main` is here.
  unfoldable pub type_line : SmokeWs → SmokeWs × List String
  type_line s = if s.done then (s, []) else (elim s.session_id [
    | none ↦ (s, [])
    | some sid ↦ (
      record s { drawn = suc s.drawn },
      seal o.platform o.node s.key (o.nonce s.drawn)
            (client (input sid (o.node.to_base64 (o.node.from_text typed))))
          ∷ [],
    )
  ])

  -- The head of the loop for the prompt; `elapsed` is whether its ten seconds are over.
  unfoldable pub look : (elapsed : Bool) → SmokeWs → SmokeWs × List String
  look elapsed s =
      if not (has_prompt (o.node.to_text s.out_buf)) && not elapsed
      then (record s { loops = suc s.loops }, [])
      else type_line s

  unfoldable pub resume : Await → Frame → SmokeWs → SmokeWs × List String
  resume listed (daemon (session_list_result r sessions)) s =
      request created (λ id. session_create id 100 30 none none) s
  resume created (daemon (session_created r sid)) s =
      request attached (λ id. session_attach id sid) (record s { session_id = some sid })
  resume attached (daemon (session_attached r sid)) s = look false s
  resume killed m s = (s, [])
  resume _ m s = exits failed s

  -- `default:` of the switch.
  unfoldable pub answer : Option ℕ → Frame → SmokeWs → SmokeWs × List String
  answer none m s = (s, [])
  answer (some id) m s = elim (lookup id s.pending) [
    | none ↦ (s, [])
    | some k ↦ resume k m (record s { pending = remove id s.pending })
  ]

  unfoldable pub on_hello_ack : SmokeWs → SmokeWs × List String
  on_hello_ack s = if o.token == "" then main s else (
    record s { x25519_keys = some o.draw },
    start_handshake o.platform o.node o.token o.draw ∷ [],
  )

  -- `Buffer.from(undefined)` throws.
  unfoldable pub on_auth_ok : (pub_key mac : Option String) → SmokeWs → SmokeWs × List String
  on_auth_ok (some pub_key) (some mac) s =
      elim (finish_handshake o.platform o.node o.token s.x25519_keys pub_key mac) [
        | keyed key ↦ main (record s { key = some key })
        | mismatch ↦ exits failed s
        | crashed ↦ exits failed s
      ]
  on_auth_ok _ _ s = exits failed s

  unfoldable pub on_data : (sid data64 : String) → SmokeWs → SmokeWs × List String
  on_data sid data64 s =
      if is_same s.session_id sid then accumulate sid (o.node.from_base64 data64) s else (s, [])

  -- The `switch` over `m.t`.
  unfoldable pub on_frame : Frame → SmokeWs → SmokeWs × List String
  on_frame (daemon (hello_ack id)) s = on_hello_ack s
  on_frame (daemon (auth_ok pub_key mac)) s = on_auth_ok pub_key mac s
  on_frame (daemon (snapshot sid seq data64)) s = on_data sid data64 s
  on_frame (daemon (output sid seq data64)) s = on_data sid data64 s
  on_frame (daemon (session_exited sid code)) s =
      if s.done && is_same s.session_id sid then exits passed s else (s, [])
  on_frame (daemon (error r code msg)) s = exits failed s
  on_frame m s = answer (frame_req_id m) m s

  unfoldable pub read : String → SmokeWs → SmokeWs × List String
  read text s = elim (o.platform.parse text) [ none ↦ exits failed s | some m ↦ on_frame m s ]

  unfoldable pub on_message : String → SmokeWs → SmokeWs × List String
  on_message raw s = elim (unseal o.platform o.node s.key raw) [
    | null ↦ read raw s
    | opened text ↦ read text s
    | broken ↦ exits failed s
  ]

  -- The timer of a loop that sleeps.
  unfoldable pub wake : ℕ → Bool → SmokeWs → SmokeWs × List String
  wake zero elapsed s = (s, [])
  wake (suc loops) elapsed s = look elapsed (record s { loops = loops })

pub data Input : Type 0 where
  opens : Input
  message : String → Input
  wakes : Bool → Input
  times_out : Input

module _ (o : World) where
  unfoldable pub act : Input → SmokeWs → SmokeWs × List String
  act opens s = (s, o.platform.stringify (client (hello o.device (truthy (some o.token)))) ∷ [])
  act (message raw) s = on_message o raw s
  act (wakes elapsed) s = wake o s.loops elapsed s
  act times_out s = exits o failed s

  -- A script that has ended does nothing more.
  unfoldable pub step : Input → SmokeWs → SmokeWs × List String
  step i s = elim s.ending [ running ↦ act i s | passed ↦ (s, []) | failed ↦ (s, []) ]

  pub data Runs : SmokeWs → Type 0 where
    start : Runs started
    next : {s : SmokeWs} (i : Input) → Runs s → Runs (step i s).0
