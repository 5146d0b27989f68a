-- ===== src/Scripts/SmokeWs/Verdict.antt =====
-- What it shows of a daemon that smoke-ws.mjs passes.
use remote_agent.Common.{
  ℕ, zero, suc, ◌≡◌, refl, String, Bool, true, false, not, ◌&&◌, Option, none, some, List, [], ◌++◌,
  ◌==◌, nat_eq, string_eq, is_some, if_cases, option_cases, sym, ap, ◌∙◌, arith,
}
use remote_agent.Common.Maps.{lookup, remove}
use remote_agent.Protocol.{
  ClientMsg, Frame, daemon, hello_ack, pong, auth_ok, session_list_result, session_created,
  session_attached, output, snapshot, session_exited, error, frame_req_id,
}
use remote_agent.Scripts.Cipher.{
  keyed, mismatch, crashed, null, opened, broken, finish_handshake, unseal,
}
use remote_agent.Scripts.Parts.{running, passed, failed, includes, has_prompt, includes-append}
use remote_agent.Scripts.SmokeWs.{
  World, Await, listed, created, attached, killed, SmokeWs, mark, is_same, request, finish,
  accumulate, main, type_line, look, resume, answer, on_hello_ack, on_auth_ok, on_data, on_frame,
  read, on_message, wake, Input, opens, message, wakes, times_out, act, step, Runs, start, next,
}

module _ (o : World) where
  -- A script with a token does nothing but the handshake before it has a key.
  abbrev IsOpen : SmokeWs → Type 0
  IsOpen s = (o.token == "") ≡ false → is_some s.key ≡ true

  record IsHonest (s : SmokeWs) : Type 0 where
    shown : s.done ≡ true → includes s.out_buf (o.node.from_text mark) ≡ true
    waits : (id : ℕ) (k : Await) → lookup id s.pending ≡ some k → IsOpen s
    owns : (sid : String) → s.session_id ≡ some sid → IsOpen s
    passes : s.ending ≡ passed → (s.done ≡ true) × ((sid : String) × (s.session_id ≡ some sid))

  abbrev Honest : SmokeWs × List String → Type 0
  Honest r = IsHonest r.0

  request-Honest :
      (k : Await) (msg : ℕ → ClientMsg) (s : SmokeWs)
      → IsHonest s
      → IsOpen s
      → Honest (request o k msg s)
  unfolding request
  request-Honest k msg s v open' = record {
    shown = v.shown;
    waits = λ id k' e. open';
    owns = λ sid e. open';
    passes = v.passes;
  }

  failed-IsHonest : (s : SmokeWs) → IsHonest s → IsHonest (record s { ending = failed })
  failed-IsHonest s v = record { shown = v.shown; waits = v.waits; owns = v.owns; passes = λ e. cc }

  accumulate-Honest :
      (sid : String) (bytes : List ℕ) (s : SmokeWs)
      → IsHonest s
      → IsOpen s
      → Honest (accumulate o sid bytes s)
  unfolding accumulate finish
  accumulate-Honest sid bytes s v open' =
      let s' = record s { out_buf = s.out_buf ++ bytes } in
      let mine = o.node.from_text mark in
      if_cases Honest (includes s'.out_buf mine && not s.done) _ _
        (λ e.
          request-Honest killed _ (record s' { done = true })
            (record {
              shown = λ _. ground (arith, e);
              waits = v.waits;
              owns = v.owns;
              passes = λ p. (refl, (v.passes p).1);
            })
            open')
        (λ _. record {
          shown = λ d. includes-append s.out_buf bytes mine (v.shown d);
          waits = v.waits;
          owns = v.owns;
          passes = v.passes;
        })

  looped-IsHonest : (n : ℕ) (s : SmokeWs) → IsHonest s → IsHonest (record s { loops = n })
  looped-IsHonest n s v = record {
    shown = v.shown;
    waits = v.waits;
    owns = v.owns;
    passes = v.passes;
  }

  drawn-IsHonest : (s : SmokeWs) → IsHonest s → IsHonest (record s { drawn = suc s.drawn })
  drawn-IsHonest s v = record { shown = v.shown; waits = v.waits; owns = v.owns; passes = v.passes }

  type_line-Honest : (s : SmokeWs) → IsHonest s → Honest (type_line o s)
  unfolding type_line
  type_line-Honest s v =
      if_cases Honest s.done _ _ (λ _. v)
        (λ _. option_cases Honest s.session_id _ _ v (λ sid e. drawn-IsHonest s v))

  look-Honest : (elapsed : Bool) (s : SmokeWs) → IsHonest s → Honest (look o elapsed s)
  unfolding look
  look-Honest elapsed s v =
      if_cases Honest (not (has_prompt (o.node.to_text s.out_buf)) && not elapsed) _ _
        (λ _. looped-IsHonest (suc s.loops) s v) (λ _. type_line-Honest s v)

  -- `main` goes on only where it has a key.
  resume-Honest :
      (k : Await) (m : Frame) (s : SmokeWs) → IsHonest s → IsOpen s → Honest (resume o k m s)
  unfolding resume
  resume-Honest listed (daemon (session_list_result r sessions)) s v open' =
      request-Honest created _ s v open'
  resume-Honest created (daemon (session_created r sid)) s v open' =
      request-Honest attached _ (record s { session_id = some sid })
        (record {
          shown = v.shown;
          waits = v.waits;
          owns = λ _ _. open';
          passes = λ p. ((v.passes p).0, (sid, refl));
        })
        open'
  resume-Honest attached (daemon (session_attached r sid)) s v open' = look-Honest false s v
  resume-Honest killed m s v open' = v
  resume-Honest _ m s v open' = failed-IsHonest s v

  answer-Honest : (id : Option ℕ) (m : Frame) (s : SmokeWs) → IsHonest s → Honest (answer o id m s)
  unfolding answer
  answer-Honest none m s v = v
  answer-Honest (some id) m s v = option_cases Honest (lookup id s.pending) _ _ v (λ k e.
      resume-Honest k m (record s { pending = remove id s.pending })
        (record {
          shown = v.shown;
          waits = λ i k' e'. v.waits id k e;
          owns = v.owns;
          passes = v.passes;
        })
        (v.waits id k e))

  on_auth_ok-Honest :
      (pub_key mac : Option String) (s : SmokeWs) → IsHonest s → Honest (on_auth_ok o pub_key mac s)
  unfolding on_auth_ok main
  on_auth_ok-Honest (some pub_key) (some mac) s v =
      elim (finish_handshake o.platform o.node o.token s.x25519_keys pub_key mac)
        as (λ f. Honest (elim f [
          | keyed key ↦ main o (record s { key = some key })
          | mismatch ↦ (record s { ending = failed }, [])
          | crashed ↦ (record s { ending = failed }, [])
        ])) [
          | keyed key ↦
              request-Honest listed _ (record s { key = some key })
                (record {
                  shown = v.shown;
                  waits = λ id k e _. refl;
                  owns = λ sid e _. refl;
                  passes = v.passes;
                })
                (λ _. refl)
          | mismatch ↦ failed-IsHonest s v
          | crashed ↦ failed-IsHonest s v
        ]
  on_auth_ok-Honest none mac s v = failed-IsHonest s v
  on_auth_ok-Honest (some pub_key) none s v = failed-IsHonest s v

  on_hello_ack-Honest : (s : SmokeWs) → IsHonest s → Honest (on_hello_ack o s)
  unfolding on_hello_ack main
  on_hello_ack-Honest s v =
      if_cases Honest (o.token == "") _ _
        (λ none'.
          request-Honest listed _ s v (λ token. let e : true ≡ false = sym none' ∙ token in cc))
        (λ _. record { shown = v.shown; waits = v.waits; owns = v.owns; passes = v.passes })

  same_owner : (own : Option String) (sid : String) → is_same own sid ≡ true → own ≡ some sid
  same_owner none sid e = cc
  same_owner (some own) sid e = ap some (sym ((string_eq.decides sid own).0 e))

  on_data-Honest :
      (sid data64 : String) (s : SmokeWs) → IsHonest s → Honest (on_data o sid data64 s)
  unfolding on_data
  on_data-Honest sid data64 s v =
      if_cases Honest (is_same s.session_id sid) _ _
        (λ e. accumulate-Honest sid _ s v (v.owns sid (same_owner s.session_id sid e))) (λ _. v)

  on_frame-Honest : (m : Frame) (s : SmokeWs) → IsHonest s → Honest (on_frame o m s)
  unfolding on_frame
  on_frame-Honest (daemon (hello_ack id)) s v = on_hello_ack-Honest s v
  on_frame-Honest (daemon (auth_ok pub_key mac)) s v = on_auth_ok-Honest pub_key mac s v
  on_frame-Honest (daemon (snapshot sid seq data64)) s v = on_data-Honest sid data64 s v
  on_frame-Honest (daemon (output sid seq data64)) s v = on_data-Honest sid data64 s v
  on_frame-Honest (daemon (session_exited sid code)) s v =
      if_cases Honest (s.done && is_same s.session_id sid) _ _
        (λ e. record {
          shown = v.shown;
          waits = v.waits;
          owns = v.owns;
          passes = λ _. (ground (arith, e), (sid, same_owner s.session_id sid (ground (arith, e))));
        })
        (λ _. v)
  on_frame-Honest (daemon (error r code msg)) s v = failed-IsHonest s v
  on_frame-Honest (daemon pong) s v = answer-Honest none _ s v
  on_frame-Honest m s v = answer-Honest (frame_req_id m) m s v

  read-Honest : (text : String) (s : SmokeWs) → IsHonest s → Honest (read o text s)
  unfolding read
  read-Honest text s v =
      option_cases Honest (o.platform.parse text) _ _ (failed-IsHonest s v)
        (λ m _. on_frame-Honest m s v)

  on_message-Honest : (raw : String) (s : SmokeWs) → IsHonest s → Honest (on_message o raw s)
  unfolding on_message
  on_message-Honest raw s v =
      elim (unseal o.platform o.node s.key raw)
        as (λ u. Honest (elim u [
          | null ↦ read o raw s
          | opened text ↦ read o text s
          | broken ↦ (record s { ending = failed }, [])
        ])) [
          | null ↦ read-Honest raw s v
          | opened text ↦ read-Honest text s v
          | broken ↦ failed-IsHonest s v
        ]

  wake-Honest :
      (loops : ℕ) (elapsed : Bool) (s : SmokeWs) → IsHonest s → Honest (wake o loops elapsed s)
  unfolding wake
  wake-Honest zero elapsed s v = v
  wake-Honest (suc loops) elapsed s v = look-Honest elapsed _ (looped-IsHonest loops s v)

  act-Honest : (i : Input) (s : SmokeWs) → IsHonest s → Honest (act o i s)
  unfolding act
  act-Honest opens s v = v
  act-Honest (message raw) s v = on_message-Honest raw s v
  act-Honest (wakes elapsed) s v = wake-Honest s.loops elapsed s v
  act-Honest times_out s v = failed-IsHonest s v

  Runs-IsHonest : {s : SmokeWs} → Runs o s → IsHonest s
  unfolding step lookup
  Runs-IsHonest start = record {
    shown = λ e. cc;
    waits = λ id k e. cc;
    owns = λ sid e. cc;
    passes = λ e. cc;
  }
  Runs-IsHonest (next {s} i r) =
      let v = Runs-IsHonest r in
      elim s.ending
        as (λ e. Honest (elim e [ running ↦ act o i s | passed ↦ (s, []) | failed ↦ (s, []) ])) [
          | running ↦ act-Honest i s v
          | passed ↦ v
          | failed ↦ v
        ]

  pub Runs-passed :
      {s : SmokeWs}
      → Runs o s
      → s.ending ≡ passed
      → ((sid : String) × (s.session_id ≡ some sid))
        × (includes s.out_buf (o.node.from_text mark) ≡ true)
        × ((o.token == "") ≡ false → is_some s.key ≡ true)
  Runs-passed r e =
      let v = Runs-IsHonest r in
      let (done, (sid, own)) = v.passes e in ((sid, own), v.shown done, v.owns sid own)
