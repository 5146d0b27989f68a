-- ===== src/Connection/Depth.antt =====
-- The fuel of `dispatch`: envelopes nest only as deep as their text is long.
use remote_agent.Common.{
  ℕ, zero, suc, ◌<◌, ◌≡◌, ◌≢◌, String, Option, [], inl, inr, Option-cases, List, arith,
}
use remote_agent.Platform.{Platform}
use remote_agent.Protocol.{Frame, daemon, enc, DaemonMsg, hello_ack, auth_ok, error}
use remote_agent.E2e.{E2eClient, open_envelope}
use remote_agent.E2e.Results.{ok, Result-cases}
use remote_agent.Connection.{Connection, Event}
use remote_agent.Connection.Dispatch.{
  Outcome, out_of_fuel, Setting, answer, send_text, caught, on_hello_ack, on_auth_ok, on_daemon,
  on_frame, dispatch,
}

module _ {K : Type 0} where
  answer_ends :
      (c : Connection K) (f : Frame) (events : List (Event K)) → answer c f events ≢ out_of_fuel
  unfolding answer
  answer_ends c f events = ground arith

  caught_ends : (o : Outcome K) → o ≢ out_of_fuel → caught o ≢ out_of_fuel
  unfolding caught
  caught_ends o h = ground arith

module _ {K : Type 0} (p : Platform) (s : Setting) where
  on_hello_ack_ends : (c : Connection K) → on_hello_ack p s c ≢ out_of_fuel
  unfolding on_hello_ack send_text
  on_hello_ack_ends c = ground arith

  on_auth_ok_ends :
      (c : Connection K) (pub_key mac : Option String) → on_auth_ok p s c pub_key mac ≢ out_of_fuel
  unfolding on_auth_ok
  on_auth_ok_ends c pub_key mac = ground arith

  on_daemon_ends : (c : Connection K) (m : DaemonMsg) → on_daemon p s c m ≢ out_of_fuel
  unfolding on_daemon
  on_daemon_ends c (hello_ack id) = on_hello_ack_ends c
  on_daemon_ends c (auth_ok pub_key mac) = on_auth_ok_ends c pub_key mac
  on_daemon_ends c (error r code msg) = answer_ends c _ _
  on_daemon_ends c m = grind (arith, answer_ends)

  on_frame_ends :
      (inner : Connection K → String → Outcome K) (c : Connection K) (raw : String) (f : Frame)
      → ((text : String) → open_envelope p c.e2e raw ≡ ok text → inner c text ≢ out_of_fuel)
      → on_frame p s inner c raw f ≢ out_of_fuel
  unfolding on_frame
  on_frame_ends inner c raw (enc nn ct) h = elim (Result-cases (open_envelope p c.e2e raw)) [
    | inl (text, e) ↦ ground (arith, caught_ends (inner c text) (h text e))
    | inr (x, e) ↦ ground arith
  ]
  on_frame_ends inner c raw (daemon m) h = on_daemon_ends c m
  on_frame_ends inner c raw f h = answer_ends c f []

  -- Where an envelope's text is shorter than the envelope, `dispatch` ends within the length of the
  -- frame, whatever its envelopes hold.
  pub dispatch_ends :
      (size : String → ℕ)
      → ((e : E2eClient) (raw text : String)
          → open_envelope p e raw ≡ ok text
          → size text < size raw)
      → (fuel : ℕ) (c : Connection K) (raw : String) → size raw < fuel
      → dispatch p s fuel c raw ≢ out_of_fuel
  unfolding dispatch
  dispatch_ends size shrinks zero c raw h = absurd (omega arith)
  dispatch_ends size shrinks (suc fuel) c raw h = elim (Option-cases (p.parse raw)) [
    | inl e ↦ rw (e, dispatch) (λ x. cc)
    | inr (f, e) ↦
        rw (e, dispatch)
          (on_frame_ends (dispatch p s fuel) c raw f λ text t.
            dispatch_ends size shrinks fuel c text (omega (arith, shrinks c.e2e raw text t)))
  ]
