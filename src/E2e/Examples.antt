-- ===== src/E2e/Examples.antt =====
-- Tests of the handshake and the envelope, and the theorems at concrete inputs.
use remote_agent.Common.{
  ℕ, ◌≡◌, refl, ap, String, some, none, List, [], ◌∷◌, ◌++◌, replicate, arith,
}
use remote_agent.Platform.Sample.{sample, sum, sample-IsStandard, sample_runs}
use remote_agent.Protocol.{auth_proof}
use remote_agent.Protocol.Codec.{b64encode, b64decode, b64, unb64}
use remote_agent.Protocol.Codec.RoundTrip.{b64decode-b64encode}
use remote_agent.E2e.{
  E2eClient, new_client, every_same, typed_set, proof_message, derive, finish, seal, open_envelope,
}
use remote_agent.E2e.DaemonSide.{exchange}
use remote_agent.E2e.Envelope.{open_envelope-seal}
use remote_agent.E2e.Handshake.{
  exchange_agrees, exchange_refuses, finish_sound, finish-proof_message,
}
use remote_agent.E2e.Results.{ok, err, ◌>>=◌, bad_mac}

abbrev secret_c : List ℕ
secret_c = 5 ∷ replicate 31 1

abbrev secret_d : List ℕ
secret_d = 7 ∷ replicate 31 2

abbrev session_key : List ℕ
session_key = replicate 32 3

abbrev keyed : E2eClient
keyed = record { key = some session_key; priv = none }

b64decode-b64encode_example : b64decode sample (b64encode sample "xy") ≡ some (120 ∷ 121 ∷ [])
unfolding sample_runs
b64decode-b64encode_example = b64decode-b64encode sample sample-IsStandard "xy"

exchange_agrees_example :
    exchange sample new_client "xy" "xy" secret_c secret_d
    ≡ ok (
      record {
        key = some (
            sample.hkdf
              (sample.diffie_hellman secret_d (sample.public_key secret_c))
              (sample.public_key secret_d ++ sample.public_key secret_c)
              []
              32);
        priv = none;
      },
      sample.hkdf
          (sample.diffie_hellman secret_d (sample.public_key secret_c))
          (sample.public_key secret_d ++ sample.public_key secret_c)
          []
          32,
    )
exchange_agrees_example =
    exchange_agrees sample sample-IsStandard new_client "xy" secret_c secret_d refl refl

exchange_refuses_example : exchange sample new_client "xy" "xx" secret_c secret_d ≡ err bad_mac
unfolding sample_runs
exchange_refuses_example =
    exchange_refuses sample sample-IsStandard new_client "xy" "xx" secret_c secret_d refl
      (λ e. omega (arith, ap sum e))

abbrev started : E2eClient
started = record { key = none; priv = some secret_c }

abbrev pub_text : String
pub_text = sample.btoa (sample.public_key secret_d)

abbrev mac_text : String
mac_text = sample.btoa (sample.hmac (sample.utf8_encode "xy") (sample.public_key secret_d))

abbrev mixed : ℕ
mixed = 105

abbrev finished : E2eClient
finished = record {
  key = some (mixed ∷ sample.public_key secret_d ++ sample.public_key secret_c);
  priv = none;
}

accepts : finish sample started "xy" pub_text mac_text ≡ ok finished
unfolding sample_runs finish derive typed_set every_same unb64
accepts = refl

finish_sound_example :
    (d priv key : List ℕ) × (unb64 sample pub_text ≡ some d)
    × (unb64 sample mac_text ≡ some (sample.hmac (sample.utf8_encode "xy") d))
    × (started.priv ≡ some priv)
    × (derive sample priv d ≡ ok key)
    × (finished ≡ record { key = some key; priv = none })
finish_sound_example = finish_sound sample started finished "xy" pub_text mac_text accepts

own_proof :
    sample.parse (proof_message sample new_client "xy" secret_c).1
    ≡ some (
        auth_proof
          (b64 sample (sample.public_key secret_c))
          (b64 sample (sample.hmac (sample.utf8_encode "xy") (sample.public_key secret_c))))
unfolding proof_message
own_proof = sample-IsStandard.parse-stringify _ refl

finish-proof_message_example :
    finish sample
      (proof_message sample new_client "xy" secret_c).0
      "xy"
      (b64 sample (sample.public_key secret_c))
      (b64 sample (sample.hmac (sample.utf8_encode "xy") (sample.public_key secret_c)))
    ≡ ok (record {
      key = some (
          sample.hkdf
            (sample.diffie_hellman secret_c (sample.public_key secret_c))
            (sample.public_key secret_c ++ sample.public_key secret_c)
            []
            32);
      priv = none;
    })
finish-proof_message_example =
    finish-proof_message sample sample-IsStandard new_client "xy" secret_c _ _ refl own_proof

open_envelope-seal_example :
    (seal sample keyed "xyx" (replicate 12 4) >>= open_envelope sample keyed) ≡ ok "xyx"
unfolding sample_runs
open_envelope-seal_example =
    open_envelope-seal sample sample-IsStandard keyed keyed session_key (replicate 12 4) "xyx" refl
      refl refl refl (omega arith) refl
