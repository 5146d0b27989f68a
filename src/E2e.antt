-- ===== src/E2e.antt =====
-- web/src/lib/e2e.ts: the client's half of the handshake and the encrypted envelope. An exception is
-- an `E2eError`; what `randomSecretKey` and `getRandomValues` draw is an argument.
pub mod Results
pub mod DaemonSide
pub mod Halves
pub mod Handshake
pub mod Envelope
mod Examples
use remote_agent.Common.{
  ℕ, suc, ◌+◌, ◌-◌, String, Bool, true, false, not, ◌&&◌, ◌||◌, Option, none, some, List, [], ◌∷◌,
  ◌++◌, length, take, drop, replicate, leb, ◌==◌, nat_eq, is_some, if◌then◌else◌,
}
use remote_agent.Platform.{Platform}
use remote_agent.Protocol.{Frame, auth_proof, enc}
use remote_agent.Protocol.Codec.{b64, unb64}
use Results.{
  E2eError, Result, ok, err, ◌>>=◌, or_throw, bad_base64, bad_mac, not_started, bad_key, bad_range,
  not_established, bad_json, not_enc, decrypt_failed,
}

pub record E2eClient : Type 0 where
  pub key : Option (List ℕ)
  pub priv : Option (List ℕ)

abbrev pub new_client : E2eClient
new_client = record { key = none; priv = none }

abbrev pub established : E2eClient → Bool
established c = is_some c.key

-- `expect.every((b, i) => b === got[i])`, with undefined past the end of `got`.
unfoldable pub every_same : List ℕ → List ℕ → Bool
every_same [] got = true
every_same (b ∷ bs) [] = false
every_same (b ∷ bs) (g ∷ gs) = b == g && every_same bs gs

-- `dst.set(src, offset)` of a Uint8Array, which throws where `src` does not fit.
unfoldable pub typed_set : List ℕ → List ℕ → ℕ → Result (List ℕ)
typed_set dst src offset =
    if leb (offset + length src) (length dst)
    then ok (take offset dst ++ src ++ drop (offset + length src) dst)
    else err bad_range

-- HKDF_INFO
abbrev pub hkdf_info : String
hkdf_info = "remoteagent-payload-v1"

module _ (p : Platform) where
  -- `proofMessage(accessToken)`, where `priv` is the key that is drawn.
  unfoldable pub proof_message : E2eClient → (token : String) (priv : List ℕ) → E2eClient × String
  proof_message c token priv =
      let pub_key = p.public_key priv in
      let mac = p.hmac (p.utf8_encode token) pub_key in
      (record c { priv = some priv }, p.stringify (auth_proof (b64 p pub_key) (b64 p mac)))

  -- The key derivation of `finish`, with the salt `daemon_pub || client_pub`.
  unfoldable pub derive : (priv daemon_pub : List ℕ) → Result (List ℕ)
  derive priv daemon_pub = do
    let client_pub = p.public_key priv
    shared ← or_throw bad_key (p.shared_secret priv daemon_pub)
    salt ← typed_set (replicate 64 0) daemon_pub 0
    salt ← typed_set salt client_pub 32
    ok (p.hkdf shared salt (p.utf8_encode hkdf_info) 32)

  -- `finish(accessToken, daemonPubB64, daemonMacB64)`.
  unfoldable pub finish :
      E2eClient → (token daemon_pub_b64 daemon_mac_b64 : String) → Result E2eClient
  finish c token daemon_pub_b64 daemon_mac_b64 = do
    daemon_pub ← or_throw bad_base64 (unb64 p daemon_pub_b64)
    let expect = p.hmac (p.utf8_encode token) daemon_pub
    got ← or_throw bad_base64 (unb64 p daemon_mac_b64)
    if not (length expect == length got) || not (every_same expect got) then err bad_mac else do
      priv ← or_throw not_started c.priv
      key ← derive priv daemon_pub
      ok (record { key = some key; priv = none })

  -- `seal(plaintext)`, where `nonce` is what `randBytes(12)` draws.
  unfoldable pub seal : E2eClient → (plaintext : String) (nonce : List ℕ) → Result String
  seal c plaintext nonce = do
    key ← or_throw not_established c.key
    let ct = p.encrypt key nonce (p.utf8_encode plaintext)
    ok (p.stringify (enc (b64 p nonce) (b64 p ct)))

  -- `open(envelope)`.
  unfoldable pub open_frame : (key : List ℕ) → Frame → Result String
  open_frame key (enc nn ct) = do
    nonce ← or_throw bad_base64 (unb64 p nn)
    data' ← or_throw bad_base64 (unb64 p ct)
    pt ← or_throw decrypt_failed (p.decrypt key nonce data')
    ok (p.utf8_decode pt)
  open_frame key _ = err not_enc

  unfoldable pub open_envelope : E2eClient → (envelope : String) → Result String
  open_envelope c envelope = do
    key ← or_throw not_established c.key
    v ← or_throw bad_json (p.parse envelope)
    open_frame key v
