-- ===== src/E2e/DaemonSide.antt =====
-- daemon/src/crypto.rs: the daemon's half of the handshake, and a run of both halves over the wire.
use remote_agent.Common.{
  ℕ, String, not, ◌&&◌, some, List, ◌++◌, length, ◌==◌, nat_eq, if◌then◌else◌,
}
use remote_agent.Platform.{Platform}
use remote_agent.Protocol.{Frame, auth_proof, daemon, auth_ok}
use remote_agent.E2e.{E2eClient, every_same, hkdf_info, proof_message, finish}
use remote_agent.E2e.Results.{
  Result, ok, err, ◌>>=◌, or_throw, bad_base64, bad_mac, bad_key, bad_json,
}

module _ (p : Platform) where
  -- `decode_pub`: 32 bytes in base64.
  unfoldable pub decode_pub : String → Result (List ℕ)
  decode_pub b64 = do
    raw ← or_throw bad_base64 (p.atob b64)
    if length raw == 32 then ok raw else err bad_key

  -- `Handshake::verify_client`, where `secret` is the key that `Handshake::start` draws; the reply.
  unfoldable pub verify_client : (token pub_b64 mac_b64 : String) (secret : List ℕ) → Result String
  verify_client token pub_b64 mac_b64 secret = do
    client_pub ← decode_pub pub_b64
    let expect = p.hmac (p.utf8_encode token) client_pub
    mac ← or_throw bad_base64 (p.atob mac_b64)
    if not (length expect == length mac && every_same expect mac)
        then err bad_mac
        else (let public = p.public_key secret in
            let reply_mac = p.hmac (p.utf8_encode token) public in
            ok (p.stringify (daemon (auth_ok (some (p.btoa public)) (some (p.btoa reply_mac))))))

  -- `Handshake::finish`: the session key.
  unfoldable pub daemon_finish : (secret : List ℕ) (peer_pub_b64 : String) → Result (List ℕ)
  daemon_finish secret peer_pub_b64 = do
    peer ← decode_pub peer_pub_b64
    let shared = p.diffie_hellman secret peer
    ok (p.hkdf shared (p.public_key secret ++ peer) (p.utf8_encode hkdf_info) 32)

  unfoldable pub answer : (token : String) (secret : List ℕ) → Frame → Result (String × List ℕ)
  answer token secret (auth_proof pub_b64 mac_b64) = do
    reply ← verify_client token pub_b64 mac_b64 secret
    key ← daemon_finish secret pub_b64
    ok (reply, key)
  answer token secret _ = err bad_json

  unfoldable pub accept : E2eClient → (token : String) → Frame → Result E2eClient
  accept c token (daemon (auth_ok (some pub_b64) (some mac_b64))) = finish p c token pub_b64 mac_b64
  accept c token _ = err bad_json

  -- A whole handshake: the client's proof, the daemon's answer, the client's check; with the client
  -- and the daemon's session key at the end.
  unfoldable pub exchange :
      E2eClient
      → (client_token daemon_token : String) (priv secret : List ℕ) → Result (E2eClient × List ℕ)
  exchange c client_token daemon_token priv secret = do
    let (started, proof) = proof_message p c client_token priv
    proof_frame ← or_throw bad_json (p.parse proof)
    (reply, key) ← answer daemon_token secret proof_frame
    reply_frame ← or_throw bad_json (p.parse reply)
    finished ← accept started client_token reply_frame
    ok (finished, key)
