-- ===== src/E2e/Handshake.antt =====
-- The handshake of both sides: equal tokens end with one session key, and what a client accepts.
use remote_agent.Common.{
  ℕ, ◌≡◌, ◌≢◌, refl, ap, String, true, not, ◌||◌, none, some, List, ◌++◌, length, ◌==◌, nat_eq, inl,
  inr, Bool-cases, arith,
}
use remote_agent.Platform.{Platform, IsStandard}
use remote_agent.Protocol.{auth_proof, daemon, auth_ok}
use remote_agent.Protocol.Codec.{b64, unb64}
use remote_agent.Protocol.Codec.RoundTrip.{unb64-b64}
use remote_agent.E2e.{E2eClient, established, every_same, hkdf_info, proof_message, derive, finish}
use remote_agent.E2e.Results.{
  ok, err, ◌>>=◌, or_throw, bad_mac, not_started, bad_base64, >>=-eq-ok, or_throw-eq-ok,
}
use remote_agent.E2e.DaemonSide.{verify_client, answer, accept, exchange}
use remote_agent.E2e.Halves.{
  eq_of_every_same, same_false, derive_lem, finish_lem, atob-b64, decode_pub_lem, finish_answer,
  answer_lem,
}

module _ (p : Platform) (std : IsStandard p) where
  -- With one token on both sides, and private keys of 32 bytes, a handshake over the wire succeeds, from any
  -- state of the client:
  -- client and daemon end with the same session key, which is derived from the shared secret and
  -- from both public keys, and the client forgets its private key.
  pub exchange_agrees :
      (c : E2eClient) (token : String) (priv secret : List ℕ)
      → length priv ≡ 32
      → length secret ≡ 32
      → let key =
          p.hkdf
            (p.diffie_hellman secret (p.public_key priv))
            (p.public_key secret ++ p.public_key priv)
            (p.utf8_encode hkdf_info)
            32 in
        exchange p c token token priv secret ≡ ok (record { key = some key; priv = none }, key)
  unfolding exchange accept proof_message
  exchange_agrees c token priv secret hp hs =
      let P = p.public_key priv in
      let S = p.public_key secret in
      let M = p.hmac (p.utf8_encode token) P in
      let R = p.hmac (p.utf8_encode token) S in
      rw (
        std.parse-stringify (auth_proof (b64 p P) (b64 p M)) refl,
        answer_lem p std token priv secret hp,
        std.parse-stringify (daemon (auth_ok (some (p.btoa S)) (some (p.btoa R)))) refl,
        finish_answer p std (record c { priv = some priv }) token priv secret refl hp hs,
      )

-- What `finish` accepts.
module _ (p : Platform) where
  -- The end of `finish`, once the test of the MACs has passed.
  finish_end :
      (c c' : E2eClient) (d : List ℕ)
      → (or_throw not_started c.priv >>= λ priv.
          derive p priv d >>= λ key. ok (record { key = some key; priv = none }))
        ≡ ok c'
      → (priv key : List ℕ) × (c.priv ≡ some priv)
        × (derive p priv d ≡ ok key)
        × (c' ≡ record { key = some key; priv = none })
  finish_end c c' d h =
      let (priv, e1, h1) = >>=-eq-ok (or_throw not_started c.priv) _ h in
      let (key, e2, h2) = >>=-eq-ok (derive p priv d) _ h1 in
      (priv, key, or_throw-eq-ok not_started c.priv e1, e2, cc)

  -- When `finish` accepts an answer, a handshake had been started, the answer's MAC is that of its
  -- key under the token, and the client has a session key and no private key any more.
  pub finish_sound :
      (c c' : E2eClient) (token pub_b64 mac_b64 : String)
      → finish p c token pub_b64 mac_b64 ≡ ok c'
      → (d priv key : List ℕ) × (unb64 p pub_b64 ≡ some d)
        × (unb64 p mac_b64 ≡ some (p.hmac (p.utf8_encode token) d))
        × (c.priv ≡ some priv)
        × (derive p priv d ≡ ok key)
        × (c' ≡ record { key = some key; priv = none })
  unfolding finish
  finish_sound c c' token pub_b64 mac_b64 h =
      let (d, e1, h1) = >>=-eq-ok (or_throw bad_base64 (unb64 p pub_b64)) _ h in
      let (got, e2, h2) = >>=-eq-ok (or_throw bad_base64 (unb64 p mac_b64)) _ h1 in
      let expect = p.hmac (p.utf8_encode token) d in
      elim (Bool-cases (not (length expect == length got) || not (every_same expect got))) [
        | inl bad ↦ let wrong : err bad_mac ≡ ok c' = rw bad at h2 in cc
        | inr good ↦
            let (priv, key, e3, e4, e5) = finish_end c c' d (rw good at h2) in
            let same = eq_of_every_same expect got (ground arith) (ground arith) in
            let decoded = or_throw-eq-ok bad_base64 (unb64 p mac_b64) e2 in
            (
              d,
              priv,
              key,
              or_throw-eq-ok bad_base64 (unb64 p pub_b64) e1,
              rw same decoded,
              e3,
              e4,
              e5,
            )
      ]

  -- A session key is there after an accepted answer, and a new proof loses none.
  pub finish-established :
      (c c' : E2eClient) (token pub_b64 mac_b64 : String)
      → finish p c token pub_b64 mac_b64 ≡ ok c'
      → established c' ≡ true
  finish-established c c' token pub_b64 mac_b64 h =
      let (_, _, _, _, _, _, _, e) = finish_sound c c' token pub_b64 mac_b64 h in ap established e

  pub proof_message-established :
      (c : E2eClient) (token : String) (priv : List ℕ)
      → established c ≡ true
      → established (proof_message p c token priv).0 ≡ true
  unfolding proof_message
  proof_message-established c token priv h = h

  -- After an accepted answer no further answer is accepted, a replay of the first included.
  pub finish_once :
      (c c' c'' : E2eClient) (token pub_b64 mac_b64 pub_b64' mac_b64' : String)
      → finish p c token pub_b64 mac_b64 ≡ ok c'
      → finish p c' token pub_b64' mac_b64' ≢ ok c''
  finish_once c c' c'' token pub_b64 mac_b64 pub_b64' mac_b64' h h' =
      let (_, _, _, _, _, _, _, e) = finish_sound c c' token pub_b64 mac_b64 h in
      let (_, _, _, _, _, e', _, _) = finish_sound c' c'' token pub_b64' mac_b64' h' in
      cc (ap (λ (s : E2eClient). s.priv) e)

-- Tokens that differ, and a proof that comes back.
module _ (p : Platform) (std : IsStandard p) where
  -- A token that gives another MAC of the client's key, whose private key has 32 bytes, is refused by the
  -- daemon, and the handshake ends there.
  pub exchange_refuses :
      (c : E2eClient) (client_token daemon_token : String) (priv secret : List ℕ)
      → length priv ≡ 32
      → p.hmac (p.utf8_encode daemon_token) (p.public_key priv)
        ≢ p.hmac (p.utf8_encode client_token) (p.public_key priv)
      → exchange p c client_token daemon_token priv secret ≡ err bad_mac
  unfolding exchange answer proof_message verify_client
  exchange_refuses c client_token daemon_token priv secret hp differ =
      let P = p.public_key priv in
      let M = p.hmac (p.utf8_encode client_token) P in
      let E = p.hmac (p.utf8_encode daemon_token) P in
      rw (
        std.parse-stringify (auth_proof (b64 p P) (b64 p M)) refl,
        verify_client,
        decode_pub_lem p std priv hp,
        atob-b64 p std M (std.hmac_bytes _ _),
        same_false E M differ,
      )

  -- The MAC names no role: a proof that is sent back to the client that made it is accepted as the
  -- daemon's answer, by whoever relays it and without the token, where the private key has 32 bytes.
  pub finish-proof_message :
      (c : E2eClient) (token : String) (priv : List ℕ) (pub_b64 mac_b64 : String)
      → length priv ≡ 32
      → p.parse (proof_message p c token priv).1 ≡ some (auth_proof pub_b64 mac_b64)
      → let P = p.public_key priv in
        finish p (proof_message p c token priv).0 token pub_b64 mac_b64
        ≡ ok (record {
          key = some (p.hkdf (p.diffie_hellman priv P) (P ++ P) (p.utf8_encode hkdf_info) 32);
          priv = none;
        })
  unfolding proof_message
  finish-proof_message c token priv pub_b64 mac_b64 hp h =
      let P = p.public_key priv in
      let M = p.hmac (p.utf8_encode token) P in
      let sent = std.parse-stringify (auth_proof (b64 p P) (b64 p M)) refl in
      let e1 : unb64 p pub_b64 ≡ some P =
        cc (sent, unb64-b64 p std P (std.public_key_bytes priv hp)) in
      let e2 : unb64 p mac_b64 ≡ some M = cc (sent, unb64-b64 p std M (std.hmac_bytes _ _)) in
      finish_lem p (record c { priv = some priv }) token pub_b64 mac_b64 P M e1 e2 refl priv _ refl
        (derive_lem p priv P _ (std.public_key_length priv hp) (std.public_key_length priv hp)
          (std.agreement priv priv hp hp))
