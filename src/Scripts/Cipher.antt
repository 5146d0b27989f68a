-- ===== src/Scripts/Cipher.antt =====
-- web/scripts/smoke-ws.mjs and smoke-multi.mjs: their own end-to-end encryption.
use remote_agent.Common.{
  ℕ, ◌-◌, String, Bool, true, false, ◌&&◌, not, Option, none, some, List, [], ◌∷◌, ◌++◌, length,
  take, drop, ◌==◌, nat_eq, if◌then◌else◌,
}
use remote_agent.Platform.{Platform}
use remote_agent.Protocol.{Frame, auth_proof, enc}
use remote_agent.E2e.{hkdf_info}
use remote_agent.Scripts.{Node, spki_prefix}

-- `buf.subarray(-size)` and `buf.subarray(0, -size)`
abbrev pub last_bytes : ℕ → List ℕ → List ℕ
last_bytes size bs = drop (length bs - size) bs

abbrev pub but_last_bytes : ℕ → List ℕ → List ℕ
but_last_bytes size bs = take (length bs - size) bs

-- `buf.equals(other)`
unfoldable pub equals : List ℕ → List ℕ → Bool
equals [] [] = true
equals (a ∷ as') (b ∷ bs) = a == b && equals as' bs
equals _ _ = false

-- What `finishHandshake` comes to: the key, the end of the script by `fail`, or by an exception.
pub data Finished : Type 0 where
  keyed : List ℕ → Finished
  mismatch : Finished
  crashed : Finished

-- What `unseal` gives for a text.
pub data Unsealed : Type 0 where
  null : Unsealed
  opened : String → Unsealed
  broken : Unsealed

module _ (p : Platform) (n : Node) where
  unfoldable pub public_raw : List ℕ → List ℕ
  public_raw priv = last_bytes 32 (n.export_spki priv)

  -- `startHandshake()` with the key pair that is drawn: the text that is sent.
  unfoldable pub start_handshake : (token : String) (priv : List ℕ) → String
  start_handshake token priv =
      let pub_raw = public_raw priv in
      let mac = n.hmac token pub_raw in
      p.stringify (auth_proof (n.to_base64 pub_raw) (n.to_base64 mac))

  -- `finishHandshake(m)` behind the test of the MAC; `keys` is undefined before `startHandshake`.
  unfoldable pub derive_key : (keys : Option (List ℕ)) (daemon_pub : List ℕ) → Finished
  derive_key keys daemon_pub = elim (n.create_public_key (spki_prefix ++ daemon_pub)) [
    | none ↦ crashed
    | some daemon_key ↦ elim keys [
      | none ↦ crashed
      | some priv ↦ elim (n.diffie_hellman priv daemon_key) [
        | none ↦ crashed
        | some shared ↦
            keyed (n.hkdf shared (daemon_pub ++ public_raw priv) (n.from_text hkdf_info) 32)
      ]
    ]
  ]

  unfoldable pub finish_handshake :
      (token : String) (keys : Option (List ℕ)) (pub_key mac : String) → Finished
  finish_handshake token keys pub_key mac =
      let daemon_pub = n.from_base64 pub_key in
      let expect = n.hmac token daemon_pub in
      if not (equals expect (n.from_base64 mac)) then mismatch else derive_key keys daemon_pub

  -- `seal(obj)` with what `randomBytes(12)` draws.
  unfoldable pub seal : (key : Option (List ℕ)) (nonce : List ℕ) → Frame → String
  seal none nonce m = p.stringify m
  seal (some key) nonce m =
      let (ct, tag) = n.encipher key nonce (n.from_text (p.stringify m)) in
      p.stringify (enc (n.to_base64 nonce) (n.to_base64 (ct ++ tag)))

  unfoldable pub unseal_frame : (key : Option (List ℕ)) → Frame → Unsealed
  unseal_frame (some key) (enc nn ct) =
      let buf = n.from_base64 ct in
      elim (n.decipher key (n.from_base64 nn) (but_last_bytes 16 buf) (last_bytes 16 buf)) [
        | none ↦ broken
        | some pt ↦ opened (n.to_text pt)
      ]
  unseal_frame _ m = null

  -- `unseal(s)`
  unfoldable pub unseal : (key : Option (List ℕ)) → String → Unsealed
  unseal key s = elim (p.parse s) [ none ↦ broken | some probe ↦ unseal_frame key probe ]
