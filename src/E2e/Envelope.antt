-- ===== src/E2e/Envelope.antt =====
-- The encrypted envelope: what one side seals the other opens.
use remote_agent.Common.{ℕ, length, ◌≡◌, refl, String, some, List, All}
use remote_agent.Platform.{Platform, IsByte, IsStandard}
use remote_agent.Protocol.{enc}
use remote_agent.Protocol.Codec.{b64}
use remote_agent.Protocol.Codec.RoundTrip.{unb64-b64}
use remote_agent.E2e.{E2eClient, seal, open_frame, open_envelope}
use remote_agent.E2e.Results.{ok, ◌>>=◌, or_throw, not_established, >>=-eq-ok}

module _ (p : Platform) (std : IsStandard p) where
  -- Two clients with one session key of 32 bytes: what the first seals, with any nonce of twelve bytes, the
  -- second opens to the same text, if the text is one that UTF-8 carries unchanged.
  pub open_envelope-seal :
      (c c' : E2eClient) (key nonce : List ℕ) (plaintext : String)
      → c.key ≡ some key
      → c'.key ≡ some key
      → length key ≡ 32
      → length nonce ≡ 12
      → All IsByte nonce
      → p.utf8_decode (p.utf8_encode plaintext) ≡ plaintext
      → (seal p c plaintext nonce >>= open_envelope p c') ≡ ok plaintext
  unfolding seal open_envelope open_frame
  open_envelope-seal c c' key nonce plaintext e e' hk hn h u =
      let ct = p.encrypt key nonce (p.utf8_encode plaintext) in
      rw (
        e,
        e',
        std.parse-stringify (enc (b64 p nonce) (b64 p ct)) refl,
        unb64-b64 p std nonce h,
        unb64-b64 p std ct (std.encrypt_bytes _ _ _ hk hn),
        std.decrypt-encrypt key nonce (p.utf8_encode plaintext) hk hn (std.utf8_bytes plaintext),
        u,
      )

  -- What `seal` gives is the text of an envelope.
  pub parse-seal :
      (c : E2eClient) (plaintext : String) (nonce : List ℕ) (wire : String)
      → seal p c plaintext nonce ≡ ok wire
      → (nn ct : String) × (p.parse wire ≡ some (enc nn ct))
  unfolding seal
  parse-seal c plaintext nonce wire h =
      let (key, e, sealed) = >>=-eq-ok (or_throw not_established c.key) _ h in
      let ct = p.encrypt key nonce (p.utf8_encode plaintext) in
      (b64 p nonce, b64 p ct, cc (std.parse-stringify (enc (b64 p nonce) (b64 p ct)) refl))
