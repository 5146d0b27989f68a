-- ===== src/E2e/Halves.antt =====
-- The two halves of the handshake, each on what an honest other side sends.
use remote_agent.Common.{
  ℕ, ◌+◌, ◌≤◌, ◌≡◌, ◌≢◌, refl, String, true, false, ◌&&◌, none, some, List, [], ◌∷◌, ◌++◌,
  append-nil, length, replicate, take, drop, length-append, drop_of_le, take-append_self, ◌==◌,
  ==_refl, nat_eq, inl, inr, Bool-cases, arith, All,
}
use remote_agent.Platform.{Platform, IsByte, IsStandard}
use remote_agent.Protocol.{auth_proof, daemon, auth_ok}
use remote_agent.Protocol.Codec.{b64, unb64}
use remote_agent.Protocol.Codec.RoundTrip.{unb64_of_atob, b64_lem}
use remote_agent.E2e.{E2eClient, every_same, typed_set, hkdf_info, derive, finish}
use remote_agent.E2e.Results.{ok}
use remote_agent.E2e.DaemonSide.{decode_pub, verify_client, daemon_finish, answer}

every_same_refl : (bs : List ℕ) → every_same bs bs ≡ true
unfolding every_same
every_same_refl [] = refl
every_same_refl (b ∷ bs) = ground (arith, every_same_refl bs)

-- Lists of one length that `every` finds the same are equal.
pub eq_of_every_same : (bs gs : List ℕ) → length bs ≡ length gs → every_same bs gs ≡ true → bs ≡ gs
unfolding every_same
eq_of_every_same [] [] e h = refl
eq_of_every_same [] (g ∷ gs) e h = absurd (omega arith)
eq_of_every_same (b ∷ bs) [] e h = cc
eq_of_every_same (b ∷ bs) (g ∷ gs) e h = ground (arith, eq_of_every_same bs gs)

-- The test of two MACs fails on two that differ.
pub same_false : (bs gs : List ℕ) → bs ≢ gs → (length bs == length gs && every_same bs gs) ≡ false
same_false bs gs h = elim (Bool-cases (length bs == length gs && every_same bs gs)) [
  | inl same ↦ absurd (h (eq_of_every_same bs gs (ground arith) (ground arith)))
  | inr differ ↦ differ
]

typed_set_lem :
    (dst src : List ℕ) (offset : ℕ)
    → offset + length src ≤ length dst
    → typed_set dst src offset ≡ ok (take offset dst ++ src ++ drop (offset + length src) dst)
unfolding typed_set
typed_set_lem dst src offset h = ground arith

-- Two arrays of 32 bytes fill the salt in their order.
salt_first :
    (d : List ℕ) → length d ≡ 32 → typed_set (replicate 64 0) d 0 ≡ ok (d ++ replicate 32 0)
salt_first d hd = rw (typed_set_lem (replicate 64 0) d 0 (omega arith), hd) refl

salt_second :
    (d c : List ℕ)
    → length d ≡ 32
    → length c ≡ 32
    → typed_set (d ++ replicate 32 0) c 32 ≡ ok (d ++ c)
salt_second d c hd hc =
    let total = length-append d (replicate 32 0) in
    rw (
      typed_set_lem (d ++ replicate 32 0) c 32 (omega (arith, total)),
      take-append_self 32 d (replicate 32 0) hd,
      drop_of_le (32 + length c) (d ++ replicate 32 0) (omega (arith, total)),
      append-nil (d ++ c),
    )

module _ (p : Platform) where
  pub derive_lem :
      (priv d s : List ℕ)
      → length d ≡ 32
      → length (p.public_key priv) ≡ 32
      → p.shared_secret priv d ≡ some s
      → derive p priv d ≡ ok (p.hkdf s (d ++ p.public_key priv) (p.utf8_encode hkdf_info) 32)
  unfolding derive
  derive_lem priv d s hd hc e =
      rw (e, derive, salt_first d hd, salt_second d (p.public_key priv) hd hc)

  -- `finish` by its tests: what it does once both texts are decoded.
  pub finish_lem :
      (c : E2eClient) (token pub_b64 mac_b64 : String) (d got : List ℕ)
      → unb64 p pub_b64 ≡ some d
      → unb64 p mac_b64 ≡ some got
      → got ≡ p.hmac (p.utf8_encode token) d
      → (priv key : List ℕ) → c.priv ≡ some priv
      → derive p priv d ≡ ok key
      → finish p c token pub_b64 mac_b64 ≡ ok (record { key = some key; priv = none })
  unfolding finish
  finish_lem c token pub_b64 mac_b64 d got e1 e2 e3 priv key e4 e5 =
      let mac = p.hmac (p.utf8_encode token) d in
      rw (e1, finish, e2, e3, ==_refl (length mac), every_same_refl mac, e4, e5)

module _ (p : Platform) (std : IsStandard p) where
  pub atob-b64 : (bs : List ℕ) → All IsByte bs → p.atob (b64 p bs) ≡ some bs
  atob-b64 bs h = rw (b64_lem p std bs) (std.atob-btoa bs h)

  pub decode_pub_lem :
      (k : List ℕ) → length k ≡ 32 → decode_pub p (b64 p (p.public_key k)) ≡ ok (p.public_key k)
  unfolding decode_pub
  decode_pub_lem k h =
      rw (
        atob-b64 (p.public_key k) (std.public_key_bytes k h),
        decode_pub,
        std.public_key_length k h,
      )

  verify_client_lem :
      (token : String) (priv secret : List ℕ)
      → length priv ≡ 32
      → let t = p.utf8_encode token in
        let public = p.public_key secret in
        verify_client p token
          (b64 p (p.public_key priv))
          (b64 p (p.hmac t (p.public_key priv)))
          secret
        ≡ ok (
            p.stringify (daemon (auth_ok (some (p.btoa public)) (some (p.btoa (p.hmac t public))))))
  unfolding verify_client
  verify_client_lem token priv secret h =
      let mac = p.hmac (p.utf8_encode token) (p.public_key priv) in
      rw (
        decode_pub_lem priv h,
        verify_client,
        atob-b64 mac (std.hmac_bytes _ _),
        ==_refl (length mac),
        every_same_refl mac,
      )

  daemon_finish_lem :
      (priv secret : List ℕ)
      → length priv ≡ 32
      → daemon_finish p secret (b64 p (p.public_key priv))
        ≡ ok (
            p.hkdf
              (p.diffie_hellman secret (p.public_key priv))
              (p.public_key secret ++ p.public_key priv)
              (p.utf8_encode hkdf_info)
              32)
  unfolding daemon_finish
  daemon_finish_lem priv secret h = rw (decode_pub_lem priv h, daemon_finish)

  -- The client accepts what the daemon answers, and has the daemon's key.
  pub finish_answer :
      (c : E2eClient) (token : String) (priv secret : List ℕ)
      → c.priv ≡ some priv
      → length priv ≡ 32
      → length secret ≡ 32
      → let public = p.public_key secret in
        finish p c token (p.btoa public) (p.btoa (p.hmac (p.utf8_encode token) public))
        ≡ ok (record {
          key = some (
              p.hkdf
                (p.diffie_hellman secret (p.public_key priv))
                (p.public_key secret ++ p.public_key priv)
                (p.utf8_encode hkdf_info)
                32);
          priv = none;
        })
  finish_answer c token priv secret e hp hs =
      let S = p.public_key secret in
      let R = p.hmac (p.utf8_encode token) S in
      finish_lem p c token (p.btoa S) (p.btoa R) S R
        (unb64_of_atob p std _ S (std.atob-btoa S (std.public_key_bytes secret hs))
          (std.public_key_bytes secret hs))
        (unb64_of_atob p std _ R (std.atob-btoa R (std.hmac_bytes _ _)) (std.hmac_bytes _ _)) refl
        priv _ e
        (derive_lem p priv S _ (std.public_key_length secret hs) (std.public_key_length priv hp)
          (std.agreement priv secret hp hs))

  -- The daemon's answer to a proof with its own token.
  pub answer_lem :
      (token : String) (priv secret : List ℕ)
      → length priv ≡ 32
      → let t = p.utf8_encode token in
        let public = p.public_key secret in
        answer p token secret
          (auth_proof (b64 p (p.public_key priv)) (b64 p (p.hmac t (p.public_key priv))))
        ≡ ok (
          p.stringify (daemon (auth_ok (some (p.btoa public)) (some (p.btoa (p.hmac t public))))),
          p.hkdf
              (p.diffie_hellman secret (p.public_key priv))
              (public ++ p.public_key priv)
              (p.utf8_encode hkdf_info)
              32,
        )
  unfolding answer
  answer_lem token priv secret h =
      rw (verify_client_lem token priv secret h, daemon_finish_lem priv secret h) refl
