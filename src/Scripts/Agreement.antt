-- ===== src/Scripts/Agreement.antt =====
-- The encryption of the smoke tests against that of web/src/lib/e2e.ts: they agree on every answer of a
-- daemon and on every envelope.
use remote_agent.Common.{
  ℕ, ◌-◌, ◌≤◌, ◌≡◌, refl, sym, ap, ◌∙◌, String, Bool, true, false, ◌&&◌, Option, none, some, List,
  [], ◌∷◌, ◌++◌, length, drop, take-append-drop, length-drop, ◌==◌, nat_eq, Bool-cases,
  Option-cases, inl, inr, arith, All,
}
use remote_agent.Platform.{Platform, IsByte, IsStandard}
use remote_agent.Protocol.{Frame, auth_proof, enc}
use remote_agent.Protocol.Codec.{b64}
use remote_agent.Protocol.Codec.RoundTrip.{unb64_of_atob, b64_lem}
use remote_agent.E2e.{
  E2eClient, every_same, derive, finish, proof_message, open_frame, open_envelope, hkdf_info,
}
use remote_agent.E2e
use remote_agent.E2e.Halves.{derive_lem}
use remote_agent.E2e.Results.{
  Result, ok, err, ◌>>=◌, or_throw, bad_mac, bad_key, decrypt_failed, bad_json,
}
use remote_agent.Scripts.{Node, IsSame, spki_prefix, has_mark}
use remote_agent.Scripts.Cipher.{
  Finished, keyed, mismatch, crashed, Unsealed, null, opened, broken, equals, public_raw,
  start_handshake, derive_key, finish_handshake, seal, unseal_frame, unseal, last_bytes,
  but_last_bytes,
}

equals_lem : (a b : List ℕ) → equals a b ≡ (length a == length b && every_same a b)
unfolding equals every_same
equals_lem [] [] = refl
equals_lem [] (b ∷ bs) = ground arith
equals_lem (a ∷ as') [] = ground arith
equals_lem (a ∷ as') (b ∷ bs) = ground (arith, equals_lem as' bs)

-- What the end of a script's handshake is for the client.
abbrev pub told : Finished → Result E2eClient
told (keyed key) = ok (record { key = some key; priv = none })
told mismatch = err bad_mac
told crashed = err bad_key

-- What `unseal` gives, for the client that opens the same envelope.
abbrev pub read_as : Unsealed → Result String
read_as null = err E2e.Results.not_enc
read_as (opened s) = ok s
read_as broken = err decrypt_failed

module _ (p : Platform) (n : Node) (std : IsStandard p) (same : IsSame p n) where
  public_raw_lem : (priv : List ℕ) → length priv ≡ 32 → public_raw p n priv ≡ p.public_key priv
  unfolding public_raw
  public_raw_lem priv hp =
      let twelve : length (spki_prefix ++ p.public_key priv) - 32 ≡ 12 =
        omega (arith, std.public_key_length priv hp) in
      rw (same.export_spki priv) (ap (λ k. drop k (spki_prefix ++ p.public_key priv)) twelve)

  -- The scripts send the proof that the client sends.
  start_handshake-proof_message :
      (c : E2eClient) (token : String) (priv : List ℕ)
      → length priv ≡ 32
      → start_handshake p n token priv ≡ (proof_message p c token priv).1
  unfolding start_handshake proof_message
  start_handshake-proof_message c token priv hp =
      let P = p.public_key priv in
      let M = p.hmac (p.utf8_encode token) P in
      let texts : List ℕ → List ℕ → String =
        λ raw mac. p.stringify (auth_proof (n.to_base64 raw) (n.to_base64 mac)) in
      ap (λ raw. texts raw (n.hmac token raw)) (public_raw_lem priv hp)
      ∙ ap (texts P) (same.hmac token P)
      ∙ ap (λ t. p.stringify (auth_proof t (n.to_base64 M)))
          (same.to_base64 P (std.public_key_bytes priv hp) ∙ sym (b64_lem p std P))
      ∙ ap (λ t. p.stringify (auth_proof (b64 p P) t))
          (same.to_base64 M (std.hmac_bytes _ _) ∙ sym (b64_lem p std M))

  unshared : (priv d : List ℕ) → (length d == 32) ≡ false → p.shared_secret priv d ≡ none
  unshared priv d e = rw (same.diffie_hellman priv d, e) refl

  -- A shorter key is refused by both.
  short_key :
      (priv d : List ℕ)
      → length d ≤ 32
      → (length d == 32) ≡ false
      → (n.create_public_key (spki_prefix ++ d) ≡ none) × (p.shared_secret priv d ≡ none)
  short_key priv d h e = (rw (same.create_public_key d h, e) refl, unshared priv d e)

  right_key :
      (priv d : List ℕ)
      → length d ≤ 32
      → (length d == 32) ≡ true
      → (n.create_public_key (spki_prefix ++ d) ≡ some d)
        × (p.shared_secret priv d ≡ n.diffie_hellman priv d)
  right_key priv d h e =
      (rw (same.create_public_key d h, e) refl, rw (same.diffie_hellman priv d, e) refl)

  derive_unshared :
      (priv d : List ℕ) → p.shared_secret priv d ≡ none → derive p priv d ≡ err bad_key
  unfolding derive
  derive_unshared priv d e = rw (e, derive) refl

  shared_length : (priv d s : List ℕ) → p.shared_secret priv d ≡ some s → length d ≡ 32
  shared_length priv d s e = elim (Bool-cases (length d == 32)) [
    | inl right ↦ (nat_eq.decides (length d) 32).0 right
    | inr long ↦ let gone = sym (unshared priv d long) ∙ e in cc
  ]

  -- `derive_key` in the client's terms.
  derive_key_lem :
      (priv d : List ℕ)
      → length priv ≡ 32
      → length d ≤ 32
      → (d_key : Option (List ℕ)) → p.shared_secret priv d ≡ d_key
      → derive_key p n (some priv) d ≡ elim d_key [
        | none ↦ crashed
        | some s ↦ keyed (p.hkdf s (d ++ p.public_key priv) (p.utf8_encode hkdf_info) 32)
      ]
  unfolding derive_key
  derive_key_lem priv d hp hd none e = elim (Bool-cases (length d == 32)) [
    | inr long ↦ rw ((short_key priv d hd long).0, derive_key) refl
    | inl right ↦
        let (made, shared) = right_key priv d hd right in rw (made, derive_key, sym shared ∙ e) refl
  ]
  derive_key_lem priv d hp hd (some s) e = elim (Bool-cases (length d == 32)) [
    | inr long ↦ let gone = sym (short_key priv d hd long).1 ∙ e in cc
    | inl right ↦
        let (made, shared) = right_key priv d hd right in
        rw
          (
            made,
            derive_key,
            sym shared ∙ e,
            public_raw_lem priv hp,
            same.from_text hkdf_info,
            same.hkdf s (d ++ p.public_key priv) (p.utf8_encode hkdf_info) 32,
          )
          refl
  ]

  derive-derive_key :
      (priv d : List ℕ)
      → length priv ≡ 32
      → length d ≤ 32
      → (derive p priv d >>= λ key. ok (record { key = some key; priv = none }))
        ≡ told (derive_key p n (some priv) d)
  derive-derive_key priv d hp hd = elim (Option-cases (p.shared_secret priv d)) [
    | inl e ↦ rw (derive_unshared priv d e, derive_key_lem priv d hp hd none e) refl
    | inr (s, e) ↦
        rw
          (
            derive_lem p priv d s (shared_length priv d s e) (std.public_key_length priv hp) e,
            derive_key_lem priv d hp hd (some s) e,
          )
          refl
  ]

  -- An answer of the daemon has one end for the script and for the client, if its texts are base64, its key has
  -- no more than 32 bytes, and the private key has 32: both have the same session key, both find the MAC to be another, or both refuse the key.
  pub finish-finish_handshake :
      (c : E2eClient) (token : String) (priv : List ℕ) (pub_key mac : String) (d g : List ℕ)
      → c.priv ≡ some priv
      → p.atob pub_key ≡ some d
      → p.atob mac ≡ some g
      → length priv ≡ 32
      → length d ≤ 32
      → finish p c token pub_key mac ≡ told (finish_handshake p n token (some priv) pub_key mac)
  unfolding finish finish_handshake
  finish-finish_handshake c token priv pub_key mac d g started read_key read_mac hp hd =
      let expect = p.hmac (p.utf8_encode token) d in
      let read = unb64_of_atob p std pub_key d read_key (same.atob_bytes _ _ read_key) in
      let read' = unb64_of_atob p std mac g read_mac (same.atob_bytes _ _ read_mac) in
      let known : equals (n.hmac token (n.from_base64 pub_key)) (n.from_base64 mac)
          ≡ (length expect == length g && every_same expect g) =
        ap (λ t. equals (n.hmac token t) (n.from_base64 mac)) (same.from_base64 _ _ read_key)
        ∙ ap (λ t. equals t (n.from_base64 mac)) (same.hmac token d)
        ∙ ap (equals expect) (same.from_base64 _ _ read_mac)
        ∙ equals_lem expect g in
      let answer : Bool → Type 0 =
        λ b. equals (n.hmac token (n.from_base64 pub_key)) (n.from_base64 mac) ≡ b in
      elim (Bool-cases (length expect == length g)) [
        | inr other ↦
            let found : answer false = known ∙ rw other refl in
            rw (read, finish, read', other, found, finish_handshake) refl
        | inl fits ↦ elim (Bool-cases (every_same expect g)) [
          | inr other ↦
              let found : answer false = known ∙ rw (fits, other) refl in
              rw (read, finish, read', fits, other, found, finish_handshake) refl
          | inl right ↦
              let found : answer true = known ∙ rw (fits, right) refl in
              rw
                (
                  read,
                  finish,
                  read',
                  fits,
                  right,
                  started,
                  found,
                  finish_handshake,
                  same.from_base64 _ _ read_key,
                )
                (derive-derive_key priv d hp hd)
        ]
      ]

  -- A script's envelope is the client's.
  pub seal-seal :
      (key nonce : List ℕ) (m : Frame)
      → length key ≡ 32
      → length nonce ≡ 12
      → All IsByte nonce
      → E2e.seal p (record { key = some key; priv = none }) (p.stringify m) nonce
        ≡ ok (seal p n (some key) nonce m)
  unfolding E2e.seal seal
  seal-seal key nonce m hk hn bytes =
      let text = p.utf8_encode (p.stringify m) in
      let parts = n.encipher key nonce in
      let whole = λ (t : List ℕ). (parts t).0 ++ (parts t).1 in
      let sealed : n.to_base64 (whole (n.from_text (p.stringify m)))
          ≡ b64 p (p.encrypt key nonce text) =
        ap (λ t. n.to_base64 (whole t)) (same.from_text (p.stringify m))
        ∙ ap n.to_base64 (sym (same.encipher key nonce text hk hn))
        ∙ same.to_base64 _ (std.encrypt_bytes key nonce text hk hn)
        ∙ sym (b64_lem p std _) in
      let drawn : n.to_base64 nonce ≡ b64 p nonce =
        same.to_base64 nonce bytes ∙ sym (b64_lem p std nonce) in
      ap (λ t. ok (p.stringify (enc t (b64 p (p.encrypt key nonce text))))) (sym drawn)
      ∙ ap (λ t. ok (p.stringify (enc (n.to_base64 nonce) t))) (sym sealed)

  pub open_envelope-unseal :
      (c : E2eClient) (key : List ℕ) (raw nn ct : String) (nonce sealed : List ℕ)
      → c.key ≡ some key
      → p.parse raw ≡ some (enc nn ct)
      → p.atob nn ≡ some nonce
      → p.atob ct ≡ some sealed
      → length nonce ≡ 12
      → 16 ≤ length sealed
      → ((pt : List ℕ) → p.decrypt key nonce sealed ≡ some pt → has_mark pt ≡ false)
      → open_envelope p c raw ≡ read_as (unseal p n (some key) raw)
  unfolding open_envelope open_frame unseal unseal_frame
  open_envelope-unseal c key raw nn ct nonce sealed keyed' parsed e e' twelve tagged unmarked =
      let read = unb64_of_atob p std nn nonce e (same.atob_bytes _ _ e) in
      let read' = unb64_of_atob p std ct sealed e' (same.atob_bytes _ _ e') in
      let text = but_last_bytes 16 sealed in
      let tag = last_bytes 16 sealed in
      let sixteen : length tag ≡ 16 = omega (arith, length-drop (length sealed - 16) sealed) in
      let opens : n.decipher key nonce text tag ≡ p.decrypt key nonce sealed =
        sym (same.decipher key nonce text tag twelve sixteen)
        ∙ ap (p.decrypt key nonce) (take-append-drop (length sealed - 16) sealed) in
      let tried : Option (List ℕ) → Unsealed =
        λ o. elim o [ none ↦ broken | some pt ↦ opened (n.to_text pt) ] in
      let with : List ℕ → List ℕ → Unsealed =
        λ nonce' buf. tried (n.decipher key nonce' (but_last_bytes 16 buf) (last_bytes 16 buf)) in
      let script : unseal p n (some key) raw ≡ tried (p.decrypt key nonce sealed) =
        rw (parsed, unseal)
          (ap (with (n.from_base64 nn)) (same.from_base64 _ _ e')
            ∙ ap (λ b. with b sealed) (same.from_base64 _ _ e)
            ∙ ap tried opens) in
      let client : open_envelope p c raw
          ≡ (or_throw decrypt_failed (p.decrypt key nonce sealed) >>= λ pt. ok (p.utf8_decode pt)) =
        rw (keyed', parsed, read, read') refl in
      elim (Option-cases (p.decrypt key nonce sealed)) [
        | inl shut ↦ client ∙ rw shut refl ∙ ap read_as (sym (script ∙ ap tried shut))
        | inr (pt, got) ↦
            client
            ∙ rw got (ap ok (sym (same.to_text pt (unmarked pt got))))
            ∙ ap read_as (sym (script ∙ ap tried got))
      ]
