-- ===== src/Scripts.antt =====
-- web/scripts: the smoke tests, which are clients of the protocol of their own, written with the functions
-- of Node where web/src uses those of the browser and of @noble.
pub mod Cipher
pub mod Sample
mod Examples
pub mod Agreement
pub mod Parts
pub mod SmokeWs
pub mod SmokeMulti
pub mod SmokeM5
use remote_agent.Common.{
  ℕ, ◌+◌, ◌-◌, ◌≤◌, ◌≡◌, String, Bool, true, false, ◌&&◌, ◌||◌, Option, none, some, List, [], ◌∷◌,
  ◌++◌, length, take, drop, All, ◌==◌, nat_eq, if◌then◌else◌,
}
use remote_agent.Platform.{Platform, IsByte}

-- What the scripts call: Buffer and the crypto module of Node. An exception is `none`.
pub record Node : Type 0 where
  -- Buffer.from(text, 'base64') and .toString('base64')
  pub from_base64 : String → List ℕ
  pub to_base64 : List ℕ → String
  -- Buffer.from(text) and .toString()
  pub from_text : String → List ℕ
  pub to_text : List ℕ → String
  -- createHmac('sha256', key).update(data).digest()
  pub hmac : (key : String) (data' : List ℕ) → List ℕ
  -- publicKey.export({ type: 'spki', format: 'der' }) of the key pair of a private key
  pub export_spki : List ℕ → List ℕ
  -- createPublicKey({ key, format: 'der', type: 'spki' })
  pub create_public_key : List ℕ → Option (List ℕ)
  -- diffieHellman({ privateKey, publicKey })
  pub diffie_hellman : List ℕ → List ℕ → Option (List ℕ)
  -- hkdfSync('sha256', ikm, salt, info, length)
  pub hkdf : List ℕ → List ℕ → List ℕ → ℕ → List ℕ
  -- createCipheriv('aes-256-gcm', key, nonce): the ciphertext and the tag
  pub encipher : List ℕ → List ℕ → List ℕ → List ℕ × List ℕ
  -- createDecipheriv('aes-256-gcm', key, nonce), setAuthTag(tag), update and final
  pub decipher : List ℕ → List ℕ → List ℕ → List ℕ → Option (List ℕ)

-- SPKI_PREFIX
abbrev pub spki_prefix : List ℕ
spki_prefix = 0x30 ∷ 0x2a ∷ 0x30 ∷ 0x05 ∷ 0x06 ∷ 0x03 ∷ 0x2b ∷ 0x65 ∷ 0x6e ∷ 0x03 ∷ 0x21 ∷ 0x00 ∷ []

-- A byte order mark, which TextDecoder takes off and Buffer does not.
abbrev pub has_mark : List ℕ → Bool
has_mark (a ∷ b ∷ c ∷ bs) = a == 0xef && b == 0xbb && c == 0xbf
has_mark _ = false

-- Node and the browser's packages compute the same standard functions: HMAC, X25519 with its DER form,
-- HKDF, AES-GCM with its tag behind the ciphertext, base64 and UTF-8.
pub record IsSame (p : Platform) (n : Node) : Type 0 where
  pub atob_bytes : (s : String) (bs : List ℕ) → p.atob s ≡ some bs → All IsByte bs
  pub from_base64 : (s : String) (bs : List ℕ) → p.atob s ≡ some bs → n.from_base64 s ≡ bs
  pub to_base64 : (bs : List ℕ) → All IsByte bs → n.to_base64 bs ≡ p.btoa bs
  pub from_text : (s : String) → n.from_text s ≡ p.utf8_encode s
  pub to_text : (bs : List ℕ) → has_mark bs ≡ false → n.to_text bs ≡ p.utf8_decode bs
  pub hmac : (key : String) (bs : List ℕ) → n.hmac key bs ≡ p.hmac (p.utf8_encode key) bs
  pub export_spki : (k : List ℕ) → n.export_spki k ≡ spki_prefix ++ p.public_key k
  -- What stands behind the key is not looked at, so of longer texts nothing is said.
  pub create_public_key :
      (bs : List ℕ)
      → length bs ≤ 32
      → n.create_public_key (spki_prefix ++ bs) ≡ (if length bs == 32 then some bs else none)
  pub diffie_hellman :
      (k bs : List ℕ)
      → p.shared_secret k bs ≡ (if length bs == 32 then n.diffie_hellman k bs else none)
  pub hkdf :
      (ikm salt info : List ℕ) (size : ℕ) → n.hkdf ikm salt info size ≡ p.hkdf ikm salt info size
  pub encipher :
      (k nonce text : List ℕ)
      → length k ≡ 32
      → length nonce ≡ 12
      → p.encrypt k nonce text ≡ (n.encipher k nonce text).0 ++ (n.encipher k nonce text).1
  pub decipher :
      (k nonce ct tag : List ℕ)
      → length nonce ≡ 12
      → length tag ≡ 16
      → p.decrypt k nonce (ct ++ tag) ≡ n.decipher k nonce ct tag
