-- ===== src/Platform.antt =====
-- What the client calls and does not implement: the browser's text, base64 and JSON functions, and
-- the cryptography of the @noble packages (of the dalek, hmac, hkdf and aes-gcm crates at the
-- daemon). A binary string is the list of its char codes; an exception is `none`.
pub mod Sample
pub mod Sizes
use remote_agent.Common.{ℕ, ◌<◌, ◌≡◌, String, Bool, true, false, Option, some, List, length, All}
use remote_agent.Protocol.{Frame, client, daemon, auth_proof, enc, auth_ok, hello}

pub record Platform : Type 0 where
  -- new TextEncoder().encode, new TextDecoder().decode
  pub utf8_encode : String → List ℕ
  pub utf8_decode : List ℕ → String
  -- btoa and atob
  pub btoa : List ℕ → String
  pub atob : String → Option (List ℕ)
  -- JSON.stringify and JSON.parse
  pub stringify : Frame → String
  pub parse : String → Option Frame
  -- x25519.getPublicKey, x25519.getSharedSecret, and diffie_hellman of x25519-dalek
  pub public_key : List ℕ → List ℕ
  pub shared_secret : List ℕ → List ℕ → Option (List ℕ)
  pub diffie_hellman : List ℕ → List ℕ → List ℕ
  -- hmac(sha256, key, data) and hkdf(sha256, ikm, salt, info, length)
  pub hmac : List ℕ → List ℕ → List ℕ
  pub hkdf : List ℕ → List ℕ → List ℕ → ℕ → List ℕ
  -- gcm(key, nonce).encrypt and .decrypt
  pub encrypt : List ℕ → List ℕ → List ℕ → List ℕ
  pub decrypt : List ℕ → List ℕ → List ℕ → Option (List ℕ)

abbrev pub IsByte : ℕ → Type 0
IsByte b = b < 256

-- The objects whose fields are two texts: the handshake's, the envelope, and a hello with a token.
abbrev pub is_flat : Frame → Bool
is_flat (auth_proof key mac) = true
is_flat (enc nn ct) = true
is_flat (daemon (auth_ok (some key) (some mac))) = true
is_flat (client (hello id (some token))) = true
is_flat _ = false

-- The documented behaviour of these functions: keys have 32 bytes, and the nonces of AES-GCM twelve.
pub record IsStandard (p : Platform) : Type 0 where
  pub utf8_bytes : (s : String) → All IsByte (p.utf8_encode s)
  pub atob-btoa : (bs : List ℕ) → All IsByte bs → p.atob (p.btoa bs) ≡ some bs
  pub parse-stringify : (f : Frame) → is_flat f ≡ true → p.parse (p.stringify f) ≡ some f
  pub public_key_length : (k : List ℕ) → length k ≡ 32 → length (p.public_key k) ≡ 32
  pub public_key_bytes : (k : List ℕ) → length k ≡ 32 → All IsByte (p.public_key k)
  pub hmac_bytes : (k m : List ℕ) → All IsByte (p.hmac k m)
  pub agreement :
      (a b : List ℕ)
      → length a ≡ 32
      → length b ≡ 32
      → p.shared_secret a (p.public_key b) ≡ some (p.diffie_hellman b (p.public_key a))
  pub encrypt_bytes :
      (k n t : List ℕ) → length k ≡ 32 → length n ≡ 12 → All IsByte (p.encrypt k n t)
  pub decrypt-encrypt :
      (k n t : List ℕ)
      → length k ≡ 32
      → length n ≡ 12
      → All IsByte t
      → p.decrypt k n (p.encrypt k n t) ≡ some t
