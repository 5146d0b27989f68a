-- ===== src/Protocol/Codec.antt =====
-- `b64encode` and `b64decode` of web/src/lib/protocol.ts, and their twins `b64` and `unb64` of
-- web/src/lib/e2e.ts.
pub mod RoundTrip
use mathlib.Core.Option
use remote_agent.Common.{
  ℕ, zero, suc, ◌+◌, ◌%◌, String, Option, List, [], ◌∷◌, ◌++◌, map, length, take, drop, ltb,
  if◌then◌else◌,
}
use remote_agent.Platform.{Platform}

abbrev pub chunk : ℕ
chunk = 0x8000

-- The loop of `b64encode`: a chunk of the bytes is appended in each round.
unfoldable pub append_chunks : ℕ → ℕ → List ℕ → ℕ → List ℕ → List ℕ
append_chunks size zero bytes i bin = bin
append_chunks size (suc fuel) bytes i bin =
    let rest = append_chunks size fuel bytes (i + size) (bin ++ take size (drop i bytes)) in
    if ltb i (length bytes) then rest else bin

-- The loop of `b64`: a byte is appended in each round.
unfoldable pub append_bytes : List ℕ → List ℕ → List ℕ
append_bytes bin [] = bin
append_bytes bin (b ∷ bytes) = append_bytes (bin ++ b ∷ []) bytes

module _ (p : Platform) where
  unfoldable pub b64encode : String → String
  b64encode s =
      let bytes = p.utf8_encode s in p.btoa (append_chunks chunk (length bytes) bytes 0 [])

  -- An element of a Uint8Array keeps the low eight bits.
  unfoldable pub b64decode : String → Option (List ℕ)
  b64decode s = Option.map (map (λ c. c % 256)) (p.atob s)

  unfoldable pub b64 : List ℕ → String
  b64 bytes = p.btoa (append_bytes [] bytes)

  unfoldable pub unb64 : String → Option (List ℕ)
  unb64 s = Option.map (map (λ c. c % 256)) (p.atob s)
