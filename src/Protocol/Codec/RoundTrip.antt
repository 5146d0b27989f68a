-- ===== src/Protocol/Codec/RoundTrip.antt =====
-- The base64 codecs lose nothing: the loops take every byte, and decoding gives the bytes back.
use mathlib.Core.Option
use remote_agent.Common.{
  ℕ, zero, suc, ◌+◌, ◌%◌, ◌≤◌, ◌<◌, ◌≡◌, refl, sym, ap, ◌∙◌, String, some, List, [], ◌∷◌, ◌++◌, map,
  append_assoc, append-nil, length, take, drop, take-append-drop, drop_of_le, All, arith,
  Bool-cases, ltb, inl, inr,
}
use remote_agent.Platform.{Platform, IsByte, IsStandard}
use remote_agent.Protocol.Codec.{
  append_chunks, append_bytes, b64encode, b64decode, b64, unb64, chunk,
}

drop_nil : (n : ℕ) → drop {A = ℕ} n [] ≡ []
drop_nil zero = refl
drop_nil (suc n) = refl

drop-drop : (n m : ℕ) (xs : List ℕ) → drop m (drop n xs) ≡ drop (n + m) xs
drop-drop zero m xs = ap (λ k. drop k xs) (omega arith)
drop-drop (suc n) m [] = drop_nil m ∙ sym (drop_nil (suc n + m))
drop-drop (suc n) m (x ∷ xs) =
    let e : suc (n + m) ≡ suc n + m = omega arith in drop-drop n m xs ∙ ap (λ k. drop k (x ∷ xs)) e

append_chunks_lem :
    (size fuel : ℕ) (bytes : List ℕ) (i : ℕ) (bin : List ℕ)
    → 0 < size
    → length bytes ≤ i + fuel
    → append_chunks size fuel bytes i bin ≡ bin ++ drop i bytes
unfolding append_chunks
append_chunks_lem size zero bytes i bin pos h =
    rw (drop_of_le i bytes (omega arith)) (sym (append-nil bin))
append_chunks_lem size (suc fuel) bytes i bin pos h = elim (Bool-cases (ltb i (length bytes))) [
  | inl more ↦
      rw
        (
          more,
          append_chunks_lem size fuel bytes (i + size) (bin ++ take size (drop i bytes)) pos
              (omega arith),
          append_assoc,
          ← drop-drop i size bytes,
          take-append-drop,
        )
        refl
  | inr done ↦ rw (done, drop_of_le i bytes (ground arith)) (sym (append-nil bin))
]

append_bytes_lem : (bin bytes : List ℕ) → append_bytes bin bytes ≡ bin ++ bytes
unfolding append_bytes
append_bytes_lem bin [] = sym (append-nil bin)
append_bytes_lem bin (b ∷ bytes) = rw (append_bytes_lem (bin ++ b ∷ []) bytes, append_assoc) refl

mod_bytes : (bs : List ℕ) → All IsByte bs → map (λ c. c % 256) bs ≡ bs
mod_bytes [] h = refl
mod_bytes (b ∷ bs) h = ground (arith, mod_bytes bs h.1)

module _ (p : Platform) (std : IsStandard p) where
  pub unb64_of_atob :
      (t : String) (bs : List ℕ) → p.atob t ≡ some bs → All IsByte bs → unb64 p t ≡ some bs
  unfolding unb64
  unb64_of_atob t bs e h = rw (e, unb64, Option.map) (ap some (mod_bytes bs h))

  b64encode_lem : (s : String) → b64encode p s ≡ p.btoa (p.utf8_encode s)
  unfolding b64encode
  b64encode_lem s =
      let bytes = p.utf8_encode s in
      ap p.btoa (append_chunks_lem chunk (length bytes) bytes 0 [] (omega arith) (omega arith))

  -- The loop over chunks passes on all bytes, and decoding an encoded text gives its UTF-8 bytes.
  pub b64decode-b64encode : (s : String) → b64decode p (b64encode p s) ≡ some (p.utf8_encode s)
  unfolding b64decode unb64
  b64decode-b64encode s =
      rw (b64encode_lem s)
        (unb64_of_atob _ _ (std.atob-btoa (p.utf8_encode s) (std.utf8_bytes s)) (std.utf8_bytes s))

  pub b64_lem : (bs : List ℕ) → b64 p bs ≡ p.btoa bs
  unfolding b64
  b64_lem bs = ap p.btoa (append_bytes_lem [] bs)

  pub unb64-b64 : (bs : List ℕ) → All IsByte bs → unb64 p (b64 p bs) ≡ some bs
  unb64-b64 bs h = rw (b64_lem bs) (unb64_of_atob (p.btoa bs) bs (std.atob-btoa bs h) h)
