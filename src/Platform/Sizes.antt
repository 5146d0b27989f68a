-- ===== src/Platform/Sizes.antt =====
-- On the sample platform an envelope is longer than the text that it holds.
use remote_agent.Common.{
  ℕ, suc, ◌≤◌, ◌<◌, ◌%◌, ◌≡◌, refl, ap, String, Bool, true, false, some, List, [], ◌∷◌, map, length,
  ◌==◌, nat_eq, arith,
}
use Prim.Native.Char.{code}
use remote_agent.Platform.Sample.{sample, bump, read, letters, unpair, by_kind, scan}
use remote_agent.Protocol.{Frame, enc}
use remote_agent.Protocol.Codec.{unb64}
use remote_agent.E2e.{E2eClient, open_envelope, open_frame}
use remote_agent.E2e.Results.{ok, or_throw, not_established, bad_json, >>=-eq-ok, or_throw-eq-ok}

abbrev pub size : String → ℕ
size String.[] = 0
size (String.◌∷◌ c s) = suc (size s)

length-bump : (ns : List ℕ) → length (bump ns) ≡ length ns
length-bump [] = refl
length-bump (n ∷ ns) = refl

read-size : (s : String) → length (read s) ≤ size s
unfolding read
read-size String.[] = omega arith
read-size (String.◌∷◌ c s) = ground (arith, length-bump (read s), read-size s)

size-letters : (ns : List ℕ) → size (letters ns) ≡ length ns
unfolding letters
size-letters [] = refl
size-letters (n ∷ ns) = ap suc (size-letters ns)

low_size : (ns : List ℕ) → length (map (λ c. c % 256) ns) ≡ length ns
low_size [] = refl
low_size (n ∷ ns) = ap suc (low_size ns)

size-unpair : (s : String) → size (unpair s).1 ≤ size s
unfolding unpair
size-unpair String.[] = omega arith
size-unpair (String.◌∷◌ m String.[]) = omega arith
size-unpair (String.◌∷◌ m (String.◌∷◌ c s)) = ground (arith, size-unpair s)

second : Frame → String
second (enc nn ct) = ct
second _ = ""

size-by_kind : (k l : Bool) (a b : String) → size (second (by_kind k l a b)) ≤ size b
unfolding by_kind second
size-by_kind true true a b = omega arith
size-by_kind true false a b = omega arith
size-by_kind false true a b = omega arith
size-by_kind false false a b = omega arith

scan-size : (raw : String) (f : Frame) → scan raw ≡ some f → size (second f) < size raw
unfolding scan
scan-size String.[] f h = cc
scan-size (String.◌∷◌ k String.[]) f h = cc
scan-size (String.◌∷◌ k (String.◌∷◌ l s)) f h =
    let kind = by_kind (code k == 120) (code l == 120) (unpair s).0 (unpair s).1 in
    let e : kind ≡ f = cc in
    omega (
      arith,
      ap (λ (g : Frame). size (second g)) e,
      size-by_kind (code k == 120) (code l == 120) (unpair s).0 (unpair s).1,
      size-unpair s,
    )

opened_size :
    (key : List ℕ) (f : Frame) (text : String)
    → open_frame sample key f ≡ ok text
    → size text ≤ size (second f)
unfolding open_frame unb64 second
opened_size key (enc nn ct) text h =
    let e : letters (map (λ c. c % 256) (read ct)) ≡ text = cc in
    omega (
      arith,
      ap size e,
      size-letters (map (λ c. c % 256) (read ct)),
      low_size (read ct),
      read-size ct,
    )
opened_size key _ text h = cc

pub sample_shrinks :
    (e : E2eClient) (raw text : String)
    → open_envelope sample e raw ≡ ok text
    → size text < size raw
unfolding open_envelope
sample_shrinks e raw text h =
    let (key, _, h1) = >>=-eq-ok (or_throw not_established e.key) _ h in
    let (f, read_f, h2) = >>=-eq-ok (or_throw bad_json (scan raw)) _ h1 in
    let parsed = or_throw-eq-ok bad_json (scan raw) read_f in
    omega (arith, scan-size raw f parsed, opened_size key f text h2)
