-- ===== src/Platform/Sample.antt =====
-- A platform that behaves as documented, small enough to compute with: the functions of the browser
-- and of the packages replaced by injective toys. The examples run on it.
use Prim.Native.Char.{Char, code}
use Prim.Native.String.{◌∷◌ as ◌∷ₛ◌}
use remote_agent.Common.{
  ℕ, zero, suc, ◌+◌, ◌%◌, ◌<◌, ◌≡◌, refl, ap, String, Bool, true, false, Option, none, some, List,
  [], ◌∷◌, ◌++◌, map, replicate, length-replicate, All, ◌==◌, nat_eq, if◌then◌else◌, arith,
}
use remote_agent.Platform.{Platform, IsByte, is_flat, IsStandard}
use remote_agent.Protocol.{Frame, client, daemon, auth_proof, enc, auth_ok, hello}

abbrev x_char : Char
x_char = "x"

abbrev y_char : Char
y_char = "y"

-- A number as so many x, and a y.
unfoldable pub unary : ℕ → String → String
unary zero s = y_char ∷ₛ s
unary (suc n) s = x_char ∷ₛ unary n s

abbrev pub bump : List ℕ → List ℕ
bump [] = []
bump (n ∷ ns) = suc n ∷ ns

unfoldable pub write : List ℕ → String
write [] = ""
write (n ∷ ns) = unary n (write ns)

unfoldable pub read : String → List ℕ
read String.[] = []
read (String.◌∷◌ c s) = let rest = read s in if code c == 120 then bump rest else 0 ∷ rest

read-unary : (n : ℕ) (s : String) → read (unary n s) ≡ n ∷ read s
unfolding read unary
read-unary zero s = refl
read-unary (suc n) s = rw (read-unary n s)

pub read-write : (ns : List ℕ) → read (write ns) ≡ ns
unfolding write read
read-write [] = refl
read-write (n ∷ ns) = rw (read-unary n (write ns), read-write ns)

-- Two texts in one: an x before each character of the first, a y before the second.
unfoldable pub pair : String → String → String
pair String.[] t = y_char ∷ₛ t
pair (String.◌∷◌ c s) t = x_char ∷ₛ (c ∷ₛ pair s t)

unfoldable pub unpair : String → String × String
unpair String.[] = ("", "")
unpair (String.◌∷◌ m String.[]) = ("", "")
unpair (String.◌∷◌ m (String.◌∷◌ c s)) =
    let (a, b) = unpair s in if code m == 120 then (c ∷ₛ a, b) else ("", c ∷ₛ s)

pub unpair-pair : (s t : String) → unpair (pair s t) ≡ (s, t)
unfolding unpair pair
unpair-pair String.[] String.[] = refl
unpair-pair String.[] (String.◌∷◌ c t) = refl
unpair-pair (String.◌∷◌ c s) t = ap (λ (q : String × String). (c ∷ₛ q.0, q.1)) (unpair-pair s t)

-- The texts of flat frames: a character for the kind, and the two fields.
unfoldable pub print : Frame → String
print (auth_proof key mac) = x_char ∷ₛ (x_char ∷ₛ pair key mac)
print (enc nn ct) = x_char ∷ₛ (y_char ∷ₛ pair nn ct)
print (daemon (auth_ok (some key) (some mac))) = y_char ∷ₛ (x_char ∷ₛ pair key mac)
print (client (hello id (some token))) = y_char ∷ₛ (y_char ∷ₛ pair id token)
print _ = ""

unfoldable pub by_kind : Bool → Bool → String → String → Frame
by_kind true true a b = auth_proof a b
by_kind true false a b = enc a b
by_kind false true a b = daemon (auth_ok (some a) (some b))
by_kind false false a b = client (hello a (some b))

unfoldable pub scan : String → Option Frame
scan String.[] = none
scan (String.◌∷◌ k String.[]) = none
scan (String.◌∷◌ k (String.◌∷◌ l s)) =
    let (a, b) = unpair s in some (by_kind (code k == 120) (code l == 120) a b)

scan-print : (f : Frame) → is_flat f ≡ true → scan (print f) ≡ some f
unfolding scan print by_kind
scan-print (auth_proof key mac) h = rw (unpair-pair key mac)
scan-print (enc nn ct) h = rw (unpair-pair nn ct)
scan-print (daemon (auth_ok (some key) (some mac))) h = rw (unpair-pair key mac)
scan-print (client (hello id (some token))) h = rw (unpair-pair id token)
scan-print _ h = cc

unfoldable pub low : List ℕ → List ℕ
low = map (λ c. c % 256)

pub low_bytes : (bs : List ℕ) → All IsByte (low bs)
unfolding low
low_bytes [] = tt
low_bytes (b ∷ bs) = (omega arith, low_bytes bs)

pub low_of_bytes : (bs : List ℕ) → All IsByte bs → low bs ≡ bs
unfolding low
low_of_bytes [] h = refl
low_of_bytes (b ∷ bs) h = ground (arith, low_of_bytes bs h.1)

unfoldable pub code_points : String → List ℕ
code_points String.[] = []
code_points (String.◌∷◌ c s) = code c ∷ code_points s

-- Texts of x and y are the ones that come back.
unfoldable pub letters : List ℕ → String
letters [] = ""
letters (n ∷ ns) = (if n == 120 then x_char else y_char) ∷ₛ letters ns

unfoldable pub sum : List ℕ → ℕ
sum [] = 0
sum (n ∷ ns) = n + sum ns

unfoldable pub head : List ℕ → ℕ
head [] = 0
head (n ∷ ns) = n

pub replicate_bytes : (n b : ℕ) → b < 256 → All IsByte (replicate n b)
replicate_bytes zero b h = tt
replicate_bytes (suc n) b h = (h, replicate_bytes n b h)

unfoldable pub mix : List ℕ → List ℕ → List ℕ
mix a public = (sum a % 256 + head public) ∷ []

unfoldable pub spread : List ℕ → List ℕ
spread a = replicate 32 (sum a % 256)

abbrev pub sample : Platform
sample = record {
  utf8_encode = λ s. low (code_points s);
  utf8_decode = letters;
  btoa = write;
  atob = λ s. some (read s);
  stringify = print;
  parse = scan;
  public_key = spread;
  shared_secret = λ a public. some (mix a public);
  diffie_hellman = mix;
  hmac = λ k m. low (k ++ m);
  hkdf = λ ikm salt info n. ikm ++ salt;
  encrypt = λ k n t. low t;
  decrypt = λ k n t. some t;
}

pub mix-spread : (a b : List ℕ) → mix a (spread b) ≡ mix b (spread a)
unfolding mix spread head
mix-spread a b = ap (λ (n : ℕ). n ∷ []) (omega arith)

pub sample-IsStandard : IsStandard sample
unfolding spread
sample-IsStandard = record {
  utf8_bytes = λ s. low_bytes (code_points s);
  atob-btoa = λ bs h. ap some (read-write bs);
  parse-stringify = scan-print;
  public_key_length = λ k e. length-replicate 32 (sum k % 256);
  public_key_bytes = λ k e. replicate_bytes 32 (sum k % 256) (omega arith);
  hmac_bytes = λ k m. low_bytes (k ++ m);
  agreement = λ a b e e'. ap some (mix-spread a b);
  encrypt_bytes = λ k n t e e'. low_bytes t;
  decrypt-encrypt = λ k n t e e' h. ap some (low_of_bytes t h);
}

-- What the examples compute with.
unfoldable pub sample_runs : Unit {0}
unfolding unary write read pair unpair print by_kind scan low code_points letters sum head mix
    spread
sample_runs = tt
