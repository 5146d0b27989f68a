-- ===== src/Scripts/Sample.antt =====
-- Functions of Node, and those of a browser beside them, that are the same as `Scripts.IsSame` has it.
use remote_agent.Common.{
  ℕ, ◌-◌, ◌≡◌, refl, ap, ◌∙◌, Option, none, some, List, ◌++◌, length, take, drop, replicate,
  length-append, take-append_self, All, All-append, ◌==◌, nat_eq, if◌then◌else◌, arith, subst,
}
use remote_agent.Platform.{Platform, IsByte, IsStandard}
use remote_agent.Platform.Sample.{
  sample, sample-IsStandard, read, write, read-write, low, low_bytes, low_of_bytes, code_points,
  letters, spread, mix, mix-spread, replicate_bytes,
}
use remote_agent.Scripts.{Node, IsSame, spki_prefix}

abbrev zeros : List ℕ
zeros = replicate 16 0

abbrev pub browser : Platform
browser = record sample {
  atob = λ s. some (low (read s));
  shared_secret = λ a public. if length public == 32 then some (mix a public) else none;
  encrypt = λ k n t. low t ++ zeros;
  decrypt = λ k n t. some (take (length t - 16) t);
}

abbrev pub node : Node
node = record {
  from_base64 = λ s. low (read s);
  to_base64 = write;
  from_text = λ s. low (code_points s);
  to_text = letters;
  hmac = λ key m. low (low (code_points key) ++ m);
  export_spki = λ k. spki_prefix ++ spread k;
  create_public_key = λ bs. if length (drop 12 bs) == 32 then some (drop 12 bs) else none;
  diffie_hellman = λ a public. some (mix a public);
  hkdf = λ ikm salt info n. ikm ++ salt;
  encipher = λ k n t. (low t, zeros);
  decipher = λ k n ct tag. some ct;
}

cut : (n : ℕ) (xs ys : List ℕ) → length ys ≡ n → take (length (xs ++ ys) - n) (xs ++ ys) ≡ xs
cut n xs ys h = take-append_self (length (xs ++ ys) - n) xs ys (omega (arith, length-append xs ys))

pub browser-IsStandard : IsStandard browser
unfolding spread
browser-IsStandard = record {
  utf8_bytes = sample-IsStandard.utf8_bytes;
  atob-btoa = λ bs h. ap some (ap low (read-write bs) ∙ low_of_bytes bs h);
  parse-stringify = sample-IsStandard.parse-stringify;
  public_key_length = sample-IsStandard.public_key_length;
  public_key_bytes = sample-IsStandard.public_key_bytes;
  hmac_bytes = sample-IsStandard.hmac_bytes;
  agreement = λ a b e e'. ap some (mix-spread a b);
  encrypt_bytes = λ k n t e e'.
      All-append IsByte (low t) zeros (low_bytes t) (replicate_bytes 16 0 (omega arith));
  decrypt-encrypt = λ k n t e e' h. ap some (cut 16 (low t) zeros refl ∙ low_of_bytes t h);
}

some_of : {a b : List ℕ} → ◌≡◌ {A = Option (List ℕ)} (some a) (some b) → a ≡ b
some_of e = cc

pub browser-node-IsSame : IsSame browser node
browser-node-IsSame = record {
  atob_bytes = λ s bs e. subst (All IsByte) (some_of e) (low_bytes (read s));
  from_base64 = λ s bs e. some_of e;
  to_base64 = λ bs h. refl;
  from_text = λ s. refl;
  to_text = λ bs h. refl;
  hmac = λ key bs. refl;
  export_spki = λ k. refl;
  create_public_key = λ bs h. refl;
  diffie_hellman = λ k bs. refl;
  hkdf = λ ikm salt info size. refl;
  encipher = λ k nonce text e e'. refl;
  decipher = λ k nonce ct tag h h'. ap some (cut 16 ct tag h');
}
