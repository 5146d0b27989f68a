-- ===== src/Pairing/Texts.antt =====
-- The tests and replacements that the source writes as anchored regular expressions.
use Prim.Native.Char.{code}
use Prim.Native.String.{◌++◌ as ◌+++◌}
use text.Mathlib.TextLemmas.{nil-append, cons-append}
use remote_agent.Common.{
  if_both, Bool-cases, inl, inr, ◌≡◌, refl, String, Bool, true, Option, none, some, is_some, ◌==◌,
  ==_refl, nat_eq, string_eq, if◌then◌else◌, arith,
}

-- What follows the prefix, where it stands at the start.
unfoldable pub strip_prefix : (prefix text : String) → Option String
strip_prefix String.[] s = some s
strip_prefix (String.◌∷◌ c p) String.[] = none
strip_prefix (String.◌∷◌ c p) (String.◌∷◌ d s) =
    let rest = strip_prefix p s in if code c == code d then rest else none

abbrev pub starts : (prefix text : String) → Bool
starts p s = is_some (strip_prefix p s)

unfoldable pub ends : (suffix text : String) → Bool
ends p String.[] = p == ""
ends p (String.◌∷◌ c s) = let rest = ends p s in if p == String.◌∷◌ c s then true else rest

-- `text.replace(/^prefix/, new)`
unfoldable pub replace_prefix : (prefix new text : String) → String
replace_prefix p new s = elim (strip_prefix p s) [ none ↦ s | some rest ↦ new +++ rest ]

-- `text.replace(/suffix$/, '')`
unfoldable pub drop_suffix : (suffix text : String) → String
drop_suffix p String.[] = ""
drop_suffix p (String.◌∷◌ c s) =
    let rest = String.◌∷◌ c (drop_suffix p s) in if p == String.◌∷◌ c s then "" else rest

pub strip_prefix-append : (p s : String) → strip_prefix p (p +++ s) ≡ some s
unfolding strip_prefix
strip_prefix-append String.[] s = rw (nil-append s)
strip_prefix-append (String.◌∷◌ c p) s =
    rw (cons-append c p s, strip_prefix, ==_refl (code c)) (strip_prefix-append p s)

pub ends_self : (p : String) → ends p p ≡ true
unfolding ends
ends_self String.[] = refl
ends_self (String.◌∷◌ c p) = rw (==_refl (String.◌∷◌ c p)) refl

pub ends-append : (p s : String) → ends p (s +++ p) ≡ true
unfolding ends
ends-append p String.[] = rw (nil-append p) (ends_self p)
ends-append p (String.◌∷◌ c s) =
    rw (cons-append c s p)
      (if_both (λ b. b ≡ true) (p == String.◌∷◌ c (s +++ p)) _ _ refl (ends-append p s))

pub starts-append : (p t s : String) → starts p t ≡ true → starts p (t +++ s) ≡ true
unfolding strip_prefix
starts-append String.[] t s h = refl
starts-append (String.◌∷◌ c p) String.[] s h = cc
starts-append (String.◌∷◌ c p) (String.◌∷◌ d t) s h = elim (Bool-cases (code c == code d)) [
  | inl e ↦ rw (cons-append d t s, strip_prefix, e) (starts-append p t s (rw e at h))
  | inr e ↦ absurd (ground (arith, e))
]

pub replace_prefix_nil : (p s : String) → replace_prefix p "" (p +++ s) ≡ s
unfolding replace_prefix
replace_prefix_nil p s = rw (strip_prefix-append p s, replace_prefix) (nil-append s)
