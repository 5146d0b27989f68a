-- ===== src/Scripts/Parts.antt =====
-- What the smoke tests of web/scripts share: how a script ends, and what they look for in the output.
use remote_agent.Common.{
  ℕ, ◌≡◌, refl, String, Bool, true, false, ◌&&◌, ◌||◌, List, [], ◌∷◌, ◌++◌, ◌==◌, nat_eq, leb, any,
  arith,
}
use Prim.Native.Char.{code}

-- `process.exit(0)`, and `process.exit(1)` or an exception that nothing catches.
pub data Ending : Type 0 where
  running : Ending
  passed : Ending
  failed : Ending

unfoldable pub begins_with : (needle hay : List ℕ) → Bool
begins_with [] hay = true
begins_with (a ∷ as') [] = false
begins_with (a ∷ as') (b ∷ bs) = a == b && begins_with as' bs

-- `buf.includes(needle)`
unfoldable pub includes : (hay needle : List ℕ) → Bool
includes [] needle = begins_with needle []
includes (b ∷ bs) needle = begins_with needle (b ∷ bs) || includes bs needle

-- `\s` of a regular expression
unfoldable pub is_space : ℕ → Bool
is_space c =
    leb 9 c && leb c 13
    || leb 0x2000 c && leb c 0x200a
    || any (λ s. s == c)
        (0x20 ∷ 0xa0 ∷ 0x1680 ∷ 0x2028 ∷ 0x2029 ∷ 0x202f ∷ 0x205f ∷ 0x3000 ∷ 0xfeff ∷ [])

unfoldable pub starts_blank : String → Bool
starts_blank String.[] = false
starts_blank (String.◌∷◌ c s) = is_space (code c)

-- `/\$\s|#\s|>\s/.test(text)`
unfoldable pub has_prompt : String → Bool
has_prompt String.[] = false
has_prompt (String.◌∷◌ c s) =
    (code c == b'$' || code c == b'#' || code c == b'>') && starts_blank s || has_prompt s

begins_with-append :
    (needle hay more : List ℕ)
    → begins_with needle hay ≡ true
    → begins_with needle (hay ++ more) ≡ true
unfolding begins_with
begins_with-append [] hay more h = refl
begins_with-append (a ∷ as') [] more h = cc
begins_with-append (a ∷ as') (b ∷ bs) more h = ground (arith, begins_with-append as' bs more)

begins_with_includes :
    (needle hay : List ℕ) → begins_with needle hay ≡ true → includes hay needle ≡ true
unfolding includes
begins_with_includes needle [] h = h
begins_with_includes needle (b ∷ bs) h = rw h

-- What a buffer includes it still includes when more is put behind it.
pub includes-append :
    (hay more needle : List ℕ) → includes hay needle ≡ true → includes (hay ++ more) needle ≡ true
unfolding includes
includes-append [] more needle h =
    begins_with_includes needle more (begins_with-append needle [] more h)
includes-append (b ∷ bs) more needle h =
    ground (arith, begins_with-append needle (b ∷ bs) more, includes-append bs more needle)
