-- ===== src/Panel/PairLink.antt =====
-- The pairing links of the overview and of the wizard.
use Prim.Native.Char.{Char, char}
use Prim.Native.String.{◌++◌ as ◌+++◌}
use text.Mathlib.TextLemmas.{nil-append, cons-append, append_assoc}
use remote_agent.Common.{
  ◌+◌, ◌≡◌, ◌≢◌, refl, ap, ◌∙◌, sym, String, false, some, ◌==◌, ==_ne, ==_refl, nat_eq, string_eq,
  arith,
}
use remote_agent.Platform.Sizes.{size}
use remote_agent.Connection.{truthy}
use remote_agent.Pairing.Target.{relay_http_base}
use remote_agent.Pairing.Texts.{strip_prefix, replace_prefix, drop_suffix, strip_prefix-append}
use remote_agent.Panel.{LocalInfo}
use remote_agent.Panel.Overview.{relay_web, pairing_link}
use remote_agent.Panel.Wizard.{pair_url}

size-append : (s t : String) → size (s +++ t) ≡ size s + size t
size-append String.[] t = rw (nil-append t) (omega arith)
size-append (String.◌∷◌ c s) t = rw (cons-append c s t) (omega (arith, size-append s t))

-- A text with something before its suffix is not the suffix.
not_longer : (c : Char) (p s : String) → (p == String.◌∷◌ c (s +++ p)) ≡ false
not_longer c p s =
    ==_ne p (String.◌∷◌ c (s +++ p)) (λ e. absurd (omega (arith, ap size e, size-append s p)))

drop_suffix_self : (p : String) → p ≢ "" → drop_suffix p p ≡ ""
unfolding drop_suffix
drop_suffix_self String.[] h = absurd (h refl)
drop_suffix_self (String.◌∷◌ c p) h = rw (==_refl (String.◌∷◌ c p)) refl

drop_suffix-append : (p s : String) → p ≢ "" → drop_suffix p (s +++ p) ≡ s
unfolding drop_suffix
drop_suffix-append p String.[] h = rw (nil-append p) (drop_suffix_self p h)
drop_suffix-append p (String.◌∷◌ c s) h =
    rw (cons-append c s p, drop_suffix, not_longer c p s)
      (ap (String.◌∷◌ c) (drop_suffix-append p s h))

replace_prefix-append : (p new s : String) → replace_prefix p new (p +++ s) ≡ new +++ s
unfolding replace_prefix
replace_prefix-append p new s = rw (strip_prefix-append p s, replace_prefix) refl

secure_stays : (s : String) → replace_prefix "ws://" "http://" ("https://" +++ s) ≡ "https://" +++ s
unfolding replace_prefix strip_prefix
secure_stays s = rw (cons-append (char 104 tt) "ttps://" s, strip_prefix) refl

truthy_secure : (s : String) → truthy (some ("wss://" +++ s)) ≡ some ("wss://" +++ s)
truthy_secure s =
    rw (==_ne ("wss://" +++ s) "" (λ e. absurd (omega (arith, ap size e, size-append "wss://" s))))
      refl

-- The address at which a relay serves the client.
relay_http_base_secure :
    (host : String) → relay_http_base (some ("wss://" +++ (host +++ "/ws"))) ≡ "https://" +++ host
unfolding relay_http_base
relay_http_base_secure host =
    rw (truthy_secure (host +++ "/ws"), relay_http_base)
      (ap (λ u. drop_suffix "/ws" (replace_prefix "ws://" "http://" u))
          (replace_prefix-append "wss://" "https://" (host +++ "/ws"))
        ∙ ap (drop_suffix "/ws")
            (secure_stays (host +++ "/ws") ∙ sym (append_assoc "https://" host "/ws"))
        ∙ drop_suffix-append "/ws" ("https://" +++ host) slash)
  where
    slash : ◌≢◌ {A = String} "/ws" ""
    slash e = absurd (omega (arith, ap size e))

-- What the link has behind its `#`.
abbrev pub fragment : LocalInfo → String
fragment local = "device=" +++ (local.device_id +++ ("&token=" +++ local.access_token))

relay_web_secure :
    (local : LocalInfo) (host : String)
    → local.relay_url ≡ some ("wss://" +++ (host +++ "/ws"))
    → relay_web local ≡ some (("https://" +++ host) +++ "/")
unfolding relay_web
relay_web_secure local host e =
    rw (e, relay_web, truthy_secure (host +++ "/ws"))
      (ap (λ base. some (base +++ "/")) (relay_http_base_secure host))

-- The fragment follows its `#`.
hash_fragment :
    (local : LocalInfo)
    → "#device=" +++ (local.device_id +++ ("&token=" +++ local.access_token))
      ≡ "#" +++ fragment local
hash_fragment local =
    append_assoc "#" "device=" (local.device_id +++ ("&token=" +++ local.access_token))

module _ (local : LocalInfo) (host : String)
    (relay : local.relay_url ≡ some ("wss://" +++ (host +++ "/ws")))
    (device : local.device_id ≢ "") where
  -- The link leads to the host of the relay, and the wizard has the same one.
  pub link_shape :
      (pairing_link local ≡ some ((("https://" +++ host) +++ "/") +++ ("#" +++ fragment local)))
      × (pair_url local ≡ pairing_link local)
  unfolding pairing_link pair_url
  link_shape = (
    rw (relay_web_secure local host relay, pairing_link)
        (ap (λ h. some ((("https://" +++ host) +++ "/") +++ h)) (hash_fragment local)),
    rw (relay_web_secure local host relay, pair_url, ==_ne local.device_id "" device, pairing_link)
        refl,
  )
