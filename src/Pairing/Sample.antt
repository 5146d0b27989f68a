-- ===== src/Pairing/Sample.antt =====
-- A browser that is small enough to compute with: its texts of lists are a count in unary and the items.
use Prim.Native.Char.{code}
use Prim.Native.String.{◌++◌ as ◌+++◌}
use remote_agent.Common.{
  ℕ, zero, suc, ◌≡◌, refl, ap, String, true, Option, none, some, List, [], ◌∷◌, map, length, ◌==◌,
  nat_eq, if◌then◌else◌,
}
use remote_agent.Pairing.{Address, ClientRelay, Entry, relay, Site}
use remote_agent.Pairing.Arrival
use remote_agent.Pairing.Memory
use remote_agent.Pairing.Texts.{strip_prefix}
use remote_agent.Platform.Sample.{unary, pair, unpair, unpair-pair}

-- The count before a text, and the text.
unfoldable pub counted : String → ℕ × String
counted String.[] = (0, "")
counted (String.◌∷◌ c s) =
    let (n, rest) = counted s in if code c == 120 then (suc n, rest) else (0, s)

counted-unary : (n : ℕ) (s : String) → counted (unary n s) ≡ (n, s)
unfolding counted unary
counted-unary zero s = refl
counted-unary (suc n) s = ap (λ (q : ℕ × String). (suc q.0, q.1)) (counted-unary n s)

unfoldable pub pack : List String → String
pack [] = ""
pack (s ∷ ss) = pair s (pack ss)

unfoldable pub unpack : ℕ → String → List String
unpack zero s = []
unpack (suc n) s = let (a, b) = unpair s in a ∷ unpack n b

unpack-pack : (ss : List String) → unpack (length ss) (pack ss) ≡ ss
unfolding unpack pack
unpack-pack [] = refl
unpack-pack (s ∷ ss) = rw (unpair-pair s (pack ss), unpack-pack ss)

unfoldable pub write_texts : List String → String
write_texts ss = unary (length ss) (pack ss)

unfoldable pub read_texts : String → List String
read_texts s = let (n, rest) = counted s in unpack n rest

read_texts-write_texts : (ss : List String) → read_texts (write_texts ss) ≡ ss
unfolding read_texts write_texts
read_texts-write_texts ss = rw (counted-unary (length ss) (pack ss), unpack-pack ss)

-- Items that a text of their own stands for.
module _ {ℓ} {A : Type ℓ} (show : A → String) (scan : String → A)
    (scan-show : (a : A) → scan (show a) ≡ a) where
  map-scan-show : (xs : List A) → map scan (map show xs) ≡ xs
  map-scan-show [] = refl
  map-scan-show (a ∷ xs) = rw (scan-show a, map-scan-show xs)

  round_trip : (xs : List A) → map scan (read_texts (write_texts (map show xs))) ≡ xs
  round_trip xs = rw (read_texts-write_texts (map show xs)) (map-scan-show xs)

unfoldable pub show_param : String × String → String
show_param (k, v) = pair k v

scan-show_param : (q : String × String) → unpair (show_param q) ≡ q
unfolding show_param
scan-show_param (k, v) = unpair-pair k v

unfoldable pub show_name : Option String → String
show_name none = ""
show_name (some n) = String.◌∷◌ "x" n

unfoldable pub scan_name : String → Option String
scan_name String.[] = none
scan_name (String.◌∷◌ c n) = some n

unfoldable pub show_relay : ClientRelay → String
show_relay r = pair r.url (show_name r.name)

unfoldable pub scan_relay : String → Entry
scan_relay s = let (url, name) = unpair s in relay (record { url = url; name = scan_name name })

scan_name-show_name : (o : Option String) → scan_name (show_name o) ≡ o
unfolding scan_name show_name
scan_name-show_name none = refl
scan_name-show_name (some n) = refl

unfoldable pub read_href : String → Option Address
read_href s = elim (strip_prefix "https://h/#" s) [
  | none ↦ none
  | some rest ↦ some (record {
    is_https = true;
    host = "h";
    origin = "https://h";
    pathname = "/";
    search = "";
    hash = "#" +++ rest;
  })
]

abbrev pub browser : Site
browser = record {
  trim = λ s. s;
  parse_url = read_href;
  read_params = λ s. map unpair (read_texts s);
  write_params = λ ps. write_texts (map show_param ps);
  read_relays = λ s. some (map scan_relay (read_texts s));
  write_relays = λ rs. write_texts (map show_relay rs);
  read_conns = λ s. none;
  write_conns = λ cs. "";
}

map_entries : (rs : List ClientRelay) → map scan_relay (map show_relay rs) ≡ map relay rs
unfolding scan_relay show_relay
map_entries [] = refl
map_entries (r ∷ rs) =
    rw (unpair-pair r.url (show_name r.name), scan_name-show_name r.name, map_entries rs)

pub browser_params : Arrival.IsFaithful browser
unfolding read_texts counted unpack
browser_params = record {
  read-write = λ ps. round_trip show_param unpair scan-show_param ps;
  read-empty = refl;
}

browser_relays : Memory.IsFaithful browser
browser_relays list = ap some (rw (read_texts-write_texts (map show_relay list)) (map_entries list))

-- What the examples unfold to compute.
unfoldable pub sample_runs : Unit {0}
unfolding counted pack unpack write_texts read_texts show_param show_name scan_name show_relay
    scan_relay read_href unary pair unpair strip_prefix
sample_runs = tt
