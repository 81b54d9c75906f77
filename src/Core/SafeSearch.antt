-- ===== src/Core/SafeSearch.antt =====
-- crates/core/src/safesearch.rs: the names that are answered with the enforced endpoint of a search
-- provider. A `u8` with one bit for a provider is a number.
pub mod Hosts
pub mod Providers
pub mod Tables
pub mod Rewrites
use sumidero.Prelude.{
  ℕ, zero, suc, ◌+◌, ◌*◌, ◌/◌, ◌%◌, Bool, true, false, ◌&&◌, ◌||◌, not, Option, none, some, Result,
  ok, err, List, [], ◌∷◌, map, Bytes, codes, bytes_eq, is_nil, any, strip_prefix, ◌==◌,
  if◌then◌else◌,
}
use sumidero.Core.BinarySearch.{binary_search}

abbrev pub supported_providers : List Bytes
supported_providers = map codes ("google" ∷ "youtube" ∷ "bing" ∷ "duckduckgo" ∷ [])

-- The domains behind `www.google.`
abbrev pub google_tlds : List Bytes
google_tlds = map codes (
    "ad" ∷ "ae" ∷ "al" ∷ "am" ∷ "as" ∷ "at" ∷ "az" ∷ "ba" ∷ "be" ∷ "bf" ∷ "bg" ∷ "bi" ∷ "bj" ∷ "bs"
    ∷ "bt" ∷ "by" ∷ "ca" ∷ "cat" ∷ "cd" ∷ "cf" ∷ "cg" ∷ "ch" ∷ "ci" ∷ "cl" ∷ "cm" ∷ "cn" ∷ "co"
    ∷ "co.ao" ∷ "co.bw" ∷ "co.ck" ∷ "co.cr" ∷ "co.id" ∷ "co.il" ∷ "co.in" ∷ "co.jp" ∷ "co.ke"
    ∷ "co.kr" ∷ "co.ls" ∷ "co.ma" ∷ "co.mz" ∷ "co.nz" ∷ "co.th" ∷ "co.tz" ∷ "co.ug" ∷ "co.uk"
    ∷ "co.uz" ∷ "co.ve" ∷ "co.vi" ∷ "co.za" ∷ "co.zm" ∷ "co.zw" ∷ "com" ∷ "com.af" ∷ "com.ag"
    ∷ "com.ai" ∷ "com.ar" ∷ "com.au" ∷ "com.bd" ∷ "com.bh" ∷ "com.bn" ∷ "com.bo" ∷ "com.br"
    ∷ "com.bz" ∷ "com.co" ∷ "com.cu" ∷ "com.cy" ∷ "com.do" ∷ "com.ec" ∷ "com.eg" ∷ "com.et"
    ∷ "com.fj" ∷ "com.gh" ∷ "com.gi" ∷ "com.gt" ∷ "com.hk" ∷ "com.jm" ∷ "com.kh" ∷ "com.kw"
    ∷ "com.lb" ∷ "com.ly" ∷ "com.mm" ∷ "com.mt" ∷ "com.mx" ∷ "com.my" ∷ "com.na" ∷ "com.nf"
    ∷ "com.ng" ∷ "com.ni" ∷ "com.np" ∷ "com.om" ∷ "com.pa" ∷ "com.pe" ∷ "com.pg" ∷ "com.ph"
    ∷ "com.pk" ∷ "com.pr" ∷ "com.py" ∷ "com.qa" ∷ "com.sa" ∷ "com.sb" ∷ "com.sg" ∷ "com.sl"
    ∷ "com.sv" ∷ "com.tj" ∷ "com.tr" ∷ "com.tw" ∷ "com.ua" ∷ "com.uy" ∷ "com.vc" ∷ "com.vn" ∷ "cv"
    ∷ "cz" ∷ "de" ∷ "dj" ∷ "dk" ∷ "dm" ∷ "dz" ∷ "ee" ∷ "es" ∷ "fi" ∷ "fm" ∷ "fr" ∷ "ga" ∷ "ge"
    ∷ "gg" ∷ "gl" ∷ "gm" ∷ "gp" ∷ "gr" ∷ "gy" ∷ "hn" ∷ "hr" ∷ "ht" ∷ "hu" ∷ "ie" ∷ "im" ∷ "iq"
    ∷ "is" ∷ "it" ∷ "je" ∷ "jo" ∷ "kg" ∷ "ki" ∷ "kz" ∷ "la" ∷ "li" ∷ "lk" ∷ "lt" ∷ "lu" ∷ "lv"
    ∷ "md" ∷ "me" ∷ "mg" ∷ "mk" ∷ "ml" ∷ "mn" ∷ "ms" ∷ "mu" ∷ "mv" ∷ "mw" ∷ "ne" ∷ "nl" ∷ "no"
    ∷ "nr" ∷ "nu" ∷ "pl" ∷ "pn" ∷ "ps" ∷ "pt" ∷ "ro" ∷ "rs" ∷ "ru" ∷ "rw" ∷ "sc" ∷ "se" ∷ "sh"
    ∷ "si" ∷ "sk" ∷ "sm" ∷ "sn" ∷ "so" ∷ "sr" ∷ "st" ∷ "td" ∷ "tg" ∷ "tk" ∷ "tl" ∷ "tm" ∷ "tn"
    ∷ "to" ∷ "tt" ∷ "vg" ∷ "vu" ∷ "ws" ∷ [])

abbrev pub youtube_hosts : List Bytes
youtube_hosts = map codes (
    "m.youtube.com" ∷ "www.youtube-nocookie.com" ∷ "www.youtube.com" ∷ "youtube.googleapis.com"
    ∷ "youtubei.googleapis.com" ∷ [])

abbrev pub bing_hosts : List Bytes
bing_hosts = map codes ("edgeservices.bing.com" ∷ "www.bing.com" ∷ [])

abbrev pub duckduckgo_hosts : List Bytes
duckduckgo_hosts = map codes ("duckduckgo.com" ∷ "start.duckduckgo.com" ∷ "www.duckduckgo.com" ∷ [])

abbrev pub google : ℕ
google = 1

abbrev pub youtube : ℕ
youtube = 2

abbrev pub bing : ℕ
bing = 4

abbrev pub duckduckgo : ℕ
duckduckgo = 8

abbrev pub all_providers : ℕ
all_providers = google + youtube + bing + duckduckgo

-- `self.enabled & bit != 0`, for one bit.
unfoldable pub has_bit : ℕ → ℕ → Bool
has_bit bits bit = bits / bit % 2 == 1

-- `bits | bit`, for one bit.
unfoldable pub or_bit : ℕ → ℕ → ℕ
unfolding has_bit
or_bit bits bit = if has_bit bits bit then bits else bits + bit

-- The provider that is not supported.
pub data ConfigError : Type 0 where
  unknown_provider : Bytes → ConfigError

abbrev pub Checked : Type 0 → Type 0
Checked A = Result A ConfigError

unfoldable pub validate_providers : List Bytes → Checked (Unit {0})
validate_providers [] = ok tt
validate_providers (p ∷ ps) =
    let rest = validate_providers ps in
    if any (λ q. bytes_eq q p) supported_providers
    then rest
    else err (ConfigError.unknown_provider p)

pub record SafeSearch : Type 0 where
  pub enabled : ℕ

abbrev pub bit_of : Bytes → ℕ
bit_of p =
    if bytes_eq p (codes "google")
    then google
    else if bytes_eq p (codes "youtube")
    then youtube
    else if bytes_eq p (codes "bing")
    then bing
    else duckduckgo

-- The fold of `SafeSearch::new`.
unfoldable pub bits_of : ℕ → List Bytes → ℕ
unfolding or_bit
bits_of bits [] = bits
bits_of bits (p ∷ ps) = bits_of (or_bit bits (bit_of p)) ps

unfoldable pub new_table : Bool → List Bytes → Checked SafeSearch
unfolding validate_providers bits_of
new_table enabled providers =
    let table : SafeSearch =
      if not enabled
      then record { enabled = 0 }
      else if is_nil providers
      then record { enabled = all_providers }
      else record { enabled = bits_of 0 providers } in
    elim (validate_providers providers) [ err e ↦ err e | ok _ ↦ ok table ]

abbrev pub is_google_host : Bytes → Bool
is_google_host qname = elim (strip_prefix (codes "www.google.") qname) [
  | none ↦ false
  | some tld ↦ binary_search google_tlds tld
]

unfoldable pub rewrite : SafeSearch → Bytes → Option Bytes
unfolding has_bit binary_search
rewrite s qname =
    if has_bit s.enabled youtube && binary_search youtube_hosts qname
    then some (codes "restrictmoderate.youtube.com")
    else if has_bit s.enabled bing && binary_search bing_hosts qname
    then some (codes "strict.bing.com")
    else if has_bit s.enabled duckduckgo && binary_search duckduckgo_hosts qname
    then some (codes "safe.duckduckgo.com")
    else if has_bit s.enabled google && is_google_host qname
    then some (codes "forcesafesearch.google.com")
    else none
