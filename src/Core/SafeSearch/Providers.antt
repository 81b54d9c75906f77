-- ===== src/Core/SafeSearch/Providers.antt =====
-- The providers, and the bits that stand for them.
use sumidero.Prelude.{
  ℕ, ◌≡◌, refl, sym, ◌⊎◌, ◌↔◌, inl, inr, Bool, true, false, false≢true, ◌||◌, List, Elem, Bytes,
  codes, arith,
}
use sumidero.Core.BinarySearch.{binary_search}
use sumidero.Core.SafeSearch
use sumidero.Core.SafeSearch.{
  ConfigError, SafeSearch, supported_providers, youtube_hosts, bing_hosts, duckduckgo_hosts,
  has_bit, or_bit, bit_of, bits_of, validate_providers, new_table, is_google_host, rewrite,
}
use sumidero.Core.SafeSearch.Hosts.{
  google_hosts, youtube_iff, bing_iff, duckduckgo_iff, google_iff, are_disjoint,
}

pub data Provider : Type 0 where
  google youtube bing duckduckgo : Provider

abbrev pub name : Provider → Bytes
name Provider.google = codes "google"
name Provider.youtube = codes "youtube"
name Provider.bing = codes "bing"
name Provider.duckduckgo = codes "duckduckgo"

abbrev pub hosts : Provider → List Bytes
hosts Provider.google = google_hosts
hosts Provider.youtube = youtube_hosts
hosts Provider.bing = bing_hosts
hosts Provider.duckduckgo = duckduckgo_hosts

-- The endpoint that enforces safe search.
abbrev pub endpoint : Provider → Bytes
endpoint Provider.google = codes "forcesafesearch.google.com"
endpoint Provider.youtube = codes "restrictmoderate.youtube.com"
endpoint Provider.bing = codes "strict.bing.com"
endpoint Provider.duckduckgo = codes "safe.duckduckgo.com"

abbrev pub bit : Provider → ℕ
bit Provider.google = SafeSearch.google
bit Provider.youtube = SafeSearch.youtube
bit Provider.bing = SafeSearch.bing
bit Provider.duckduckgo = SafeSearch.duckduckgo

abbrev pub is_host : Provider → Bytes → Bool
is_host Provider.google q = is_google_host q
is_host Provider.youtube q = binary_search youtube_hosts q
is_host Provider.bing q = binary_search bing_hosts q
is_host Provider.duckduckgo q = binary_search duckduckgo_hosts q

pub is_host_iff : (p : Provider) (q : Bytes) → (is_host p q ≡ true) ↔ Elem q (hosts p)
is_host_iff Provider.google q = google_iff q
is_host_iff Provider.youtube q = youtube_iff q
is_host_iff Provider.bing q = bing_iff q
is_host_iff Provider.duckduckgo q = duckduckgo_iff q

abbrev pub same : Provider → Provider → Bool
same Provider.google Provider.google = true
same Provider.youtube Provider.youtube = true
same Provider.bing Provider.bing = true
same Provider.duckduckgo Provider.duckduckgo = true
same _ _ = false

pub same_sound : (p r : Provider) → same p r ≡ true → p ≡ r
same_sound Provider.google Provider.google h = refl
same_sound Provider.google Provider.youtube h = absurd (false≢true h)
same_sound Provider.google Provider.bing h = absurd (false≢true h)
same_sound Provider.google Provider.duckduckgo h = absurd (false≢true h)
same_sound Provider.youtube Provider.google h = absurd (false≢true h)
same_sound Provider.youtube Provider.youtube h = refl
same_sound Provider.youtube Provider.bing h = absurd (false≢true h)
same_sound Provider.youtube Provider.duckduckgo h = absurd (false≢true h)
same_sound Provider.bing Provider.google h = absurd (false≢true h)
same_sound Provider.bing Provider.youtube h = absurd (false≢true h)
same_sound Provider.bing Provider.bing h = refl
same_sound Provider.bing Provider.duckduckgo h = absurd (false≢true h)
same_sound Provider.duckduckgo Provider.google h = absurd (false≢true h)
same_sound Provider.duckduckgo Provider.youtube h = absurd (false≢true h)
same_sound Provider.duckduckgo Provider.bing h = absurd (false≢true h)
same_sound Provider.duckduckgo Provider.duckduckgo h = refl

-- No host stands in two tables.
pub disjoint : (p r : Provider) → same p r ≡ false → are_disjoint (hosts p) (hosts r) ≡ false
disjoint Provider.google Provider.google h = absurd (false≢true (sym h))
disjoint Provider.google Provider.youtube h = refl
disjoint Provider.google Provider.bing h = refl
disjoint Provider.google Provider.duckduckgo h = refl
disjoint Provider.youtube Provider.google h = refl
disjoint Provider.youtube Provider.youtube h = absurd (false≢true (sym h))
disjoint Provider.youtube Provider.bing h = refl
disjoint Provider.youtube Provider.duckduckgo h = refl
disjoint Provider.bing Provider.google h = refl
disjoint Provider.bing Provider.youtube h = refl
disjoint Provider.bing Provider.bing h = absurd (false≢true (sym h))
disjoint Provider.bing Provider.duckduckgo h = refl
disjoint Provider.duckduckgo Provider.google h = refl
disjoint Provider.duckduckgo Provider.youtube h = refl
disjoint Provider.duckduckgo Provider.bing h = refl
disjoint Provider.duckduckgo Provider.duckduckgo h = absurd (false≢true (sym h))

pub or_bit-has_bit :
    (p r : Provider) (e : ℕ) → has_bit (or_bit e (bit r)) (bit p) ≡ has_bit e (bit p) || same p r
unfolding or_bit has_bit
or_bit-has_bit Provider.google Provider.google e = ground arith
or_bit-has_bit Provider.google Provider.youtube e = ground arith
or_bit-has_bit Provider.google Provider.bing e = ground arith
or_bit-has_bit Provider.google Provider.duckduckgo e = ground arith
or_bit-has_bit Provider.youtube Provider.google e = ground arith
or_bit-has_bit Provider.youtube Provider.youtube e = ground arith
or_bit-has_bit Provider.youtube Provider.bing e = ground arith
or_bit-has_bit Provider.youtube Provider.duckduckgo e = ground arith
or_bit-has_bit Provider.bing Provider.google e = ground arith
or_bit-has_bit Provider.bing Provider.youtube e = ground arith
or_bit-has_bit Provider.bing Provider.bing e = ground arith
or_bit-has_bit Provider.bing Provider.duckduckgo e = ground arith
or_bit-has_bit Provider.duckduckgo Provider.google e = ground arith
or_bit-has_bit Provider.duckduckgo Provider.youtube e = ground arith
or_bit-has_bit Provider.duckduckgo Provider.bing e = ground arith
or_bit-has_bit Provider.duckduckgo Provider.duckduckgo e = ground arith

pub bit_of-name : (p : Provider) → bit_of (name p) ≡ bit p
bit_of-name Provider.google = refl
bit_of-name Provider.youtube = refl
bit_of-name Provider.bing = refl
bit_of-name Provider.duckduckgo = refl

pub name-same : (p r : Provider) → name p ≡ name r → same p r ≡ true
name-same Provider.google Provider.google h = refl
name-same Provider.google Provider.youtube h = absurd (ground arith)
name-same Provider.google Provider.bing h = absurd (ground arith)
name-same Provider.google Provider.duckduckgo h = absurd (ground arith)
name-same Provider.youtube Provider.google h = absurd (ground arith)
name-same Provider.youtube Provider.youtube h = refl
name-same Provider.youtube Provider.bing h = absurd (ground arith)
name-same Provider.youtube Provider.duckduckgo h = absurd (ground arith)
name-same Provider.bing Provider.google h = absurd (ground arith)
name-same Provider.bing Provider.youtube h = absurd (ground arith)
name-same Provider.bing Provider.bing h = refl
name-same Provider.bing Provider.duckduckgo h = absurd (ground arith)
name-same Provider.duckduckgo Provider.google h = absurd (ground arith)
name-same Provider.duckduckgo Provider.youtube h = absurd (ground arith)
name-same Provider.duckduckgo Provider.bing h = absurd (ground arith)
name-same Provider.duckduckgo Provider.duckduckgo h = refl

pub or_same : (b c : Bool) → (b || c ≡ true) → (b ≡ true) ⊎ (c ≡ true)
or_same true c h = inl refl
or_same false c h = inr h

pub or_true : (b c : Bool) → (b ≡ true) ⊎ (c ≡ true) → b || c ≡ true
or_true true c h = refl
or_true false c (inl h) = absurd (false≢true h)
or_true false c (inr h) = h
