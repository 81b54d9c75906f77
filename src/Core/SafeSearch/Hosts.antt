-- ===== src/Core/SafeSearch/Hosts.antt =====
-- The tables of hosts are sorted, and no host stands in two of them.
use sumidero.Prelude.{
  ◌≡◌, refl, sym, subst, ap, ◌∙◌, inl, inr, Bool, true, false, false≢true, ◌↔◌, Option-cases, some,
  some-inj, List, [], ◌∷◌, ◌++◌, map, Elem, Elem-map, Elem-of_map, Bytes, codes, bytes_eq,
  bytes_eq_refl, any, strip_prefix, arith,
}
use sumidero.Core.BinarySearch.{binary_search, is_sorted, binary_search_iff}
use sumidero.Core.SafeSearch.{
  google_tlds, youtube_hosts, bing_hosts, duckduckgo_hosts, is_google_host,
}

google_tlds-is_sorted : is_sorted google_tlds ≡ true
unfolding is_sorted
google_tlds-is_sorted = refl

youtube_hosts-is_sorted : is_sorted youtube_hosts ≡ true
unfolding is_sorted
youtube_hosts-is_sorted = refl

bing_hosts-is_sorted : is_sorted bing_hosts ≡ true
unfolding is_sorted
bing_hosts-is_sorted = refl

duckduckgo_hosts-is_sorted : is_sorted duckduckgo_hosts ≡ true
unfolding is_sorted
duckduckgo_hosts-is_sorted = refl

pub youtube_iff : (q : Bytes) → (binary_search youtube_hosts q ≡ true) ↔ Elem q youtube_hosts
youtube_iff q = binary_search_iff youtube_hosts q youtube_hosts-is_sorted

pub bing_iff : (q : Bytes) → (binary_search bing_hosts q ≡ true) ↔ Elem q bing_hosts
bing_iff q = binary_search_iff bing_hosts q bing_hosts-is_sorted

pub duckduckgo_iff :
    (q : Bytes) → (binary_search duckduckgo_hosts q ≡ true) ↔ Elem q duckduckgo_hosts
duckduckgo_iff q = binary_search_iff duckduckgo_hosts q duckduckgo_hosts-is_sorted

abbrev pub google_hosts : List Bytes
google_hosts = map (λ tld. codes "www.google." ++ tld) google_tlds

append-strip_prefix : (p q : Bytes) {s : Bytes} → strip_prefix p q ≡ some s → q ≡ p ++ s
append-strip_prefix [] q h = some-inj h
append-strip_prefix (a ∷ p) [] h = cc
append-strip_prefix (a ∷ p) (b ∷ q) {s} h = ground (arith, append-strip_prefix p q {s = s})

pub google_iff : (q : Bytes) → (is_google_host q ≡ true) ↔ Elem q google_hosts
google_iff q = (found, there)
  where
    found : is_google_host q ≡ true → Elem q google_hosts
    found h = elim (Option-cases (strip_prefix (codes "www.google.") q)) [
      | inl e ↦ absurd (false≢true (rw (e, is_google_host) at h))
      | inr (tld, e) ↦
          let m =
            (binary_search_iff google_tlds tld google_tlds-is_sorted).0
              (rw (e, is_google_host) at h) in
          subst (λ r. Elem r google_hosts) (sym (append-strip_prefix (codes "www.google.") q e))
            (Elem-map (λ tld. codes "www.google." ++ tld) tld google_tlds m)
    ]

    there : Elem q google_hosts → is_google_host q ≡ true
    there m =
        let (tld, m', e) = Elem-of_map (λ tld. codes "www.google." ++ tld) q google_tlds m in
        ap is_google_host e ∙ (binary_search_iff google_tlds tld google_tlds-is_sorted).1 m'

-- Two lists with no member in common, by looking.
abbrev pub are_disjoint : List Bytes → List Bytes → Bool
are_disjoint xs ys = any (λ x. any (λ y. bytes_eq x y) ys) xs

any-Elem :
    (p : Bytes → Bool) (xs : List Bytes) (x : Bytes) → Elem x xs → p x ≡ true → any p xs ≡ true
any-Elem p (y ∷ xs) x (inl e) h = rw (ap p (sym e) ∙ h) refl
any-Elem p (y ∷ xs) x (inr m) h = ground (arith, any-Elem p xs x m h)
any-Elem p [] x m h = absurd m

pub apart :
    (xs ys : List Bytes) (q : Bytes) → are_disjoint xs ys ≡ false → Elem q xs → Elem q ys → ⊥
apart xs ys q h m k =
    false≢true (sym h ∙ any-Elem _ xs q m (any-Elem (λ y. bytes_eq q y) ys q k (bytes_eq_refl q)))
