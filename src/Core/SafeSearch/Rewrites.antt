-- ===== src/Core/SafeSearch/Rewrites.antt =====
-- Which names are rewritten.
use sumidero.Prelude.{
  ◌≡◌, refl, sym, ap, ◌∙◌, ◌↔◌, inl, inr, Bool, true, false, false≢true, ◌&&◌, Bool-cases, some,
  some-inj, some≢none, ok, List, Elem, Bytes,
}
use sumidero.Core.SafeSearch.{SafeSearch, has_bit, new_table, rewrite}
use sumidero.Core.SafeSearch.Hosts.{apart}
use sumidero.Core.SafeSearch.Providers.{
  Provider, hosts, endpoint, bit, is_host, is_host_iff, same, disjoint,
}
use sumidero.Core.SafeSearch.Tables.{IsEnforced, bits_for_iff, new_table-bits}

-- A host of one provider is no other's.
is_host-other :
    (p r : Provider) (q : Bytes) → same p r ≡ false → is_host p q ≡ true → is_host r q ≡ false
is_host-other p r q d h = elim (Bool-cases (is_host r q)) [
  | inl k ↦
      absurd (
        apart (hosts p) (hosts r) q (disjoint p r d) ((is_host_iff p q).0 h)
          ((is_host_iff r q).0 k))
  | inr k ↦ k
]

abbrev covers : SafeSearch → Provider → Bytes → Bool
covers s p q = has_bit s.enabled (bit p) && is_host p q

and_both : (b c : Bool) → b && c ≡ true → (b ≡ true) × (c ≡ true)
and_both true c h = (refl, h)
and_both false c h = absurd (false≢true h)

and_false : (b c : Bool) → c ≡ false → b && c ≡ false
and_false true c h = h
and_false false c h = refl

rewrite-covers :
    (s : SafeSearch) (q t : Bytes)
    → rewrite s q ≡ some t
    → (p : Provider) × (covers s p q ≡ true) × (t ≡ endpoint p)
unfolding rewrite
rewrite-covers s q t h = elim (Bool-cases (covers s Provider.youtube q)) [
  | inl y ↦ (Provider.youtube, y, some-inj (sym (rw (y, rewrite) at h)))
  | inr y ↦ elim (Bool-cases (covers s Provider.bing q)) [
    | inl b ↦ (Provider.bing, b, some-inj (sym (rw (y, b, rewrite) at h)))
    | inr b ↦ elim (Bool-cases (covers s Provider.duckduckgo q)) [
      | inl d ↦ (Provider.duckduckgo, d, some-inj (sym (rw (y, b, d, rewrite) at h)))
      | inr d ↦ elim (Bool-cases (covers s Provider.google q)) [
        | inl g ↦ (Provider.google, g, some-inj (sym (rw (y, b, d, g, rewrite) at h)))
        | inr g ↦ absurd (some≢none (sym (rw (y, b, d, g, rewrite) at h)))
      ]
    ]
  ]
]

covers-rewrite :
    (s : SafeSearch) (p : Provider) (q : Bytes)
    → covers s p q ≡ true
    → rewrite s q ≡ some (endpoint p)
unfolding rewrite
covers-rewrite s p q h = by p h (λ r d.
    and_false (has_bit s.enabled (bit r)) (is_host r q) (is_host-other p r q d (and_both _ _ h).1))
  where
    by :
        (p : Provider)
        → covers s p q ≡ true
        → ((r : Provider) → same p r ≡ false → covers s r q ≡ false)
        → rewrite s q ≡ some (endpoint p)
    by Provider.youtube h other = rw (h, rewrite) refl
    by Provider.bing h other = rw (other Provider.youtube refl, h, rewrite) refl
    by Provider.duckduckgo h other =
        rw (other Provider.youtube refl, other Provider.bing refl, h, rewrite) refl
    by Provider.google h other =
        rw
          (
            other Provider.youtube refl,
            other Provider.bing refl,
            other Provider.duckduckgo refl,
            h,
            rewrite,
          )
          refl

-- A table that was built rewrites a name to an endpoint exactly if the name is a host of a provider
-- that the configuration enforces, and the endpoint is that provider's.
pub rewrite_iff :
    (enabled : Bool) (providers : List Bytes) {s : SafeSearch} (q t : Bytes)
    → new_table enabled providers ≡ ok s
    → (rewrite s q ≡ some t)
      ↔ ((p : Provider) × IsEnforced enabled providers p × Elem q (hosts p) × (t ≡ endpoint p))
rewrite_iff enabled providers {s} q t h =
    let (names, e) = new_table-bits enabled providers h in
    (
      λ k.
          let (p, c, e') = rewrite-covers s q t k in
          let (on, host) = and_both (has_bit s.enabled (bit p)) (is_host p q) c in
          (
            p,
            (bits_for_iff p enabled providers names).0
                (ap (λ u. has_bit u.enabled (bit p)) (sym e) ∙ on),
            (is_host_iff p q).0 host,
            e',
          ),
      λ (p, on, host, e').
          covers-rewrite s p q (
            both
              (ap (λ u. has_bit u.enabled (bit p)) e
                ∙ (bits_for_iff p enabled providers names).1 on)
              ((is_host_iff p q).1 host))
          ∙ ap some (sym e'),
    )
  where
    both : {b c : Bool} → b ≡ true → c ≡ true → b && c ≡ true
    both {b} {c} h k = ap (λ b. b && c) h ∙ k
