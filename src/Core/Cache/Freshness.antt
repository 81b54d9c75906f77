-- ===== src/Core/Cache/Freshness.antt =====
-- A response is served with the time it has left, and not after that.
use mathlib.Core.List.{map-append}
use sumidero.Prelude.{
  All-split, Elem, All-elem, All-append, ℕ, ◌+◌, ◌-◌, ◌/◌, ◌^◌, ◌≡◌, ◌≤◌, ◌<◌, refl, ap, ap₂, subst,
  sym, inl, inr, true, false, Bool-cases, min, Option, none, some, List, [], ◌∷◌, ◌++◌, map, All,
  leb, Option-cases, lt→ltb, le→leb, arith,
}
use sumidero.Core.Cache.Entry.{
  DnsRecord, Message, Entry, Lookup, min_of, is_cached_code, original, lifetime, new_entry,
  with_ttl, fresh_ttl, build_response, elapsed_secs, answer_of,
}

min_of-le : (xs : List ℕ) {m : ℕ} → min_of xs ≡ some m → All (λ x. m ≤ x) xs
unfolding min_of
min_of-le [] h = tt
min_of-le (x ∷ xs) {m} h = elim (Option-cases (min_of xs)) [
  | inl q ↦ let same : some x ≡ some m = rw (q, min_of) at h in (le_of_same same, none_left m xs q)
  | inr (y, q) ↦
      let same : some (min x y) ≡ some m = rw (q, min_of) at h in
      (omega (arith, inj same), lower xs (omega (arith, inj same)) (min_of-le xs q))
]
  where
    inj : {a b : ℕ} → some a ≡ some b → a ≡ b
    inj h = ground arith

    le_of_same : {a b : ℕ} → some a ≡ some b → b ≤ a
    le_of_same h = omega (arith, inj h)

    none_left : (n : ℕ) (ys : List ℕ) → min_of ys ≡ none → All (λ x. n ≤ x) ys
    none_left n [] h = tt
    none_left n (y ∷ ys) h = elim (Option-cases (min_of ys)) [
      | inl q ↦ absurd (ground arith)
      | inr (z, q) ↦ absurd (ground arith)
    ]

    lower : {n k : ℕ} (ys : List ℕ) → n ≤ k → All (λ x. k ≤ x) ys → All (λ x. n ≤ x) ys
    lower [] le h = tt
    lower (y ∷ ys) le (p, h) = (omega arith, lower ys le h)

module _ {D : Type 0} (soa_minimum : D → Option ℕ) where
  -- A record whose TTL has `elapsed` seconds less.
  abbrev pub aged : ℕ → DnsRecord D → DnsRecord D
  aged elapsed r = record { ttl = r.ttl - elapsed; data_of = r.data_of }

  abbrev pub IsShort : DnsRecord D → Type 0
  IsShort r = r.ttl < 2 ^ 32

  lifetime-le : (r : DnsRecord D) → lifetime soa_minimum (original r) ≤ r.ttl
  unfolding lifetime
  lifetime-le r = elim (Option-cases (soa_minimum r.data_of)) [
    | inl q ↦ rw (q, lifetime) (omega arith)
    | inr (m, q) ↦ rw (q, lifetime) (omega arith)
  ]

  ttls :
      (n : ℕ) (rs : List (DnsRecord D))
      → All (λ x. n ≤ x) (map (lifetime soa_minimum) (map original rs))
      → All (λ r. n ≤ r.ttl) rs
  ttls n [] h = tt
  ttls n (r ∷ rs) (p, h) = (omega (arith, lifetime-le r), ttls n rs h)

  map-fresh :
      (n elapsed : ℕ) (rs : List (DnsRecord D))
      → elapsed < n
      → All (λ r. n ≤ r.ttl) rs
      → All IsShort rs
      → map (with_ttl (fresh_ttl elapsed)) (map original rs) ≡ map (aged elapsed) rs
  map-fresh n elapsed [] lt h k = refl
  map-fresh n elapsed (r ∷ rs) lt (p, h) (s, k) =
      let same : fresh_ttl elapsed r.ttl ≡ r.ttl - elapsed = omega arith in
      ap₂ ◌∷◌ (ap (λ (t : ℕ). record { ttl = t; data_of = r.data_of }) same)
        (map-fresh n elapsed rs lt h k)

  -- The entry that `new_entry` makes of a response with the lifetime `secs`.
  abbrev entry_for : Message D → ℕ → ℕ → Entry D
  entry_for msg t secs = record {
    answers = map original msg.answers;
    authorities = map original msg.authorities;
    response_code = msg.response_code;
    effective_ttl_secs = secs;
    inserted_at = t;
  }

  abbrev lifetimes : Message D → List ℕ
  lifetimes msg =
      map (lifetime soa_minimum) (map original msg.answers ++ map original msg.authorities)

  new_entry-eq-some :
      (msg : Message D) (t : ℕ) {e : Entry D}
      → new_entry soa_minimum msg t ≡ some e
      → (secs : ℕ) × (min_of (lifetimes msg) ≡ some secs) × (entry_for msg t secs ≡ e)
  unfolding new_entry
  new_entry-eq-some msg t {e} h = elim (Bool-cases (is_cached_code msg.response_code)) [
    | inr b ↦ absurd (none≢some (rw (b, new_entry) at h))
    | inl b ↦ elim (Option-cases (min_of (lifetimes msg))) [
      | inl q ↦ absurd (none≢some (rw (b, new_entry, q) at h))
      | inr (secs, q) ↦ (secs, q, inj (rw (b, new_entry, q) at h))
    ]
  ]
    where
      none≢some : none ≡ some e → ⊥
      none≢some h = ground arith

      inj : {a b : Entry D} → some a ≡ some b → a ≡ b
      inj h = ground arith

  -- The lifetime is at most the TTL of any record.
  lifetimes-ttls :
      (msg : Message D) (secs : ℕ)
      → min_of (lifetimes msg) ≡ some secs
      → All (λ r. secs ≤ r.ttl) msg.answers × All (λ r. secs ≤ r.ttl) msg.authorities
  lifetimes-ttls msg secs q =
      let answers = map (lifetime soa_minimum) (map original msg.answers) in
      let authorities = map (lifetime soa_minimum) (map original msg.authorities) in
      let all =
        subst (All (λ x. secs ≤ x))
          (map-append (lifetime soa_minimum) (map original msg.answers)
            (map original msg.authorities))
          (min_of-le (lifetimes msg) q) in
      let (a, b) = All-split (λ x. secs ≤ x) answers authorities all in
      (ttls secs msg.answers a, ttls secs msg.authorities b)

  answer_of-entry_for :
      (serve : ℕ) (msg : Message D) (t now secs : ℕ)
      → min_of (lifetimes msg) ≡ some secs
      → All IsShort msg.answers
      → All IsShort msg.authorities
      → (now - t) / 1000000000 < secs
      → (now - t) / 1000000000 < 2 ^ 64 - 1
      → answer_of serve (entry_for msg t secs) now
        ≡ Lookup.fresh (record {
          response_code = msg.response_code;
          answers = map (aged ((now - t) / 1000000000)) msg.answers;
          authorities = map (aged ((now - t) / 1000000000)) msg.authorities;
        })
  unfolding answer_of build_response
  answer_of-entry_for serve msg t now secs q short short' lt lt' =
      let elapsed = (now - t) / 1000000000 in
      let served : leb (min (secs + serve) (2 ^ 64 - 1)) elapsed ≡ false = ground arith in
      let (a, b) = lifetimes-ttls msg secs q in
      rw
        (
          served,
          lt→ltb _ _ lt,
          map-fresh secs elapsed msg.answers lt a short,
          map-fresh secs elapsed msg.authorities lt b short',
        )
        refl

  -- A stored response that is younger than its lifetime is served fresh: the same records in the same
  -- order, each with its own TTL less the seconds since it was stored. TTLs have 32 bits, and fewer
  -- than `2 ^ 64 - 1` seconds went by.
  pub new_entry-fresh :
      (serve : ℕ) (msg : Message D) (t now : ℕ) {e : Entry D}
      → new_entry soa_minimum msg t ≡ some e
      → All IsShort msg.answers
      → All IsShort msg.authorities
      → elapsed_secs e now < e.effective_ttl_secs
      → elapsed_secs e now < 2 ^ 64 - 1
      → answer_of serve e now
        ≡ Lookup.fresh (record {
          response_code = msg.response_code;
          answers = map (aged (elapsed_secs e now)) msg.answers;
          authorities = map (aged (elapsed_secs e now)) msg.authorities;
        })
  new_entry-fresh serve msg t now {e} h short short' lt lt' =
      let (secs, q, same) = new_entry-eq-some msg t h in
      subst
        (λ (x : Entry D).
          elapsed_secs x now < x.effective_ttl_secs
          → elapsed_secs x now < 2 ^ 64 - 1
          → answer_of serve x now
            ≡ Lookup.fresh (record {
              response_code = msg.response_code;
              answers = map (aged (elapsed_secs x now)) msg.answers;
              authorities = map (aged (elapsed_secs x now)) msg.authorities;
            }))
        same (answer_of-entry_for serve msg t now secs q short short') lt lt'

  -- A stored response is a miss once the TTL of any of its records and the stale window have gone
  -- by.
  pub new_entry-miss :
      (serve : ℕ) (msg : Message D) (t now : ℕ) {e : Entry D} (r : DnsRecord D)
      → new_entry soa_minimum msg t ≡ some e
      → Elem r (msg.answers ++ msg.authorities)
      → r.ttl + serve ≤ elapsed_secs e now
      → answer_of serve e now ≡ Lookup.miss
  unfolding answer_of
  new_entry-miss serve msg t now {e} r h m late =
      let (secs, q, same) = new_entry-eq-some msg t h in
      let (a, b) = lifetimes-ttls msg secs q in
      let low : secs ≤ r.ttl =
        All-elem (λ r. secs ≤ r.ttl) (msg.answers ++ msg.authorities) r
          (All-append (λ r. secs ≤ r.ttl) msg.answers msg.authorities a b) m in
      let own : e.effective_ttl_secs ≡ secs =
        sym (ap (λ (x : Entry D). x.effective_ttl_secs) same) in
      let gone : leb (min (e.effective_ttl_secs + serve) (2 ^ 64 - 1)) (elapsed_secs e now) ≡ true =
        le→leb _ _ (omega (arith, low, own, late)) in
      rw gone refl
