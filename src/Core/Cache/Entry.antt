-- ===== src/Core/Cache/Entry.antt =====
-- What `Cache::insert` stores of a response and what `Cache::get` answers from it. The records come
-- from hickory-proto: of one, the TTL shows, and `soa_minimum` gives the MINIMUM field of an SOA.
use sumidero.Prelude.{
  ℕ, ◌+◌, ◌-◌, ◌/◌, ◌^◌, min, max, Bool, Option, none, some, List, [], ◌∷◌, ◌++◌, map, ltb, leb,
  if◌then◌else◌,
}

abbrev pub stale_answer_ttl_secs : ℕ
stale_answer_ttl_secs = 30

pub data ResponseCode : Type 0 where
  no_error nx_domain : ResponseCode
  other : ℕ → ResponseCode

pub record DnsRecord (D : Type 0) : Type 0 where
  pub ttl : ℕ
  pub data_of : D

pub record Message (D : Type 0) : Type 0 where
  pub response_code : ResponseCode
  pub answers : List (DnsRecord D)
  pub authorities : List (DnsRecord D)

pub record OriginalRecord (D : Type 0) : Type 0 where
  pub dns_record : DnsRecord D
  pub original_ttl : ℕ

pub record Entry (D : Type 0) : Type 0 where
  pub answers : List (OriginalRecord D)
  pub authorities : List (OriginalRecord D)
  pub response_code : ResponseCode
  pub effective_ttl_secs : ℕ
  pub inserted_at : ℕ

pub data Lookup (D : Type 0) : Type 0 where
  fresh stale : Message D → Lookup D
  miss : Lookup D

-- `iter().min()`
unfoldable pub min_of : List ℕ → Option ℕ
min_of [] = none
min_of (x ∷ xs) = elim (min_of xs) [ none ↦ some x | some y ↦ some (min x y) ]

abbrev pub is_cached_code : ResponseCode → Bool
is_cached_code ResponseCode.no_error = Bool.true
is_cached_code ResponseCode.nx_domain = Bool.true
is_cached_code (ResponseCode.other n) = Bool.false

-- `orig_ttl.saturating_sub(elapsed_u32).max(1)`
abbrev pub fresh_ttl : ℕ → ℕ → ℕ
fresh_ttl elapsed orig_ttl = max (orig_ttl - min elapsed (2 ^ 32 - 1)) 1

module _ {D : Type 0} where
  abbrev pub original : DnsRecord D → OriginalRecord D
  original r = record { dns_record = r; original_ttl = r.ttl }

  unfoldable pub lifetime : (D → Option ℕ) → OriginalRecord D → ℕ
  lifetime soa_minimum r = elim (soa_minimum r.dns_record.data_of) [
    | none ↦ r.original_ttl
    | some m ↦ min r.original_ttl m
  ]

  -- The entry that is stored for a response, if it is to be stored.
  unfoldable pub new_entry : (D → Option ℕ) → Message D → ℕ → Option (Entry D)
  unfolding lifetime min_of
  new_entry soa_minimum msg now =
      let answers = map original msg.answers in
      let authorities = map original msg.authorities in
      let stored : Option (Entry D) =
        elim (min_of (map (lifetime soa_minimum) (answers ++ authorities))) [
          | none ↦ none
          | some secs ↦ some (record {
            answers = answers;
            authorities = authorities;
            response_code = msg.response_code;
            effective_ttl_secs = secs;
            inserted_at = now;
          })
        ] in
      if is_cached_code msg.response_code then stored else none

  abbrev pub with_ttl : (ℕ → ℕ) → OriginalRecord D → DnsRecord D
  with_ttl ttl_fn r = record { ttl = ttl_fn r.original_ttl; data_of = r.dns_record.data_of }

  unfoldable pub build_response : Entry D → (ℕ → ℕ) → Message D
  build_response e ttl_fn = record {
    response_code = e.response_code;
    answers = map (with_ttl ttl_fn) e.answers;
    authorities = map (with_ttl ttl_fn) e.authorities;
  }

  -- `now.duration_since(inserted_at).as_secs()`
  abbrev pub elapsed_secs : Entry D → ℕ → ℕ
  elapsed_secs e now = (now - e.inserted_at) / 1000000000

  -- The lifetime and the stale window are over.
  unfoldable pub is_expired : ℕ → Entry D → ℕ → Bool
  is_expired serve_stale_secs e now =
      leb (min (e.effective_ttl_secs + serve_stale_secs) (2 ^ 64 - 1)) (elapsed_secs e now)

  -- The answer from an entry that is not expired.
  unfoldable pub served : Entry D → ℕ → Lookup D
  unfolding build_response
  served e now =
      let elapsed = elapsed_secs e now in
      if ltb elapsed e.effective_ttl_secs
      then Lookup.fresh (build_response e (fresh_ttl elapsed))
      else Lookup.stale (build_response e (λ _. stale_answer_ttl_secs))

  -- What `get` answers for an entry that it found.
  unfoldable pub answer_of : ℕ → Entry D → ℕ → Lookup D
  unfolding is_expired served
  answer_of serve_stale_secs e now =
      if is_expired serve_stale_secs e now then Lookup.miss else served e now
