-- ===== src/Core/Tests/Responses.antt =====
-- A response that is stored and served, and the theorems about it. The data of a record is the
-- MINIMUM field of an SOA, or none.
use sumidero.Prelude.{ℕ, ◌≡◌, refl, inl, inr, Option, none, some, [], ◌∷◌, map, arith}
use sumidero.Core.Cache.Entry.{
  ResponseCode, DnsRecord, Message, Entry, Lookup, original, new_entry, elapsed_secs, answer_of,
}
use sumidero.Core.Cache.Freshness.{aged, new_entry-fresh, new_entry-miss}

abbrev pub soa : Option ℕ → Option ℕ
soa d = d

abbrev address : ℕ → DnsRecord (Option ℕ)
address secs = record { ttl = secs; data_of = none }

abbrev pub response : Message (Option ℕ)
response = record {
  response_code = ResponseCode.no_error;
  answers = address 300 ∷ address 60 ∷ [];
  authorities = record { ttl = 900; data_of = some 120 } ∷ [];
}

abbrev pub entry : Entry (Option ℕ)
entry = record {
  answers = original (address 300) ∷ original (address 60) ∷ [];
  authorities = original (record { ttl = 900; data_of = some 120 }) ∷ [];
  response_code = ResponseCode.no_error;
  effective_ttl_secs = 60;
  inserted_at = 5;
}

pub stored : new_entry soa response 5 ≡ some entry
unfolding new_entry
stored = refl

new_entry-fresh_example :
    answer_of 100 entry 10000000005
    ≡ Lookup.fresh (record {
      response_code = ResponseCode.no_error;
      answers = map (aged soa (elapsed_secs entry 10000000005)) response.answers;
      authorities = map (aged soa (elapsed_secs entry 10000000005)) response.authorities;
    })
new_entry-fresh_example =
    new_entry-fresh soa 100 response 5 10000000005 stored (omega arith, (omega arith, tt))
      (omega arith, tt) (omega arith) (omega arith)

new_entry-miss_example : answer_of 100 entry 160000000005 ≡ Lookup.miss
new_entry-miss_example =
    new_entry-miss soa 100 response 5 160000000005 (address 60) stored (inr (inl refl))
      (omega arith)
