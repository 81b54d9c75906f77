-- ===== src/Core/Tests/Answers.antt =====
-- Answers of an upstream server, and the theorems about filing them.
use sumidero.Prelude.{ℕ, ◌+◌, ◌≡◌, ◌≤◌, ◌<◌, refl, Option, some, List, [], arith}
use sumidero.Core.FailureCache
use sumidero.Core.FailureCache.{FailureCache, record_failure}
use sumidero.Core.Cache.Entry.{ResponseCode, Message, Entry, Lookup, answer_of}
use sumidero.Core.Cache.Slab.{Inner, new_inner, with_limits}
use sumidero.Core.Cache.Client.{get_response, run}
use sumidero.Core.Server.Settle.{
  failure_cached, unresolved, resolved, settle, resolve_cached, resolve_cached-settle,
  resolve_cached-settle_failed,
}
use sumidero.Core.Tests.Responses.{soa, response, entry, stored}
use sumidero.Core.Tests.Slots.{numbers, to_vec, calls}

abbrev holds : FailureCache ℕ
holds = (record_failure numbers FailureCache.new 4 3).0

abbrev cache : Inner ℕ (Entry (Option ℕ))
cache = new_inner 2 4000 100

abbrev serv_fail : Message (Option ℕ)
serv_fail = record { response_code = ResponseCode.other 2; answers = []; authorities = [] }

missed : get_response numbers 4 9 cache ≡ some (cache, Lookup.miss)
unfolding get_response
missed = refl

resolve_cached-settle_example :
    (s s₁ s₂ s₃ : Inner ℕ (Entry (Option ℕ))) × (fs' : FailureCache ℕ) × (answers : List
      (Option (Lookup (Option ℕ))))
    × (with_limits 1000 2 500 100 ≡ some s)
    × (run numbers soa to_vec calls s ≡ some (s₁, answers))
    × (settle numbers soa to_vec 4 response 5 s₁ holds ≡ some (s₂, fs'))
    × (resolve_cached numbers 4 10000000005 s₂ fs'
        ≡ some (s₃, resolved (answer_of 100 entry 10000000005)))
resolve_cached-settle_example =
    resolve_cached-settle numbers soa to_vec 1000 2 500 100 calls 4 response 5 10000000005 holds
      (omega arith) (omega arith) (omega arith) (omega arith) stored

resolve_cached-settle_failed_example :
    (fs' : FailureCache ℕ) × (settle numbers soa to_vec 4 serv_fail 5 cache holds
      ≡ some (cache, fs'))
    × (9 < 5 + (record_failure numbers holds 4 5).1
        → resolve_cached numbers 4 9 cache fs' ≡ some (cache, failure_cached))
    × (5 + (record_failure numbers holds 4 5).1 ≤ 9
        → resolve_cached numbers 4 9 cache fs' ≡ some (cache, unresolved))
resolve_cached-settle_failed_example =
    resolve_cached-settle_failed numbers soa to_vec 4 serv_fail 5 9 cache cache holds refl missed
