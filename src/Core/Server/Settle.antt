-- ===== src/Core/Server/Settle.antt =====
-- `settle` of crates/core/src/server.rs, which files an upstream answer, and what `resolve_cached`
-- answers without an upstream lookup. ServFail has the code 2.
use sumidero.Prelude.{
  ℕ, ◌+◌, ◌≡◌, ◌≤◌, ◌<◌, refl, sym, Bool, true, false, Option, none, some, some≢none, List, ◌==◌,
  if◌then◌else◌, ◌>>=◌,
}
use sumidero.Core.HashMap.{HashKey}
use sumidero.Core.FailureCache.{FailureCache, held, record_failure, clear}
use sumidero.Core.FailureCache.Holds.{held-clear, held-record_failure}
use sumidero.Core.Cache.Entry.{ResponseCode, Message, Entry, Lookup, new_entry, answer_of}
use sumidero.Core.Cache.Slab.{Inner, no_link, with_limits}
use sumidero.Core.Cache.Client.{Call, get_response, insert_response, run}
use sumidero.Core.Cache.Client.Limits.{get_response-insert_response}

abbrev pub is_serv_fail : ResponseCode → Bool
is_serv_fail ResponseCode.no_error = false
is_serv_fail ResponseCode.nx_domain = false
is_serv_fail (ResponseCode.other n) = n == 2

-- What a query gets without an upstream lookup, or that it needs one.
pub data Resolved (D : Type 0) : Type 0 where
  cached stale : Message D → Resolved D
  failure_cached unresolved : Resolved D

module _ {K D : Type 0} (keys : HashKey K) where
  -- The caches after a query, which may take an entry that expired.
  unfoldable pub resolve_cached :
      K → ℕ → Inner K (Entry D) → FailureCache K → Option (Inner K (Entry D) × Resolved D)
  unfolding get_response held
  resolve_cached key now cache failures = do
    (cache, found) ← get_response keys key now cache
    some (
      cache,
      elim found [
        | Lookup.fresh m ↦ cached m
        | Lookup.stale m ↦ stale m
        | Lookup.miss ↦ elim (held keys failures key now) [
          | some _ ↦ failure_cached
          | none ↦ unresolved
        ]
      ],
    )

  module _ (soa_minimum : D → Option ℕ) (to_vec : Message D → Option ℕ) where
    unfoldable pub settle :
        K
        → Message D
        → ℕ
        → Inner K (Entry D)
        → FailureCache K
        → Option (Inner K (Entry D) × FailureCache K)
    unfolding record_failure clear insert_response
    settle key answer now cache failures =
        let filed = do
          cache ← insert_response keys soa_minimum to_vec key answer now cache
          some (cache, clear keys failures key)
        in if is_serv_fail answer.response_code
          then some (cache, (record_failure keys failures key now).0)
          else filed

-- What a query gets of an answer of the cache, for a key that is not held down.
abbrev pub resolved : {D : Type 0} → Lookup D → Resolved D
resolved (Lookup.fresh m) = cached m
resolved (Lookup.stale m) = stale m
resolved Lookup.miss = unresolved

module _ {K D : Type 0} (keys : HashKey K) where
  resolve_cached-free :
      (key : K) (now : ℕ) (s s' : Inner K (Entry D)) (fs : FailureCache K) (l : Lookup D)
      → get_response keys key now s ≡ some (s', l)
      → held keys fs key now ≡ none
      → resolve_cached keys key now s fs ≡ some (s', resolved l)
  unfolding resolve_cached
  resolve_cached-free key now s s' fs (Lookup.fresh m) h k = rw h refl
  resolve_cached-free key now s s' fs (Lookup.stale m) h k = rw h refl
  resolve_cached-free key now s s' fs Lookup.miss h k = rw (h, k) refl

  resolve_cached-held :
      (key : K) (now : ℕ) (s s' : Inner K (Entry D)) (fs : FailureCache K) {left : ℕ}
      → get_response keys key now s ≡ some (s', Lookup.miss)
      → held keys fs key now ≡ some left
      → resolve_cached keys key now s fs ≡ some (s', failure_cached)
  unfolding resolve_cached
  resolve_cached-held key now s s' fs h k = rw (h, k) refl

  module _ (soa_minimum : D → Option ℕ) (to_vec : Message D → Option ℕ) where
    -- What is stored is no SERVFAIL.
    new_entry-code :
        (msg : Message D) (now : ℕ) {entry : Entry D}
        → new_entry soa_minimum msg now ≡ some entry
        → is_serv_fail msg.response_code ≡ false
    unfolding new_entry
    new_entry-code msg now {entry} h = by_code msg.response_code refl
      where
        by_code : (c : ResponseCode) → msg.response_code ≡ c → is_serv_fail c ≡ false
        by_code ResponseCode.no_error e = refl
        by_code ResponseCode.nx_domain e = refl
        by_code (ResponseCode.other n) e = absurd (some≢none (sym (rw (e, new_entry) at h)))

    settle-filed :
        (key : K) (answer : Message D) (now : ℕ) (s s' : Inner K (Entry D)) (fs : FailureCache K)
        → is_serv_fail answer.response_code ≡ false
        → insert_response keys soa_minimum to_vec key answer now s ≡ some s'
        → settle keys soa_minimum to_vec key answer now s fs ≡ some (s', clear keys fs key)
    unfolding settle
    settle-filed key answer now s s' fs c h = rw (c, h) refl

    -- After any calls from a new cache with limits above 0 and a capacity of at most `usize::MAX`
    -- that the standard library's tables can have, an answer that can be stored is filed without a
    -- panic, and the next query of its key gets what its entry is answered with at that time; once
    -- that is a miss, the key is not held down.
    pub resolve_cached-settle :
        (tables capacity max_bytes serve_stale_secs : ℕ) (cs : List (Call K D)) (key : K)
        (answer : Message D) (now now' : ℕ) (fs : FailureCache K) {entry : Entry D}
        → 0 < capacity
        → capacity ≤ no_link
        → capacity ≤ tables
        → 0 < max_bytes
        → new_entry soa_minimum answer now ≡ some entry
        → (s s₁ s₂ s₃ : Inner K (Entry D)) × (fs' : FailureCache K) × (answers : List
            (Option (Lookup D)))
          × (with_limits tables capacity max_bytes serve_stale_secs ≡ some s)
          × (run keys soa_minimum to_vec cs s ≡ some (s₁, answers))
          × (settle keys soa_minimum to_vec key answer now s₁ fs ≡ some (s₂, fs'))
          × (resolve_cached keys key now' s₂ fs'
              ≡ some (s₃, resolved (answer_of serve_stale_secs entry now')))
    resolve_cached-settle tables capacity max_bytes serve_stale_secs cs key answer now now' fs
          {entry} positive small fits budget h =
        let (s, s₁, s₂, s₃, answers, new, ran, filed, found) =
          get_response-insert_response keys soa_minimum to_vec tables capacity max_bytes
            serve_stale_secs cs key answer now now' positive small fits budget h in
        (
          s,
          s₁,
          s₂,
          s₃,
          clear keys fs key,
          answers,
          new,
          ran,
          settle-filed key answer now s₁ s₂ fs (new_entry-code answer now h) filed,
          resolve_cached-free key now' s₂ s₃ (clear keys fs key)
              (answer_of serve_stale_secs entry now') found (held-clear keys fs key now').0,
        )

    -- An upstream SERVFAIL leaves the response cache as it is; until the hold that it starts is over,
    -- a query of the key that misses the response cache gets SERVFAIL without an upstream lookup, and
    -- from then on it needs one.
    pub resolve_cached-settle_failed :
        (key : K) (answer : Message D) (now now' : ℕ) (s s' : Inner K (Entry D))
        (fs : FailureCache K)
        → is_serv_fail answer.response_code ≡ true
        → get_response keys key now' s ≡ some (s', Lookup.miss)
        → (fs' : FailureCache K) × (settle keys soa_minimum to_vec key answer now s fs
            ≡ some (s, fs'))
          × (now' < now + (record_failure keys fs key now).1
              → resolve_cached keys key now' s fs' ≡ some (s', failure_cached))
          × (now + (record_failure keys fs key now).1 ≤ now'
              → resolve_cached keys key now' s fs' ≡ some (s', unresolved))
    unfolding settle
    resolve_cached-settle_failed key answer now now' s s' fs c missed =
        let fs' = (record_failure keys fs key now).0 in
        let (within, after) = held-record_failure keys fs key now now' in
        (
          fs',
          rw c refl,
          λ lt. resolve_cached-held key now' s s' fs' missed (within lt),
          λ le. resolve_cached-free key now' s s' fs' Lookup.miss missed (after le),
        )
